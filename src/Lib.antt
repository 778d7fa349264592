-- ===== src/Lib.antt =====
-- CybouDB: the workers over its C interface, the arena of its vectors, the parts that decide which message
-- a worker may claim and which page the cache gives up, and the cipher of its encrypted pages.
--
-- The program is a database engine. Messages of a queue lie in slots, 62 to a segment page; a message is
-- held, claimed until a deadline, or acknowledged. A claim needs the first position between the head and
-- the tail whose message is held or whose deadline has passed. A tree over the segments answers that
-- without reading every slot: a leaf says when its segment first has something to claim, and each node
-- above it holds the least of its eight children. Pages of the encrypted engine are kept in clear in a
-- table of sets and ways, and the policy of the table decides what a new page pushes out. On disk such a
-- page is encrypted with a stream cipher, ChaCha20, which the repository has in several forms that must
-- leave the same bytes. A program that uses the engine calls the functions of include/cyboudb.h: it sends
-- statements, and takes the messages of a queue in a transaction, or holds one by a ticket across several.
-- The workers and the arena share the status codes; the other parts share no state.
--
-- Prelude: what the parts share. Numbers are natural numbers; a word of the C code is one, and its
--   wrap-around is written out (u32, u64). An array is a function, and a write to it an update.
-- Api (include/cyboudb.h): Codes has the status codes; Sql the statements of the examples, with the text
--   that their format strings make; View what a connection shows of its file and its transaction.
--   Database is the interface: a record of the calls, Contract, the laws that the header and the
--   documents state of them, and Reliable, that no call fails, in whatever state and whatever is asked.
--   A failed call is a status like any other, so every theorem over Contract holds of a machine that fails;
--   a COMMIT that fails has kept what was saved or has saved the transaction, and the program is not told
--   which. Plain has transactions for the instances below.
-- Worker (examples/worker.c): Loop has process_one and main over the interface, cut at the calls. What is
--   printed of the stream is the list of records. Plain fills the interface with a database that
--   fails no call. Job, Drain, Report and Main hold proofs.
-- Leased (examples/leased_worker.c, include/cyboudb.h): Tickets is what the header says of CLAIM, ACK, NACK
--   and RENEW on the list of the messages of a queue; Calls the interface with the clock; Run the
--   commands that may end the program; Program has claim_one and main, whose three parts are
--   ordinary, handed_back, and late with stolen. Plain fills the interface. Changes holds what
--   follows for tickets, Steps, Claims and Main the run of the program. LeaseContract is what the header
--   says of the calls and the clock; LeaseReliable says besides that no call fails, that a CLAIM finds a
--   message that can be claimed, and that the clock does not step back nor pass slower than the processor's.
-- Queue (src/core/queue.asm, include/queue.inc): Page has the queue page with its segments and the routines that
--   the calls share, Calls the calls. Labels inside a routine are cut into helpers (claim_slot, lease_slot,
--   nack_slot, push_slot). View gives the list of the messages that Leased.Tickets speaks of. A call whose
--   copy of a page, a segment or a message fails answers that status, and its queue is taken as it was.
--   Valid, Ready, Settle, Advance, Ends, Hidden, Turns, Left, Clock, Kept and Given hold lemmas; Answer, Settled, Claimed,
--   Fifo, Cursor, Accepted and Stale what the calls do, After a run of them, Fence and Once what follows for the tokens, and Drain what a worker that claims and acknowledges does.
-- Entry (src/api/cyboudb_c.asm, include/cyboudb.h): Create has cyboudb_open, cyboudb_create_with_options and
--   cyboudb_create, as built for Linux, over an engine that is a record of the calls they make; Made is what
--   they answer, and holds the proof.
-- Vector (src/core/vector_arena.asm, examples/vector_search.c, include/cyboudb.h): Arena has the five calls on
--   the arena, over a memory of whole floats; Search the main of the example. The normalizer and
--   the search are parameters. Floats, Valid, Append and Example hold proofs.
-- Lease (benchmarks/lease_probe.c): Slots has the queue page, slot_at and set_state; Walk the loops
--   over the slots of a segment (segment_ready_at, and the walk of tree_scan); Tree has tree_build
--   and node_search; Scan has tree_scan; Maintain has tree_propagate, tree_lower, tree_rescan, the
--   four operations and the cycle of main. The globals of the file are the records Tree, Counts
--   and Cost, and Probe holds the queue, the tree and the cost. A page that db_queue_seg_addr does
--   not find is none. The other files of the folder hold proofs: Summary and Search that the search
--   is right, Ring and Found the same of the ring and of tree_scan, Matches when a tree stands for a
--   queue, Least what tree_build leaves in each node, Climb, Leaves, Changed and Resum what an operation does to the nodes, the leaves, the
--   slots and the summaries, and Upkeep, Cost and Cycle what follows for the operations.
-- Cache (benchmarks/cache_probe.c): Table has the slots, index_of and cache_init; Get has cache_get,
--   cut at its loops and at the label that it jumps to; Workload has the generator, the choice of
--   pages and the loop of run_workload. Loops, Hand, Valid, Answers, Sweep and Counts hold proofs.
-- ChaCha (benchmarks/crypto_probe.c): Words has the state of sixteen words, QUARTERROUND over any
--   words (ROTL32, QR4 and QR8 are the same macro over integers and over vector registers), and
--   chacha20_block; Stream has chacha20_xor, chacha20_xor_hoisted and chacha20_xor_sse2, whose
--   loop over the buffer is one definition; Wide has chacha20_xor_sse2x4 and chacha20_xor_avx2,
--   one loop at four and at eight lanes. A vector register is a function of the lane, and an
--   intrinsic does to it what its manual says. Rounds, Xored, Lanes and Same hold proofs.
--
-- Bounds and fuel. A queue of Lease is valid where its tail is 62 below 2 ^ 64 and its segments are no
-- more than 495, which is what the directory of a queue page can name; so two live segments never share
-- one of the 512 leaves. One of Queue is valid where its tail is 62 below 2 ^ 64, its directory names the
-- segments of its live messages and no others, and no summary is above the time at which a live message of
-- its segment can be claimed. The clock hand runs on fuel, one round more than there are ways; every turn
-- of it clears one mark, so that is enough. The search of Queue runs on one round more than there are
-- positions between the head and the tail, and each round moves on by one at least. The loops over a
-- buffer run on as many rounds as it has bytes, and each round takes one byte at least. The two loops of
-- the worker run on fuel, one round more than there are messages or records: each round takes a message or
-- moves the cursor. The other loops run over a range whose length is their argument. A time is below
-- UINT64_MAX, which stands for never.
--
-- Not modelled: the bytes of a page and their checksum, the arguments and the printing of the programs,
-- the hit rates in floating point, the other primitives of crypto_probe.c, the scores of vectors, the loop
-- over the processor clock in leased_worker.c (`spin` is a parameter), the calls of include/cyboudb.h that
-- no example makes, and every part of the engine that is written in assembly, but for the arena, the queue
-- and the calls of Entry: of the queue, the streams, the checks of a segment page and the chains of long
-- messages are left. Contract and LeaseContract are what the header promises; how the SQL engine carries a
-- statement to the calls of the queue is not shown. A text in a statement ends at the first quote, and the
-- messages of the workers are asked to hold none.
pub mod Prelude
pub mod Api
pub mod Worker
pub mod Leased
pub mod Queue
pub mod Entry
pub mod Vector
pub mod Lease
pub mod Cache
pub mod ChaCha
