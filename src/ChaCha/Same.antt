-- ===== src/ChaCha/Same.antt =====
-- The implementations of ChaCha20 make one stream, and xoring it in twice gives the buffer back.
use cybou_db.Prelude.{
  ℕ, suc, ◌+◌, ◌*◌, ◌/◌, ◌%◌, ◌^◌, ◌<◌, ◌≡◌, inl, inr, refl, sym, ap, ap₂, ◌∙◌, fun_ext, arith, u32,
  bit_and_mask, bit_xor, bit_xor_twice, split_at,
}
use cybou_db.ChaCha.Words.{
  Sixteen, word_ops, epi32, add32, double_rounds, add_all, load32, start_state, word_at, byte_at,
  chacha20_block,
}
use cybou_db.ChaCha.Stream.{
  Rows, next_counter, chacha20_xor, next_state, byte_of_word, hoisted_block, chacha20_xor_hoisted,
  load_rows, store_rows, row_rounds, sse2_block, next_rows, chacha20_xor_sse2,
}
use cybou_db.ChaCha.Rounds.{rounds-store_rows, add_all-store_rows, store_rows-load_rows}
use cybou_db.ChaCha.Wide.{
  wide_block, skip_blocks, wide_loop, chacha20_xor_sse2x4, chacha20_xor_avx2,
}
use cybou_db.ChaCha.Lanes.{wide_block_lem, wide_loop-Xored}
use cybou_db.ChaCha.Xored.{Xored, xor_blocks-Xored}

-- Byte `j` of the stream: block `j / 64` has the counter `counter + j / 64`, which wraps at 2 ^ 32.
unfoldable pub key_stream : (ℕ → ℕ) → ℕ → (ℕ → ℕ) → ℕ → ℕ
key_stream key counter nonce j = chacha20_block key (u32 (counter + j / 64)) nonce (j % 64)

module _ (key : ℕ → ℕ) (counter : ℕ) (nonce : ℕ → ℕ) where
  in_stream :
      (k j : ℕ)
      → j < 64
      → chacha20_block key (u32 (counter + k)) nonce j ≡ key_stream key counter nonce (k * 64 + j)
  unfolding key_stream
  in_stream k j h =
      ap₂ (λ (b i : ℕ). chacha20_block key (u32 (counter + b)) nonce i) {x = k}
        {y = (k * 64 + j) / 64} (omega arith) (omega arith)

  at_start : counter < 2 ^ 32 → u32 (counter + 0) ≡ counter
  at_start h = omega arith

  one_more : (k : ℕ) → add32 (u32 (counter + k)) 1 ≡ u32 (counter + suc k)
  unfolding add32
  one_more k = omega arith

  -- From a counter of 32 bits, the plain implementation xors byte `j` of the buffer, for `j` below the
  -- length, with byte `j % 64` of the block whose counter is `counter + j / 64` modulo 2 ^ 32, and
  -- changes no other byte.
  pub chacha20_xor-Xored :
      (buf : ℕ → ℕ) (len : ℕ)
      → counter < 2 ^ 32
      → Xored (key_stream key counter nonce) 0 len buf (chacha20_xor key counter nonce buf len)
  unfolding chacha20_xor next_counter
  chacha20_xor-Xored buf len h =
      xor_blocks-Xored (λ (c : ℕ). chacha20_block key c nonce) next_counter
        (key_stream key counter nonce) (λ k c. c ≡ u32 (counter + k))
        (λ k c j m b. ap (λ (t : ℕ). chacha20_block key t nonce j) m ∙ in_stream k j b)
        (λ k c m. ap (λ (t : ℕ). add32 t 1) m ∙ one_more k) len len 0 0 counter buf
        (sym (at_start h)) (omega arith) (omega arith)

  byte_of_word_lem : (x : Sixteen ℕ) (j : ℕ) → byte_of_word x j ≡ byte_at x j
  unfolding byte_of_word byte_at
  byte_of_word_lem x j =
      ap (λ (t : ℕ). word_at x (j / 4) / 2 ^ t % 2 ^ 8) (omega (arith, bit_and_mask 2 j))

  hoisted_block_lem :
      (c j : ℕ) → hoisted_block (start_state key c nonce) j ≡ chacha20_block key c nonce j
  unfolding hoisted_block chacha20_block
  hoisted_block_lem c j = byte_of_word_lem _ j

  next_state_lem :
      (c : ℕ) → next_state (start_state key c nonce) ≡ start_state key (add32 c 1) nonce
  unfolding next_state start_state
  next_state_lem c = refl

  chacha20_xor_hoisted-Xored :
      (buf : ℕ → ℕ) (len : ℕ)
      → counter < 2 ^ 32
      → Xored
          (key_stream key counter nonce)
          0
          len
          buf
          (chacha20_xor_hoisted key counter nonce buf len)
  unfolding chacha20_xor_hoisted
  chacha20_xor_hoisted-Xored buf len h =
      xor_blocks-Xored hoisted_block next_state (key_stream key counter nonce)
        (λ k s. s ≡ start_state key (u32 (counter + k)) nonce)
        (λ k s j m b.
          ap (λ (t : Sixteen ℕ). hoisted_block t j) m ∙ hoisted_block_lem _ j ∙ in_stream k j b)
        (λ k s m.
          ap next_state m ∙ next_state_lem _ ∙ ap (λ (c : ℕ). start_state key c nonce) (one_more k))
        len len 0 0 (start_state key counter nonce) buf
        (ap (λ (c : ℕ). start_state key c nonce) (sym (at_start h))) (omega arith) (omega arith)

  -- The words of the state with one more block counted, as the vector addition leaves them.
  abbrev bumped : Sixteen ℕ → Sixteen ℕ
  bumped s = record s {
    w12 = add32 s.w12 1;
    w13 = add32 s.w13 0;
    w14 = add32 s.w14 0;
    w15 = add32 s.w15 0;
  }

  store_rows-next_rows : (v : Rows) → store_rows (next_rows v) ≡ bumped (store_rows v)
  unfolding store_rows next_rows epi32
  store_rows-next_rows v = refl

  load32-add32 : (p : ℕ → ℕ) (i : ℕ) → add32 (load32 p i) 0 ≡ load32 p i
  unfolding add32 load32
  load32-add32 p i = omega arith

  bumped_lem : (c : ℕ) → bumped (start_state key c nonce) ≡ start_state key (add32 c 1) nonce
  unfolding start_state
  bumped_lem c = rw (load32-add32 nonce 0, load32-add32 nonce 1, load32-add32 nonce 2) refl

  sse2_block_lem :
      (v : Rows) (c j : ℕ)
      → store_rows v ≡ start_state key c nonce
      → sse2_block v j ≡ chacha20_block key c nonce j
  unfolding sse2_block chacha20_block
  sse2_block_lem v c j m =
      ap (λ (t : Sixteen ℕ). byte_at t j)
        (add_all-store_rows (row_rounds 10 v) v
          ∙ ap₂ (add_all word_ops) (rounds-store_rows 10 v ∙ ap (double_rounds word_ops 10) m) m)

  chacha20_xor_sse2-Xored :
      (buf : ℕ → ℕ) (len : ℕ)
      → counter < 2 ^ 32
      → Xored (key_stream key counter nonce) 0 len buf (chacha20_xor_sse2 key counter nonce buf len)
  unfolding chacha20_xor_sse2
  chacha20_xor_sse2-Xored buf len h =
      xor_blocks-Xored sse2_block next_rows (key_stream key counter nonce)
        (λ k v. store_rows v ≡ start_state key (u32 (counter + k)) nonce)
        (λ k v j m b. sse2_block_lem v _ j m ∙ in_stream k j b)
        (λ k v m.
          store_rows-next_rows v
          ∙ ap bumped m
          ∙ bumped_lem _
          ∙ ap (λ (c : ℕ). start_state key c nonce) (one_more k))
        len len 0 0 (load_rows (start_state key counter nonce)) buf
        (store_rows-load_rows _ ∙ ap (λ (c : ℕ). start_state key c nonce) (sym (at_start h)))
        (omega arith) (omega arith)

  some_more : (k n : ℕ) → add32 (u32 (counter + k)) n ≡ u32 (counter + (k + n))
  unfolding add32
  some_more k n = omega arith

  skip_blocks_lem :
      (lanes c : ℕ)
      → skip_blocks lanes (start_state key c nonce) ≡ start_state key (add32 c lanes) nonce
  unfolding skip_blocks start_state
  skip_blocks_lem lanes c = refl

  wide_loop_lem :
      (lanes : ℕ) (buf : ℕ → ℕ) (len : ℕ)
      → 0 < lanes
      → counter < 2 ^ 32
      → Xored
          (key_stream key counter nonce)
          0
          len
          buf
          (wide_loop lanes len len 0 (start_state key counter nonce) buf)
  wide_loop_lem lanes buf len p h =
      wide_loop-Xored (key_stream key counter nonce) lanes p
        (λ k s. s ≡ start_state key (u32 (counter + k)) nonce)
        (λ k s b j m l.
          ap (λ (t : Sixteen ℕ). wide_block t b j) m
          ∙ wide_block_lem key _ nonce b j
          ∙ ap (λ (t : ℕ). chacha20_block key t nonce j) (some_more k b)
          ∙ in_stream (k + b) j l)
        (λ k s m.
          ap (skip_blocks lanes) m
          ∙ skip_blocks_lem lanes _
          ∙ ap (λ (c : ℕ). start_state key c nonce) (some_more k lanes))
        len len 0 0 (start_state key counter nonce) buf
        (ap (λ (c : ℕ). start_state key c nonce) (sym (at_start h))) (omega arith) (omega arith)

-- What has been xored is determined.
Xored-unique :
    (stream : ℕ → ℕ) (len : ℕ) (buf x y : ℕ → ℕ)
    → Xored stream 0 len buf x
    → Xored stream 0 len buf y
    → x ≡ y
Xored-unique stream len buf x y f g = fun_ext (λ j. elim (split_at j len) [
  | inl h ↦ f.inside j (omega arith) h ∙ sym (g.inside j (omega arith) h)
  | inr h ↦ f.above j h ∙ sym (g.above j h)
])

-- The implementation that builds the state once, the one in four registers and the ones that make four
-- and eight blocks at once leave the same buffer as the plain one, for every key, nonce, buffer and
-- length and every counter of 32 bits.
pub implementations_agree :
    (key : ℕ → ℕ) (counter : ℕ) (nonce buf : ℕ → ℕ) (len : ℕ)
    → counter < 2 ^ 32
    → (chacha20_xor_hoisted key counter nonce buf len ≡ chacha20_xor key counter nonce buf len)
      × (chacha20_xor_sse2 key counter nonce buf len ≡ chacha20_xor key counter nonce buf len)
      × (chacha20_xor_sse2x4 key counter nonce buf len ≡ chacha20_xor key counter nonce buf len)
      × (chacha20_xor_avx2 key counter nonce buf len ≡ chacha20_xor key counter nonce buf len)
unfolding chacha20_xor_sse2x4 chacha20_xor_avx2
implementations_agree key counter nonce buf len h =
    let plain = chacha20_xor-Xored key counter nonce buf len h in
    (
      Xored-unique _ len buf _ _ (chacha20_xor_hoisted-Xored key counter nonce buf len h) plain,
      Xored-unique _ len buf _ _ (chacha20_xor_sse2-Xored key counter nonce buf len h) plain,
      Xored-unique _ len buf _ _ (wide_loop_lem key counter nonce 4 buf len (omega arith) h) plain,
      Xored-unique _ len buf _ _ (wide_loop_lem key counter nonce 8 buf len (omega arith) h) plain,
    )

-- Encrypting twice with one key, nonce and counter of 32 bits gives the buffer back.
pub chacha20_xor_twice :
    (key : ℕ → ℕ) (counter : ℕ) (nonce buf : ℕ → ℕ) (len : ℕ)
    → counter < 2 ^ 32
    → chacha20_xor key counter nonce (chacha20_xor key counter nonce buf len) len ≡ buf
chacha20_xor_twice key counter nonce buf len h =
    let once = chacha20_xor-Xored key counter nonce buf len h in
    let twice =
      chacha20_xor-Xored key counter nonce (chacha20_xor key counter nonce buf len) len h in
    fun_ext (λ j. elim (split_at j len) [
      | inl b ↦
          twice.inside j (omega arith) b
          ∙ ap (λ (t : ℕ). bit_xor t (key_stream key counter nonce j))
              (once.inside j (omega arith) b)
          ∙ bit_xor_twice (buf j) _
      | inr b ↦ twice.above j b ∙ once.above j b
    ])
