-- ===== src/Queue.antt =====
-- The durable queue of src/core/queue.asm with its leases.
pub mod Page
pub mod Calls
pub mod Kept
pub mod Given
pub mod After
pub mod Fence
pub mod Once
pub mod View
pub mod Valid
pub mod Ready
pub mod Settle
pub mod Advance
pub mod Answer
pub mod Settled
pub mod Claimed
pub mod Ends
pub mod Fifo
pub mod Hidden
pub mod Stale
pub mod Cursor
pub mod Accepted
pub mod Turns
pub mod Left
pub mod Clock
pub mod Drain
mod Tests
mod FenceTests
