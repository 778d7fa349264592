-- ===== src/ChaCha/Stream.antt =====
-- The loops that xor the blocks into the buffer, and the three implementations that make one block
-- at a time: the plain one, the one that builds the state once, and the one in four registers.
use cybou_db.Prelude.{
  ℕ, zero, suc, ◌+◌, ◌-◌, ◌*◌, ◌/◌, ◌%◌, ◌^◌, true, false, if◌then◌else◌, ltb, ◌==◌, update,
  bit_and, bit_xor,
}
use cybou_db.ChaCha.Words.{
  Sixteen, word_ops, Vector, epi32, add32, quarter, double_rounds, add_all, start_state, word_at,
  byte_at, chacha20_block,
}

-- `for (i = 0; i < n; i++) buf[done + i] ^= ks[i];` from `i` on.
unfoldable pub xor_bytes : (ℕ → ℕ) → ℕ → ℕ → ℕ → (ℕ → ℕ) → ℕ → ℕ
xor_bytes ks zero i done buf = buf
xor_bytes ks (suc n) i done buf =
    xor_bytes ks n (i + 1) done (update buf (done + i) (bit_xor (buf (done + i)) (ks i)))

-- The bytes of this round: `len - done < 64 ? len - done : 64`.
unfoldable pub round_bytes : ℕ → ℕ
round_bytes left = if ltb left 64 then left else 64

module _ {S : Type 0} (keystream : S → ℕ → ℕ) (next : S → S) where
  -- `while (done < len)`, on fuel; each round moves `done` on, so `len` rounds are enough.
  unfoldable pub xor_blocks : ℕ → ℕ → ℕ → S → (ℕ → ℕ) → ℕ → ℕ
  xor_blocks zero len done s buf = buf
  xor_blocks (suc fuel) len done s buf = elim (ltb done len) [
    | false ↦ buf
    | true ↦
        xor_blocks fuel len (done + round_bytes (len - done)) (next s)
          (xor_bytes (keystream s) (round_bytes (len - done)) 0 done buf)
  ]

unfoldable pub next_counter : ℕ → ℕ
next_counter counter = add32 counter 1

unfoldable pub chacha20_xor : (ℕ → ℕ) → ℕ → (ℕ → ℕ) → (ℕ → ℕ) → ℕ → ℕ → ℕ
chacha20_xor key counter nonce buf len =
    xor_blocks (λ (c : ℕ). chacha20_block key c nonce) next_counter len len 0 counter buf

-- `s[12]++`
unfoldable pub next_state : Sixteen ℕ → Sixteen ℕ
next_state s = record s { w12 = add32 s.w12 1 }

-- `(uint8_t)(x[j >> 2] >> ((j & 3) * 8))`
unfoldable pub byte_of_word : Sixteen ℕ → ℕ → ℕ
byte_of_word x j = word_at x (j / 2 ^ 2) / 2 ^ (bit_and j 3 * 8) % 2 ^ 8

unfoldable pub hoisted_block : Sixteen ℕ → ℕ → ℕ
hoisted_block s = byte_of_word (add_all word_ops (double_rounds word_ops 10 s) s)

unfoldable pub chacha20_xor_hoisted : (ℕ → ℕ) → ℕ → (ℕ → ℕ) → (ℕ → ℕ) → ℕ → ℕ → ℕ
chacha20_xor_hoisted key counter nonce buf len =
    xor_blocks hoisted_block next_state len len 0 (start_state key counter nonce) buf

-- The four registers `v0` to `v3`, a row of the state in each.
pub record Rows : Type 0 where
  pub v0 : Vector
  pub v1 : Vector
  pub v2 : Vector
  pub v3 : Vector

-- `_mm_shuffle_epi32`: lane `i` comes from the lane that bits `2 * i` and `2 * i + 1` name.
unfoldable pub shuffle_epi32 : Vector → ℕ → Vector
shuffle_epi32 x imm lane = x (imm / 4 ^ lane % 4)

-- `_mm_loadu_si128` from `s + 0`, `s + 4`, `s + 8` and `s + 12`
unfoldable pub load_rows : Sixteen ℕ → Rows
load_rows s = record {
  v0 = λ lane. word_at s lane;
  v1 = λ lane. word_at s (4 + lane);
  v2 = λ lane. word_at s (8 + lane);
  v3 = λ lane. word_at s (12 + lane);
}

unfoldable pub store_rows : Rows → Sixteen ℕ
store_rows v = record {
  w0 = v.v0 0;
  w1 = v.v0 1;
  w2 = v.v0 2;
  w3 = v.v0 3;
  w4 = v.v1 0;
  w5 = v.v1 1;
  w6 = v.v1 2;
  w7 = v.v1 3;
  w8 = v.v2 0;
  w9 = v.v2 1;
  w10 = v.v2 2;
  w11 = v.v2 3;
  w12 = v.v3 0;
  w13 = v.v3 1;
  w14 = v.v3 2;
  w15 = v.v3 3;
}

-- Four quarter rounds at once, one in each lane.
unfoldable pub row_quarter : Rows → Rows
row_quarter v =
    let q = quarter epi32 v.v0 v.v1 v.v2 v.v3 in record { v0 = q.0; v1 = q.1; v2 = q.2; v3 = q.3 }

-- The rows slide, so that the lanes hold the diagonals.
unfoldable pub slide : Rows → Rows
slide v = record v {
  v1 = shuffle_epi32 v.v1 0x39;
  v2 = shuffle_epi32 v.v2 0x4E;
  v3 = shuffle_epi32 v.v3 0x93;
}

unfoldable pub slide_back : Rows → Rows
slide_back v = record v {
  v1 = shuffle_epi32 v.v1 0x93;
  v2 = shuffle_epi32 v.v2 0x4E;
  v3 = shuffle_epi32 v.v3 0x39;
}

unfoldable pub row_rounds : ℕ → Rows → Rows
row_rounds zero v = v
row_rounds (suc n) v = row_rounds n (slide_back (row_quarter (slide (row_quarter v))))

unfoldable pub add_rows : Rows → Rows → Rows
add_rows v s = record {
  v0 = epi32.add v.v0 s.v0;
  v1 = epi32.add v.v1 s.v1;
  v2 = epi32.add v.v2 s.v2;
  v3 = epi32.add v.v3 s.v3;
}

unfoldable pub sse2_block : Rows → ℕ → ℕ
sse2_block v = byte_at (store_rows (add_rows (row_rounds 10 v) v))

-- `_mm_add_epi32(v3, _mm_set_epi32(0, 0, 0, 1))`
unfoldable pub next_rows : Rows → Rows
next_rows v = record v { v3 = epi32.add v.v3 (λ lane. if lane == 0 then 1 else 0) }

unfoldable pub chacha20_xor_sse2 : (ℕ → ℕ) → ℕ → (ℕ → ℕ) → (ℕ → ℕ) → ℕ → ℕ → ℕ
chacha20_xor_sse2 key counter nonce buf len =
    xor_blocks sse2_block next_rows len len 0 (load_rows (start_state key counter nonce)) buf
