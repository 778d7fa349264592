-- ===== src/ChaCha/Wide.antt =====
-- The two implementations that make four or eight blocks at once: word `i` of every block lies in
-- register `i`, a block in each lane.
use cybou_db.Prelude.{ℕ, zero, suc, ◌+◌, ◌-◌, true, false, ltb}
use cybou_db.ChaCha.Words.{
  Sixteen, Vector, epi32, add32, double_rounds, add_all, start_state, byte_at,
}
use cybou_db.ChaCha.Stream.{xor_bytes, round_bytes}

-- `words[i][blk]` for each `i`
unfoldable pub lane_words : ℕ → Sixteen Vector → Sixteen ℕ
lane_words blk x = record {
  w0 = x.w0 blk;
  w1 = x.w1 blk;
  w2 = x.w2 blk;
  w3 = x.w3 blk;
  w4 = x.w4 blk;
  w5 = x.w5 blk;
  w6 = x.w6 blk;
  w7 = x.w7 blk;
  w8 = x.w8 blk;
  w9 = x.w9 blk;
  w10 = x.w10 blk;
  w11 = x.w11 blk;
  w12 = x.w12 blk;
  w13 = x.w13 blk;
  w14 = x.w14 blk;
  w15 = x.w15 blk;
}

-- `_mm_set1_epi32` of each word, but lane `blk` of the counter's register has `s[12] + blk`.
unfoldable pub splat : Sixteen ℕ → Sixteen Vector
splat s = record {
  w0 = λ lane. s.w0;
  w1 = λ lane. s.w1;
  w2 = λ lane. s.w2;
  w3 = λ lane. s.w3;
  w4 = λ lane. s.w4;
  w5 = λ lane. s.w5;
  w6 = λ lane. s.w6;
  w7 = λ lane. s.w7;
  w8 = λ lane. s.w8;
  w9 = λ lane. s.w9;
  w10 = λ lane. s.w10;
  w11 = λ lane. s.w11;
  w12 = λ lane. add32 s.w12 lane;
  w13 = λ lane. s.w13;
  w14 = λ lane. s.w14;
  w15 = λ lane. s.w15;
}

-- Byte `j` of the block in lane `blk`.
unfoldable pub wide_block : Sixteen ℕ → ℕ → ℕ → ℕ
wide_block s blk =
    byte_at (lane_words blk (add_all epi32 (double_rounds epi32 10 (splat s)) (splat s)))

-- `for (blk = 0; blk < 4 && chunk > 0; blk++)` from `blk` on: where it stops, and the buffer.
unfoldable pub lane_loop : (ℕ → ℕ → ℕ) → ℕ → ℕ → ℕ → ℕ → (ℕ → ℕ) → ℕ × (ℕ → ℕ)
lane_loop ks zero blk done chunk buf = (done, buf)
lane_loop ks (suc lanes) blk done chunk buf = elim (ltb 0 chunk) [
  | false ↦ (done, buf)
  | true ↦
      lane_loop ks lanes (blk + 1) (done + round_bytes chunk) (chunk - round_bytes chunk)
        (xor_bytes (ks blk) (round_bytes chunk) 0 done buf)
]

-- `s[12] += 4` or `s[12] += 8`
unfoldable pub skip_blocks : ℕ → Sixteen ℕ → Sixteen ℕ
skip_blocks lanes s = record s { w12 = add32 s.w12 lanes }

-- `while (done < len)`, on fuel; `len` rounds are enough.
unfoldable pub wide_loop : ℕ → ℕ → ℕ → ℕ → Sixteen ℕ → (ℕ → ℕ) → ℕ → ℕ
wide_loop lanes zero len done s buf = buf
wide_loop lanes (suc fuel) len done s buf = elim (ltb done len) [
  | false ↦ buf
  | true ↦
      let r = lane_loop (wide_block s) lanes 0 done (len - done) buf in
      wide_loop lanes fuel len r.0 (skip_blocks lanes s) r.1
]

unfoldable pub chacha20_xor_sse2x4 : (ℕ → ℕ) → ℕ → (ℕ → ℕ) → (ℕ → ℕ) → ℕ → ℕ → ℕ
chacha20_xor_sse2x4 key counter nonce buf len =
    wide_loop 4 len len 0 (start_state key counter nonce) buf

unfoldable pub chacha20_xor_avx2 : (ℕ → ℕ) → ℕ → (ℕ → ℕ) → (ℕ → ℕ) → ℕ → ℕ → ℕ
chacha20_xor_avx2 key counter nonce buf len =
    wide_loop 8 len len 0 (start_state key counter nonce) buf
