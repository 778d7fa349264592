-- ===== src/ChaCha/Lanes.antt =====
-- Each lane of the wide implementations makes a block of its own.
use cybou_db.Prelude.{
  ℕ, zero, suc, ◌+◌, ◌-◌, ◌*◌, ◌≤◌, ◌<◌, ◌≡◌, ◌⊎◌, inl, inr, refl, ap, ap₂, ◌∙◌, arith, ltb,
  Bool-cases, ltb→lt, ltb→le, le→ltb,
}
use cybou_db.ChaCha.Words.{
  Sixteen, Vector, word_ops, epi32, quarter, columns, diagonals, add32, double_rounds, add_all,
  start_state, byte_at, chacha20_block,
}
use cybou_db.ChaCha.Stream.{round_bytes}
use cybou_db.ChaCha.Wide.{lane_words, splat, wide_block, lane_loop, skip_blocks, wide_loop}
use cybou_db.ChaCha.Xored.{Xored, Xored-none, Xored-append, xor_bytes-Xored, round_bytes_lem}

lane_words-columns :
    (b : ℕ) (x : Sixteen Vector)
    → lane_words b (columns epi32 x) ≡ columns word_ops (lane_words b x)
unfolding lane_words columns quarter epi32 word_ops
lane_words-columns b x = refl

lane_words-diagonals :
    (b : ℕ) (x : Sixteen Vector)
    → lane_words b (diagonals epi32 x) ≡ diagonals word_ops (lane_words b x)
unfolding lane_words diagonals quarter epi32 word_ops
lane_words-diagonals b x = refl

lane_words-double_rounds :
    (b n : ℕ) (x : Sixteen Vector)
    → lane_words b (double_rounds epi32 n x) ≡ double_rounds word_ops n (lane_words b x)
unfolding double_rounds
lane_words-double_rounds b zero x = refl
lane_words-double_rounds b (suc n) x =
    lane_words-double_rounds b n (diagonals epi32 (columns epi32 x))
    ∙ ap (double_rounds word_ops n) (
        lane_words-diagonals b (columns epi32 x) ∙ ap (diagonals word_ops) (lane_words-columns b x))

lane_words-add_all :
    (b : ℕ) (x y : Sixteen Vector)
    → lane_words b (add_all epi32 x y) ≡ add_all word_ops (lane_words b x) (lane_words b y)
unfolding lane_words add_all epi32 word_ops
lane_words-add_all b x y = refl

lane_words-splat :
    (key : ℕ → ℕ) (c : ℕ) (nonce : ℕ → ℕ) (b : ℕ)
    → lane_words b (splat (start_state key c nonce)) ≡ start_state key (add32 c b) nonce
unfolding lane_words splat start_state
lane_words-splat key c nonce b = refl

pub wide_block_lem :
    (key : ℕ → ℕ) (c : ℕ) (nonce : ℕ → ℕ) (b j : ℕ)
    → wide_block (start_state key c nonce) b j ≡ chacha20_block key (add32 c b) nonce j
unfolding wide_block chacha20_block
wide_block_lem key c nonce b j =
    let s = splat (start_state key c nonce) in
    ap (λ (t : Sixteen ℕ). byte_at t j)
      (lane_words-add_all b (double_rounds epi32 10 s) s
        ∙ ap₂ (add_all word_ops)
            (lane_words-double_rounds b 10 s
              ∙ ap (double_rounds word_ops 10) (lane_words-splat key c nonce b))
            (lane_words-splat key c nonce b))

-- Where the loop over the lanes stops: after all of them, or at the end of the buffer.
record Laned (stream : ℕ → ℕ) (lanes done len : ℕ) (buf : ℕ → ℕ) (r : ℕ × (ℕ → ℕ)) : Type 0 where
  xored : Xored stream done r.0 buf r.1
  from_done : done ≤ r.0
  to_len : r.0 ≤ len
  whole : (r.0 ≡ done + lanes * 64) ⊎ (r.0 ≡ len)

Laned-here :
    (stream : ℕ → ℕ) (m done len : ℕ) (buf : ℕ → ℕ)
    → done ≡ len
    → Laned stream m done len buf (done, buf)
Laned-here stream m done len buf e = record {
  xored = Xored-none stream done done buf (omega arith);
  from_done = omega arith;
  to_len = omega arith;
  whole = inr e;
}

Laned-end :
    (stream : ℕ → ℕ) (ks : ℕ → ℕ → ℕ) (m lanes blk done chunk len : ℕ) (buf : ℕ → ℕ)
    → chunk ≡ 0
    → done ≡ len
    → Laned stream m done len buf (lane_loop ks lanes blk done chunk buf)
unfolding lane_loop
Laned-end stream ks m zero blk done chunk len buf z e = Laned-here stream m done len buf e
Laned-end stream ks m (suc lanes) blk done chunk len buf z e =
    rw (le→ltb 0 chunk (omega arith), lane_loop) (Laned-here stream m done len buf e)

-- One block in front of the rest.
Laned-step :
    (stream : ℕ → ℕ) (lanes done mid len : ℕ) (buf buf' : ℕ → ℕ) {r : ℕ × (ℕ → ℕ)}
    → Xored stream done mid buf buf'
    → done ≤ mid
    → (mid ≡ done + 64) ⊎ (mid ≡ len)
    → Laned stream lanes mid len buf' r
    → Laned stream (suc lanes) done len buf r
Laned-step stream lanes done mid len buf buf' x le full l = record {
  xored = Xored-append stream done mid _ buf buf' _ le l.from_done x l.xored;
  from_done = omega (arith, l.from_done);
  to_len = l.to_len;
  whole = elim l.whole [
    | inr e ↦ inr e
    | inl e ↦ elim full [
      | inl f ↦ inl (omega arith)
      | inr f ↦ inr (omega (arith, l.from_done, l.to_len))
    ]
  ];
}

module _ (stream : ℕ → ℕ) (ks : ℕ → ℕ → ℕ) (first : ℕ)
    (good : (b j : ℕ) → j < 64 → ks b j ≡ stream ((first + b) * 64 + j)) where
  lane_loop-Laned :
      (lanes blk done chunk len : ℕ) (buf : ℕ → ℕ)
      → (first + blk) * 64 ≡ done
      → done + chunk ≡ len
      → Laned stream lanes done len buf (lane_loop ks lanes blk done chunk buf)
  unfolding lane_loop
  lane_loop-Laned zero blk done chunk len buf d e = record {
    xored = Xored-none stream done done buf (omega arith);
    from_done = omega arith;
    to_len = omega arith;
    whole = inl (omega arith);
  }
  lane_loop-Laned (suc lanes) blk done chunk len buf d e = elim (Bool-cases (ltb 0 chunk)) [
    | inr h ↦
        rw (h, lane_loop)
          (record {
            xored = Xored-none stream done done buf (omega arith);
            from_done = omega arith;
            to_len = omega arith;
            whole = inr (omega (arith, ltb→le 0 chunk h));
          })
    | inl h ↦
        let n = round_bytes chunk in
        let (p, q, r, full) = round_bytes_lem chunk (ltb→lt 0 chunk h) in
        let block =
          xor_bytes-Xored stream (ks blk) done n 0 done (done + n) buf
            (λ j l. good blk j (omega arith) ∙ ap (λ (t : ℕ). stream (t + j)) d) (omega arith)
            refl in
        rw (h, lane_loop)
          (elim full [
            | inl w ↦
                Laned-step stream lanes done (done + n) len buf _ block (omega arith)
                  (inl (omega (arith, w)))
                  (lane_loop-Laned lanes (blk + 1) (done + n) (chunk - n) len _ (omega (arith, w))
                    (omega arith))
            | inr w ↦
                Laned-step stream lanes done (done + n) len buf _ block (omega arith)
                  (inr (omega (arith, w)))
                  (Laned-end stream ks lanes lanes (blk + 1) (done + n) (chunk - n) len _
                    (omega (arith, w)) (omega (arith, w)))
          ])
  ]

-- A state makes the blocks from `k` on, one in each lane.
module _ (stream : ℕ → ℕ) (lanes : ℕ) (some_lanes : 0 < lanes) (Makes : ℕ → Sixteen ℕ → Type 0)
    (good : (k : ℕ) (s : Sixteen ℕ) (b j : ℕ)
      → Makes k s
      → j < 64
      → wide_block s b j ≡ stream ((k + b) * 64 + j))
    (more : (k : ℕ) (s : Sixteen ℕ) → Makes k s → Makes (k + lanes) (skip_blocks lanes s)) where
  wide_loop-end :
      (fuel len done : ℕ) (s : Sixteen ℕ) (buf : ℕ → ℕ)
      → len ≤ done
      → Xored stream done len buf (wide_loop lanes fuel len done s buf)
  unfolding wide_loop
  wide_loop-end zero len done s buf h = Xored-none stream done len buf h
  wide_loop-end (suc fuel) len done s buf h =
      rw (le→ltb done len h, wide_loop) (Xored-none stream done len buf h)

  -- With as much fuel as there are bytes to go, the loop xors all of them.
  pub wide_loop-Xored :
      (fuel len done k : ℕ) (s : Sixteen ℕ) (buf : ℕ → ℕ)
      → Makes k s
      → k * 64 ≡ done
      → len ≤ done + fuel
      → Xored stream done len buf (wide_loop lanes fuel len done s buf)
  unfolding wide_loop
  wide_loop-Xored zero len done k s buf m d f = Xored-none stream done len buf (omega arith)
  wide_loop-Xored (suc fuel) len done k s buf m d f = elim (Bool-cases (ltb done len)) [
    | inr e ↦ rw (e, wide_loop) (Xored-none stream done len buf (ltb→le done len e))
    | inl e ↦
        let lt = ltb→lt done len e in
        let r = lane_loop (wide_block s) lanes 0 done (len - done) buf in
        let l =
          lane_loop-Laned stream (wide_block s) k (λ b j h. good k s b j m h) lanes 0 done
            (len - done) len buf (omega arith) (omega arith) in
        rw (e, wide_loop)
          (Xored-append stream done r.0 len buf _ _ l.from_done l.to_len l.xored (elim l.whole [
            | inl w ↦
                wide_loop-Xored fuel len r.0 (k + lanes) (skip_blocks lanes s) r.1 (more k s m)
                  (omega (arith, w)) (omega (arith, w))
            | inr w ↦ wide_loop-end fuel len r.0 (skip_blocks lanes s) r.1 (omega (arith, w))
          ]))
  ]
