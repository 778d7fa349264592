-- ===== src/ChaCha/Xored.antt =====
-- What the loops over the buffer leave in it, byte by byte.
use cybou_db.Prelude.{
  ℕ, zero, suc, ◌+◌, ◌-◌, ◌*◌, ◌≤◌, ◌<◌, ◌≡◌, ◌⊎◌, inl, inr, refl, ap, ◌∙◌, subst, ltb, arith,
  update, update_self, update_ne, bit_xor, Bool-cases, ltb→lt, ltb→le, le→ltb, split_at,
}
use cybou_db.ChaCha.Stream.{xor_bytes, round_bytes, xor_blocks}

-- The bytes of `[lo, hi)` have been xored with the stream, and no other byte has changed.
pub record Xored (stream : ℕ → ℕ) (lo hi : ℕ) (buf buf' : ℕ → ℕ) : Type 0 where
  pub inside : (j : ℕ) → lo ≤ j → j < hi → buf' j ≡ bit_xor (buf j) (stream j)
  pub below : (j : ℕ) → j < lo → buf' j ≡ buf j
  pub above : (j : ℕ) → hi ≤ j → buf' j ≡ buf j

pub Xored-none : (stream : ℕ → ℕ) (lo hi : ℕ) (buf : ℕ → ℕ) → hi ≤ lo → Xored stream lo hi buf buf
Xored-none stream lo hi buf h = record {
  inside = λ j a b. absurd (omega arith);
  below = λ j a. refl;
  above = λ j a. refl;
}

-- Two stretches that meet are one.
pub Xored-append :
    (stream : ℕ → ℕ) (a b c : ℕ) (x y z : ℕ → ℕ)
    → a ≤ b
    → b ≤ c
    → Xored stream a b x y
    → Xored stream b c y z
    → Xored stream a c x z
Xored-append stream a b c x y z ab bc f g = record {
  inside = λ j p q. elim (split_at j b) [
    | inl h ↦ g.below j h ∙ f.inside j p h
    | inr h ↦ g.inside j h q ∙ ap (λ (t : ℕ). bit_xor t (stream j)) (f.above j h)
  ];
  below = λ j p. g.below j (omega arith) ∙ f.below j p;
  above = λ j p. g.above j p ∙ f.above j (omega arith);
}

Xored-byte :
    (stream : ℕ → ℕ) (i lo x : ℕ) (buf : ℕ → ℕ)
    → i ≡ lo
    → x ≡ stream i
    → Xored stream lo (lo + 1) buf (update buf i (bit_xor (buf i) x))
Xored-byte stream i lo x buf e same = record {
  inside = λ j p q.
      put (λ (k : ℕ). update buf i (bit_xor (buf i) x) k ≡ bit_xor (buf k) (stream k)) j p q
        (update_self buf i (bit_xor (buf i) x) ∙ ap (bit_xor (buf i)) same);
  below = λ j p. update_ne buf i j (bit_xor (buf i) x) (omega arith);
  above = λ j p. update_ne buf i j (bit_xor (buf i) x) (omega arith);
}
  where
    put : (P : ℕ → Type 0) (j : ℕ) → lo ≤ j → j < lo + 1 → P i → P j
    put P j p q t = subst P (omega arith) t

-- The loop over the bytes of a block whose byte `k` is the byte `done + k` of the stream.
pub xor_bytes-Xored :
    (stream ks : ℕ → ℕ) (done n i lo hi : ℕ) (buf : ℕ → ℕ)
    → ((k : ℕ) → k < i + n → ks k ≡ stream (done + k))
    → done + i ≡ lo
    → lo + n ≡ hi
    → Xored stream lo hi buf (xor_bytes ks n i done buf)
unfolding xor_bytes
xor_bytes-Xored stream ks done zero i lo hi buf same d e = Xored-none stream lo hi buf (omega arith)
xor_bytes-Xored stream ks done (suc n) i lo hi buf same d e =
    Xored-append stream lo (lo + 1) hi buf _ _ (omega arith) (omega arith)
      (Xored-byte stream (done + i) lo (ks i) buf d (same i (omega arith)))
      (xor_bytes-Xored stream ks done n (i + 1) (lo + 1) hi _ (λ k h. same k (omega arith))
        (omega arith) (omega arith))

pub round_bytes_lem :
    (left : ℕ)
    → 0 < left
    → (0 < round_bytes left)
      × (round_bytes left ≤ 64)
      × (round_bytes left ≤ left)
      × ((round_bytes left ≡ 64) ⊎ (round_bytes left ≡ left))
unfolding round_bytes
round_bytes_lem left h = elim (Bool-cases (ltb left 64)) [
  | inl e ↦ rw e (omega arith, omega (arith, ltb→lt left 64 e), omega arith, inr refl)
  | inr e ↦ rw e (omega arith, omega arith, ltb→le left 64 e, inl refl)
]

-- A state makes block `k` of the stream, as long as `good` holds of it.
module _ {S : Type 0} (keystream : S → ℕ → ℕ) (next : S → S) (stream : ℕ → ℕ)
    (Makes : ℕ → S → Type 0)
    (good : (k : ℕ) (s : S) (j : ℕ) → Makes k s → j < 64 → keystream s j ≡ stream (k * 64 + j))
    (more : (k : ℕ) (s : S) → Makes k s → Makes (suc k) (next s)) where
  xor_blocks-end :
      (fuel len done : ℕ) (s : S) (buf : ℕ → ℕ)
      → len ≤ done
      → Xored stream done len buf (xor_blocks keystream next fuel len done s buf)
  unfolding xor_blocks
  xor_blocks-end zero len done s buf h = Xored-none stream done len buf h
  xor_blocks-end (suc fuel) len done s buf h =
      rw (le→ltb done len h, xor_blocks) (Xored-none stream done len buf h)

  -- With as much fuel as there are bytes to go, the loop xors all of them.
  pub xor_blocks-Xored :
      (fuel len done k : ℕ) (s : S) (buf : ℕ → ℕ)
      → Makes k s
      → k * 64 ≡ done
      → len ≤ done + fuel
      → Xored stream done len buf (xor_blocks keystream next fuel len done s buf)
  unfolding xor_blocks
  xor_blocks-Xored zero len done k s buf m d f = Xored-none stream done len buf (omega arith)
  xor_blocks-Xored (suc fuel) len done k s buf m d f = elim (Bool-cases (ltb done len)) [
    | inr e ↦ rw (e, xor_blocks) (Xored-none stream done len buf (ltb→le done len e))
    | inl e ↦
        let lt = ltb→lt done len e in
        let (p, q, r, full) = round_bytes_lem (len - done) (omega arith) in
        rw (e, xor_blocks)
          (Xored-append stream done (done + round_bytes (len - done)) len buf _ _ (omega arith)
            (omega arith)
            (xor_bytes-Xored stream (keystream s) done (round_bytes (len - done)) 0 done
              (done + round_bytes (len - done)) buf
              (λ j h. good k s j m (omega arith) ∙ ap (λ (t : ℕ). stream (t + j)) d) (omega arith)
              refl)
            (elim full [
              | inl whole ↦
                  xor_blocks-Xored fuel len (done + round_bytes (len - done)) (suc k) (next s) _
                    (more k s m) (omega (arith, whole)) (omega arith)
              | inr tail ↦
                  xor_blocks-end fuel len (done + round_bytes (len - done)) (next s) _
                    (omega (arith, tail))
            ]))
  ]
