-- ===== src/ChaCha/Words.antt =====
-- The ChaCha20 block function: its state of sixteen words, the quarter round over words or over
-- vectors of words, and the bytes of a block.
use cybou_db.Prelude.{ℕ, zero, suc, ◌+◌, ◌-◌, ◌*◌, ◌/◌, ◌%◌, ◌^◌, u32, bit_or, bit_xor}
use cybou_db.Prelude.{List, [], ◌∷◌, get_or}

-- `x[16]`
pub record Sixteen {ℓ} (A : Type ℓ) : Type ℓ where
  pub w0 : A
  pub w1 : A
  pub w2 : A
  pub w3 : A
  pub w4 : A
  pub w5 : A
  pub w6 : A
  pub w7 : A
  pub w8 : A
  pub w9 : A
  pub w10 : A
  pub w11 : A
  pub w12 : A
  pub w13 : A
  pub w14 : A
  pub w15 : A

-- What a quarter round needs of the words that it works on.
pub record WordOps {ℓ} (A : Type ℓ) : Type ℓ where
  pub add : A → A → A
  pub xor : A → A → A
  pub rotl : A → ℕ → A

unfoldable pub add32 : ℕ → ℕ → ℕ
add32 a b = u32 (a + b)

-- `ROTL32`
unfoldable pub rotl32 : ℕ → ℕ → ℕ
rotl32 v n = bit_or (u32 (v * 2 ^ n)) (v / 2 ^ (32 - n))

-- `uint32_t`
unfoldable pub word_ops : WordOps ℕ
word_ops = record { add = add32; xor = bit_xor; rotl = rotl32 }

-- A vector register: the word in each lane. `_mm_add_epi32`, `_mm_xor_si128` and `rotl_epi32` work
-- on each lane alone.
abbrev pub Vector : Type 0
Vector = ℕ → ℕ

unfoldable pub epi32 : WordOps Vector
epi32 = record {
  add = λ x y lane. add32 (x lane) (y lane);
  xor = λ x y lane. bit_xor (x lane) (y lane);
  rotl = λ x n lane. rotl32 (x lane) n;
}

-- `QUARTERROUND`
unfoldable pub quarter {ℓ} : {A : Type ℓ} → WordOps A → A → A → A → A → A × A × A × A
quarter o a b c d =
    let a = o.add a b in
    let d = o.rotl (o.xor d a) 16 in
    let c = o.add c d in
    let b = o.rotl (o.xor b c) 12 in
    let a = o.add a b in
    let d = o.rotl (o.xor d a) 8 in
    let c = o.add c d in let b = o.rotl (o.xor b c) 7 in (a, b, c, d)

-- The four quarter rounds on columns.
unfoldable pub columns {ℓ} : {A : Type ℓ} → WordOps A → Sixteen A → Sixteen A
columns o x =
    let q0 = quarter o x.w0 x.w4 x.w8 x.w12 in
    let q1 = quarter o x.w1 x.w5 x.w9 x.w13 in
    let q2 = quarter o x.w2 x.w6 x.w10 x.w14 in
    let q3 = quarter o x.w3 x.w7 x.w11 x.w15 in
    record {
      w0 = q0.0;
      w1 = q1.0;
      w2 = q2.0;
      w3 = q3.0;
      w4 = q0.1;
      w5 = q1.1;
      w6 = q2.1;
      w7 = q3.1;
      w8 = q0.2;
      w9 = q1.2;
      w10 = q2.2;
      w11 = q3.2;
      w12 = q0.3;
      w13 = q1.3;
      w14 = q2.3;
      w15 = q3.3;
    }

-- The four quarter rounds on diagonals.
unfoldable pub diagonals {ℓ} : {A : Type ℓ} → WordOps A → Sixteen A → Sixteen A
diagonals o x =
    let q0 = quarter o x.w0 x.w5 x.w10 x.w15 in
    let q1 = quarter o x.w1 x.w6 x.w11 x.w12 in
    let q2 = quarter o x.w2 x.w7 x.w8 x.w13 in
    let q3 = quarter o x.w3 x.w4 x.w9 x.w14 in
    record {
      w0 = q0.0;
      w1 = q1.0;
      w2 = q2.0;
      w3 = q3.0;
      w4 = q3.1;
      w5 = q0.1;
      w6 = q1.1;
      w7 = q2.1;
      w8 = q2.2;
      w9 = q3.2;
      w10 = q0.2;
      w11 = q1.2;
      w12 = q1.3;
      w13 = q2.3;
      w14 = q3.3;
      w15 = q0.3;
    }

unfoldable pub double_rounds {ℓ} : {A : Type ℓ} → WordOps A → ℕ → Sixteen A → Sixteen A
double_rounds o zero x = x
double_rounds o (suc n) x = double_rounds o n (diagonals o (columns o x))

-- `x[i] + s[i]` for each word.
unfoldable pub add_all {ℓ} : {A : Type ℓ} → WordOps A → Sixteen A → Sixteen A → Sixteen A
add_all o x s = record {
  w0 = o.add x.w0 s.w0;
  w1 = o.add x.w1 s.w1;
  w2 = o.add x.w2 s.w2;
  w3 = o.add x.w3 s.w3;
  w4 = o.add x.w4 s.w4;
  w5 = o.add x.w5 s.w5;
  w6 = o.add x.w6 s.w6;
  w7 = o.add x.w7 s.w7;
  w8 = o.add x.w8 s.w8;
  w9 = o.add x.w9 s.w9;
  w10 = o.add x.w10 s.w10;
  w11 = o.add x.w11 s.w11;
  w12 = o.add x.w12 s.w12;
  w13 = o.add x.w13 s.w13;
  w14 = o.add x.w14 s.w14;
  w15 = o.add x.w15 s.w15;
}

unfoldable pub load32 : (ℕ → ℕ) → ℕ → ℕ
load32 p i = u32 (
    bit_or
      (bit_or (bit_or (p (4 * i)) (u32 (p (4 * i + 1) * 2 ^ 8))) (u32 (p (4 * i + 2) * 2 ^ 16)))
      (u32 (p (4 * i + 3) * 2 ^ 24)))

-- The state before the rounds: the constant, the key, the counter and the nonce.
unfoldable pub start_state : (ℕ → ℕ) → ℕ → (ℕ → ℕ) → Sixteen ℕ
start_state key counter nonce = record {
  w0 = 0x61707865;
  w1 = 0x3320646e;
  w2 = 0x79622d32;
  w3 = 0x6b206574;
  w4 = load32 key 0;
  w5 = load32 key 1;
  w6 = load32 key 2;
  w7 = load32 key 3;
  w8 = load32 key 4;
  w9 = load32 key 5;
  w10 = load32 key 6;
  w11 = load32 key 7;
  w12 = counter;
  w13 = load32 nonce 0;
  w14 = load32 nonce 1;
  w15 = load32 nonce 2;
}

abbrev pub words : Sixteen ℕ → List ℕ
words x =
    x.w0 ∷ x.w1 ∷ x.w2 ∷ x.w3 ∷ x.w4 ∷ x.w5 ∷ x.w6 ∷ x.w7 ∷ x.w8 ∷ x.w9 ∷ x.w10 ∷ x.w11 ∷ x.w12
    ∷ x.w13 ∷ x.w14 ∷ x.w15 ∷ []

-- The word `x[i]`, for `i < 16`.
unfoldable pub word_at : Sixteen ℕ → ℕ → ℕ
word_at x i = get_or (words x) i 0

-- The byte `j` of the words written out, the low byte of each first.
unfoldable pub byte_at : Sixteen ℕ → ℕ → ℕ
byte_at x j = word_at x (j / 4) / 2 ^ (8 * (j % 4)) % 2 ^ 8

unfoldable pub chacha20_block : (ℕ → ℕ) → ℕ → (ℕ → ℕ) → ℕ → ℕ
chacha20_block key counter nonce =
    let s = start_state key counter nonce in
    byte_at (add_all word_ops (double_rounds word_ops 10 s) s)
