-- ===== src/ChaCha/Tests.antt =====
-- A buffer of 100 bytes, the last block of which is not whole.
use cybou_db.Prelude.{ℕ, ◌+◌, ◌≡◌, ◌%◌, ◌^◌, refl, arith}
use cybou_db.ChaCha.Words.{quarter, word_ops, add32, rotl32}
use cybou_db.ChaCha.Stream.{chacha20_xor, chacha20_xor_hoisted, chacha20_xor_sse2}
use cybou_db.ChaCha.Wide.{chacha20_xor_sse2x4, chacha20_xor_avx2}
use cybou_db.ChaCha.Xored.{Xored}
use cybou_db.ChaCha.Same.{key_stream, chacha20_xor-Xored, implementations_agree, chacha20_xor_twice}

abbrev key : ℕ → ℕ
key i = i % 2 ^ 8

abbrev nonce : ℕ → ℕ
nonce i = (i + 9) % 2 ^ 8

abbrev text : ℕ → ℕ
text i = (i + 65) % 2 ^ 8

-- The test vector of RFC 8439, 2.1.1.
quarter_runs :
    quarter word_ops 0x11111111 0x01020304 0x9b8d6f43 0x01234567
    ≡ (0xea2a92f4, 0xcb1cf8ce, 0x4581472e, 0x5881c4bb)
unfolding quarter word_ops add32 rotl32
quarter_runs = refl

chacha20_xor-Xored_example :
    Xored (key_stream key 1 nonce) 0 100 text (chacha20_xor key 1 nonce text 100)
chacha20_xor-Xored_example = chacha20_xor-Xored key 1 nonce text 100 (omega arith)

implementations_agree_example :
    (chacha20_xor_hoisted key 1 nonce text 100 ≡ chacha20_xor key 1 nonce text 100)
    × (chacha20_xor_sse2 key 1 nonce text 100 ≡ chacha20_xor key 1 nonce text 100)
    × (chacha20_xor_sse2x4 key 1 nonce text 100 ≡ chacha20_xor key 1 nonce text 100)
    × (chacha20_xor_avx2 key 1 nonce text 100 ≡ chacha20_xor key 1 nonce text 100)
implementations_agree_example = implementations_agree key 1 nonce text 100 (omega arith)

chacha20_xor_twice_example : chacha20_xor key 1 nonce (chacha20_xor key 1 nonce text 100) 100 ≡ text
chacha20_xor_twice_example = chacha20_xor_twice key 1 nonce text 100 (omega arith)
