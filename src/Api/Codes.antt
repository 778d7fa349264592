-- ===== src/Api/Codes.antt =====
-- The status codes and the flags of include/cyboudb.h. An `int` is its 32 bits, so -1 is 2 ^ 32 - 1.
use cybou_db.Prelude.{ℕ, ◌-◌, ◌^◌}

abbrev minus : ℕ → ℕ
minus n = 2 ^ 32 - n

abbrev pub ok_code : ℕ
ok_code = 0

abbrev pub row_code : ℕ
row_code = 100

abbrev pub done_code : ℕ
done_code = 101

abbrev pub error_code : ℕ
error_code = minus 1

abbrev pub busy_code : ℕ
busy_code = minus 2

abbrev pub misuse_code : ℕ
misuse_code = minus 3

abbrev pub nomem_code : ℕ
nomem_code = minus 4
