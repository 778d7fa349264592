-- ===== src/ChaCha/Rounds.antt =====
-- The rounds over four registers are the rounds over sixteen words.
use cybou_db.Prelude.{ℕ, zero, suc, ◌≡◌, refl, ap, ◌∙◌}
use cybou_db.ChaCha.Words.{
  Sixteen, word_ops, epi32, quarter, columns, diagonals, double_rounds, add_all, word_at,
}
use cybou_db.ChaCha.Stream.{
  Rows, shuffle_epi32, load_rows, store_rows, row_quarter, slide, slide_back, row_rounds, add_rows,
}

columns-store_rows : (v : Rows) → store_rows (row_quarter v) ≡ columns word_ops (store_rows v)
unfolding store_rows row_quarter columns quarter epi32 word_ops
columns-store_rows v = refl

diagonals-store_rows :
    (v : Rows) → store_rows (slide_back (row_quarter (slide v))) ≡ diagonals word_ops (store_rows v)
unfolding store_rows row_quarter diagonals quarter epi32 word_ops slide slide_back shuffle_epi32
diagonals-store_rows v = refl

pub rounds-store_rows :
    (n : ℕ) (v : Rows) → store_rows (row_rounds n v) ≡ double_rounds word_ops n (store_rows v)
unfolding row_rounds double_rounds
rounds-store_rows zero v = refl
rounds-store_rows (suc n) v =
    rounds-store_rows n (slide_back (row_quarter (slide (row_quarter v))))
    ∙ ap (double_rounds word_ops n)
        (diagonals-store_rows (row_quarter v) ∙ ap (diagonals word_ops) (columns-store_rows v))

pub add_all-store_rows :
    (v s : Rows) → store_rows (add_rows v s) ≡ add_all word_ops (store_rows v) (store_rows s)
unfolding store_rows add_rows add_all epi32 word_ops
add_all-store_rows v s = refl

pub store_rows-load_rows : (s : Sixteen ℕ) → store_rows (load_rows s) ≡ s
unfolding store_rows load_rows word_at
store_rows-load_rows s = refl
