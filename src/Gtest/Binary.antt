-- ===== src/Gtest/Binary.antt =====
-- HrzrTestBinaryHelper (include/iqClient/common/hrzrTestBinaryHelper.h): a binary file as 64-bit
-- words.
use rs_jerry_driver.Common.{
  ℕ, zero, suc, ◌/◌, ◌%◌, ◌^◌, ◌<◌, ◌≡◌, refl, ap, ap₂, List, [], ◌∷◌, ◌++◌, Option, none, some,
  Result, ok, err, runtime_error, le_word, length, arith,
}

-- The loop: a read of 8 bytes that meets the end of the file ends it.
unfoldable pub read_words : List ℕ → List ℕ
read_words (a ∷ b ∷ c ∷ d ∷ e ∷ f ∷ g ∷ h ∷ rest) =
    le_word (a ∷ b ∷ c ∷ d ∷ e ∷ f ∷ g ∷ h ∷ []) ∷ read_words rest
read_words _ = []

-- A file that cannot be opened makes the first read fail without the end of the file.
unfoldable pub fill_input_from_file : Option (List ℕ) → Result (List ℕ)
fill_input_from_file none = err runtime_error
fill_input_from_file (some bytes) = ok (read_words bytes)

-- A word written with the least significant byte first.
abbrev pub le_bytes : ℕ → ℕ → List ℕ
le_bytes zero w = []
le_bytes (suc n) w = w % 256 ∷ le_bytes n (w / 256)

abbrev pub word_bytes : List ℕ → List ℕ
word_bytes [] = []
word_bytes (w ∷ words) = le_bytes 8 w ++ word_bytes words

-- Every word fits.
abbrev pub AreWords : List ℕ → Type 0
AreWords [] = Unit {0}
AreWords (w ∷ words) = (w < 2 ^ 64) × AreWords words

le_word-le_bytes : (w : ℕ) → w < 2 ^ 64 → le_word (le_bytes 8 w) ≡ w
le_word-le_bytes w h = omega arith

read_words_tail : (tail : List ℕ) → length tail < 8 → read_words tail ≡ []
unfolding read_words
read_words_tail [] h = refl
read_words_tail (a ∷ []) h = refl
read_words_tail (a ∷ b ∷ []) h = refl
read_words_tail (a ∷ b ∷ c ∷ []) h = refl
read_words_tail (a ∷ b ∷ c ∷ d ∷ []) h = refl
read_words_tail (a ∷ b ∷ c ∷ d ∷ e ∷ []) h = refl
read_words_tail (a ∷ b ∷ c ∷ d ∷ e ∷ f ∷ []) h = refl
read_words_tail (a ∷ b ∷ c ∷ d ∷ e ∷ f ∷ g ∷ []) h = refl
read_words_tail (a ∷ b ∷ c ∷ d ∷ e ∷ f ∷ g ∷ i ∷ rest) h = absurd (omega arith)

read_words-word_bytes :
    (words tail : List ℕ)
    → AreWords words
    → length tail < 8
    → read_words (word_bytes words ++ tail) ≡ words
unfolding read_words
read_words-word_bytes [] tail fit short = read_words_tail tail short
read_words-word_bytes (w ∷ words) tail fit short =
    ap₂ (λ (x : ℕ) (xs : List ℕ). x ∷ xs) (le_word-le_bytes w fit.0)
      (read_words-word_bytes words tail fit.1 short)

-- The helper of the tests reads a file back: 64-bit words that were written one after the other,
-- the least significant byte first, are returned in their order; fewer than 8 bytes behind them are
-- dropped.
pub fill_input_from_file-word_bytes :
    (words tail : List ℕ)
    → AreWords words
    → length tail < 8
    → fill_input_from_file (some (word_bytes words ++ tail)) ≡ ok words
unfolding fill_input_from_file
fill_input_from_file-word_bytes words tail fit short =
    ap (λ (l : List ℕ). ok l) (read_words-word_bytes words tail fit short)
