-- ===== src/Common/Word.antt =====
-- Casts to the fixed widths, shifts, byte order and two's complement on a little-endian host.
use Prim.Native.Nat.{ℕ, ◌+◌, ◌-◌, ◌*◌, ◌/◌, ◌%◌, ◌^◌, ◌<◌}
use mathlib.Core.Path.{◌≡◌, refl, ap}
use mathlib.Core.List.{List, [], ◌∷◌, ◌++◌}
use native.Mathlib.Omega.{arith}
use rs_jerry_driver.Common.Lists.{length}
use rs_jerry_driver.Common.Tests.{ltb, if◌then◌else◌}

abbrev pub u8 : ℕ → ℕ
u8 n = n % 2 ^ 8

abbrev pub u16 : ℕ → ℕ
u16 n = n % 2 ^ 16

abbrev pub u64 : ℕ → ℕ
u64 n = n % 2 ^ 64

-- `x >> k`
abbrev pub shr : ℕ → ℕ → ℕ
shr x k = x / 2 ^ k

-- `ntohs` and `htons` swap the two bytes of a 16-bit word.
abbrev pub ntohs : ℕ → ℕ
ntohs n = n % 256 * 256 + n / 256 % 256

abbrev pub htons : ℕ → ℕ
htons n = ntohs n

-- A signed number; `negsuc n` is -(n + 1).
pub data ℤ : Type 0 where
  pos : ℕ → ℤ
  negsuc : ℕ → ℤ

-- The value of an `int16_t` with the given bit pattern.
unfoldable pub int16 : ℕ → ℤ
int16 w = if ltb w (2 ^ 15) then pos w else negsuc (2 ^ 16 - w - 1)

-- The bit pattern of an `int16_t` value.
unfoldable pub bits16 : ℤ → ℕ
bits16 (pos n) = n % 2 ^ 16
bits16 (negsuc n) = 2 ^ 16 - n % 2 ^ 16 - 1

-- The number that bytes stand for, the least significant byte first.
abbrev pub le_word : List ℕ → ℕ
le_word [] = 0
le_word (b ∷ bs) = b % 256 + 256 * le_word bs

-- An array of bytes read as an array of 16-bit words.
abbrev pub words16 : List ℕ → List ℕ
words16 [] = []
words16 (b ∷ []) = []
words16 (b ∷ c ∷ bs) = (b % 256 + 256 * (c % 256)) ∷ words16 bs

-- An array of 16-bit words read as bytes.
abbrev pub bytes16 : List ℕ → List ℕ
bytes16 [] = []
bytes16 (w ∷ ws) = w % 256 ∷ (w / 256 % 256) ∷ bytes16 ws

pub length-words16 : (bs : List ℕ) → length (words16 bs) ≡ length bs / 2
length-words16 [] = refl
length-words16 (b ∷ []) = refl
length-words16 (b ∷ c ∷ bs) = omega (arith, length-words16 bs)

pub length-bytes16 : (ws : List ℕ) → length (bytes16 ws) ≡ 2 * length ws
length-bytes16 [] = refl
length-bytes16 (w ∷ ws) = omega (arith, length-bytes16 ws)

pub bytes16-append : (xs ys : List ℕ) → bytes16 (xs ++ ys) ≡ bytes16 xs ++ bytes16 ys
bytes16-append [] ys = refl
bytes16-append (x ∷ xs) ys = rw (bytes16-append xs ys) refl

-- Every element is a 16-bit pattern.
abbrev pub Are16 : List ℕ → Type 0
Are16 [] = Unit {0}
Are16 (w ∷ ws) = (w < 2 ^ 16) × Are16 ws

pub words16-bytes16 : (ws : List ℕ) → Are16 ws → words16 (bytes16 ws) ≡ ws
words16-bytes16 [] h = refl
words16-bytes16 (w ∷ ws) h = rw (words16-bytes16 ws h.1) (ap (λ (v : ℕ). v ∷ ws) (omega arith))

-- An array of bytes read as an array of 32-bit words.
abbrev pub words32 : List ℕ → List ℕ
words32 (a ∷ b ∷ c ∷ d ∷ bs) =
    (a % 256 + 256 * (b % 256) + 65536 * (c % 256) + 16777216 * (d % 256)) ∷ words32 bs
words32 _ = []
