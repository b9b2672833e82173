-- ===== src/Common/Text.antt =====
-- Numbers as text: what `std::to_string` and the manipulator `std::hex` write.
use Prim.Native.Nat.{ℕ, zero, suc, ◌+◌, ◌/◌, ◌%◌}
use Prim.Native.String.{String, ◌++◌}
use rs_jerry_driver.Common.Tests.{◌==◌, ltb, if◌then◌else◌}
use rs_jerry_driver.Common.Word.{ℤ, pos, negsuc}

abbrev pub decimal_digit : ℕ → String
decimal_digit n =
    if n == 0
    then "0"
    else if n == 1
    then "1"
    else if n == 2
    then "2"
    else if n == 3
    then "3"
    else if n == 4
    then "4"
    else if n == 5
    then "5"
    else if n == 6
    then "6"
    else if n == 7
    then "7"
    else if n == 8
    then "8"
    else "9"

-- The decimal digits of a number below 10 ^ fuel, in front of a text.
unfoldable pub decimal : ℕ → ℕ → String → String
decimal zero n text = text
decimal (suc fuel) n text =
    let shorter = decimal fuel (n / 10) (decimal_digit (n % 10) ++ text) in
    if ltb n 10 then decimal_digit n ++ text else shorter

-- `std::to_string` of an `int`, which has at most ten digits.
unfoldable pub to_string : ℤ → String
unfolding decimal
to_string (pos n) = decimal 10 n ""
to_string (negsuc n) = "-" ++ decimal 10 (n + 1) ""

-- `a + b` on `std::string`
abbrev pub join : String → String → String
join a b = a ++ b
