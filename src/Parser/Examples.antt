-- ===== src/Parser/Examples.antt =====
-- The sample parser on concrete packets.
use rs_jerry_driver.Common.{
  ℕ, ◌≡◌, refl, pos, List, err, invalid_value, replicate, length-replicate, arith,
}
use rs_jerry_driver.Floats.{Complex}
use rs_jerry_driver.Testing.{fractions, unit}
use rs_jerry_driver.Parser.{HrzrParser, new_hrzr_parser, parse_payload_samples}
use rs_jerry_driver.Parser.Loop.{IsParsed, parse_payload_samples-IsParsed}

abbrev parser : HrzrParser fractions
parser = record { norm = (pos 10, pos 1) }

zero_norm : new_hrzr_parser fractions (pos 0, pos 1) ≡ err invalid_value
unfolding new_hrzr_parser
zero_norm = refl

abbrev payload : List ℕ
payload = replicate 732 7

abbrev blank : Complex (fractions.Float)
blank = record { real = unit; imag = unit }

parse_payload_samples-IsParsed_example :
    IsParsed fractions parser 1 payload 0 366 366
      (replicate 732 blank)
      (parse_payload_samples fractions parser 1 payload (replicate 732 blank))
parse_payload_samples-IsParsed_example =
    parse_payload_samples-IsParsed fractions parser 1 payload (replicate 732 blank)
      (omega (arith, length-replicate {A = ℕ} 732 7)) (omega (arith, length-replicate 732 blank))
      (omega arith)
