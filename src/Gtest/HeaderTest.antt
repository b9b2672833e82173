-- ===== src/Gtest/HeaderTest.antt =====
-- gtest/dpdkSource/hrzrHeaderParserTest.cc.
use rs_jerry_driver.Common.{
  ℕ, suc, ◌+◌, ◌-◌, ◌*◌, ◌≤◌, ◌<◌, ◌^◌, ◌≡◌, refl, ap, ◌∙◌, Bool, true, ◌&&◌, List, [], ◌∷◌, ◌++◌,
  Option, some, Result, ok, ◌>>=◌, ◌==◌, get_elem?, length, u64, arith,
}
use rs_jerry_driver.Header.{
  PacketType, data_packet, data_end_of_burst, flow_control, command, command_response,
  command_response_error, metadata, get_control_from_header, get_sequence_number_from_header,
}
use rs_jerry_driver.Header.Wire.{
  wire_word, control_code, control_code_below, get_control-wire_word, get_sequence_number-wire_word,
}
use rs_jerry_driver.Gtest.{Files, expect_each, Along, expect_each-Along}
use rs_jerry_driver.Gtest.Binary.{
  fill_input_from_file, word_bytes, AreWords, fill_input_from_file-word_bytes,
}

-- The enumeration's values, which `EXPECT_EQ` compares.
abbrev pub value : PacketType → ℕ
value data_packet = 0
value data_end_of_burst = 1
value flow_control = 2
value command = 3
value command_response = 4
value command_response_error = 5
value metadata = 6

abbrev pub packet_types : List PacketType
packet_types =
    data_packet ∷ data_end_of_burst ∷ flow_control ∷ command ∷ command_response
    ∷ command_response_error ∷ metadata ∷ []

-- `EXPECT_EQ(type, headerParser.getControlFromHeader(word))`
unfoldable pub expect_type : PacketType → ℕ → Result Bool
expect_type type word = do control ← get_control_from_header word; ok (value type == value control)

-- The loops over the input, from an index on.
unfoldable pub expect_numbers : (ℕ → ℕ) → ℕ → List ℕ → Bool
expect_numbers expected i [] = true
expect_numbers expected i (word ∷ words) =
    expected i == get_sequence_number_from_header word && expect_numbers expected (suc i) words

-- The four tests.
unfoldable pub parse_packet_flags : Files → Result Bool
parse_packet_flags files = do
  test_input ← fill_input_from_file (files "controltypes.bin")
  expect_each expect_type 0 packet_types test_input

unfoldable pub parse_packet_flags_with_fractional_timestamp : Files → Result Bool
parse_packet_flags_with_fractional_timestamp files = do
  test_input ← fill_input_from_file (files "controltypesWithTimestamp.bin")
  expect_each expect_type 0 packet_types test_input

unfoldable pub parse_sequence_number : Files → Result Bool
parse_sequence_number files = do
  test_input ← fill_input_from_file (files "controltypes.bin")
  ok (length packet_types == length test_input && expect_numbers (λ i. i) 0 test_input)

unfoldable pub parse_reverse_sequence_number : Files → Result Bool
parse_reverse_sequence_number files = do
  test_input ← fill_input_from_file (files "controltypesReverseSequenceNumber.bin")
  ok (
      length packet_types == length test_input
      && expect_numbers (λ i. u64 (4095 + 2 ^ 64 - i)) 0 test_input)

-- A header of a type, with a sequence number; the timestamp bit and the later bytes are free.
pub record IsHeader (type : PacketType) (seq word : ℕ) : Type 0 where
  pub timestamp : ℕ
  pub rest : ℕ
  pub is_bit : timestamp < 2
  pub in_range : seq < 4096
  pub laid_out : word ≡ wire_word (control_code type + timestamp * 2) seq rest

-- Headers of all types, numbered.
abbrev pub IsHeaderAt : (ℕ → ℕ) → ℕ → PacketType → ℕ → Type 0
IsHeaderAt number i type word = IsHeader type (number i) word

-- What gtest/dpdkSource/README.md says of a file: all types of packets, in their order.
pub record HasHeaders (file : Option (List ℕ)) (number : ℕ → ℕ) : Type 0 where
  pub words : List ℕ
  pub tail : List ℕ
  pub fit : AreWords words
  pub short : length tail < 8
  pub content : file ≡ some (word_bytes words ++ tail)
  pub many : length words ≡ length packet_types
  pub headers : Along (IsHeaderAt number) 0 packet_types words

IsHeader-control :
    (type : PacketType) (seq word : ℕ)
    → IsHeader type seq word
    → get_control_from_header word ≡ ok type
IsHeader-control type seq word h =
    ap get_control_from_header h.laid_out
    ∙ get_control-wire_word type h.timestamp seq h.rest h.is_bit h.in_range

IsHeader-sequence :
    (type : PacketType) (seq word : ℕ)
    → IsHeader type seq word
    → get_sequence_number_from_header word ≡ seq
IsHeader-sequence type seq word h =
    ap get_sequence_number_from_header h.laid_out
    ∙ get_sequence_number-wire_word (control_code type + h.timestamp * 2) seq h.rest
        (omega (arith, control_code_below type, h.is_bit)) h.in_range

expect_numbers-Along :
    (number expected : ℕ → ℕ) (i : ℕ) (types : List PacketType) (words : List ℕ)
    → ((k : ℕ) → k < 4096 → expected k ≡ number k)
    → i + length types ≤ 4096
    → length words ≡ length types
    → Along (IsHeaderAt number) i types words
    → expect_numbers expected i words ≡ true
unfolding expect_numbers
expect_numbers-Along number expected i [] [] same below many laid = refl
expect_numbers-Along number expected i (type ∷ types) (word ∷ words) same below many laid =
    let rest =
      expect_numbers-Along number expected (suc i) types words same (omega (arith, below))
        (omega (arith, many)) laid.1 in
    let read = IsHeader-sequence type (number i) word laid.0 in
    let number_is = same i (omega (arith, below)) in
    let equal : (expected i == get_sequence_number_from_header word) ≡ true = ground arith in
    rw equal rest
expect_numbers-Along number expected i [] (word ∷ words) same below many laid =
    absurd (omega (arith, many))
expect_numbers-Along number expected i (type ∷ types) [] same below many laid = absurd laid

IsHeader-expect_type :
    (type : PacketType) (seq word : ℕ) → IsHeader type seq word → expect_type type word ≡ ok true
unfolding expect_type
IsHeader-expect_type type seq word h =
    let equal : (value type == value type) ≡ true = ground arith in
    rw (IsHeader-control type seq word h, equal) refl

HasHeaders-types :
    (file : Option (List ℕ)) (number : ℕ → ℕ)
    → HasHeaders file number
    → (fill_input_from_file file >>= λ input. expect_each expect_type 0 packet_types input)
      ≡ ok true
HasHeaders-types file number h =
    ap (λ f. fill_input_from_file f >>= λ input. expect_each expect_type 0 packet_types input)
      h.content
    ∙ (ap (λ r. r >>= λ input. expect_each expect_type 0 packet_types input)
          (fill_input_from_file-word_bytes h.words h.tail h.fit h.short)
        ∙ expect_each-Along expect_type (IsHeaderAt number)
            (λ i type word. IsHeader-expect_type type (number i) word) 0 packet_types h.words
            h.words (λ k. ap (get_elem? h.words) (omega arith)) h.headers)

HasHeaders-numbers :
    (file : Option (List ℕ)) (number expected : ℕ → ℕ)
    → HasHeaders file number
    → ((k : ℕ) → k < 4096 → expected k ≡ number k)
    → (fill_input_from_file file >>= λ input.
        ok (length packet_types == length input && expect_numbers expected 0 input))
      ≡ ok true
HasHeaders-numbers file number expected h same =
    let numbered =
      expect_numbers-Along number expected 0 packet_types h.words same (omega arith) h.many
        h.headers in
    let equal : (length packet_types == length h.words) ≡ true = ground (arith, h.many) in
    ap (λ f. fill_input_from_file f >>= passes) h.content
    ∙ (ap (λ r. r >>= passes) (fill_input_from_file-word_bytes h.words h.tail h.fit h.short)
        ∙ rw (equal, numbered) refl)
  where
    passes : List ℕ → Result Bool
    passes input = ok (length packet_types == length input && expect_numbers expected 0 input)

-- The tests of the header parser: where the
-- three files hold headers of all types in the order of the enumeration, those of the first numbered
-- upwards from 0 and those of the third downwards from 4095, all expectations of the four tests hold
-- and none throws, whatever the timestamp bits, the later bytes of the headers and the numbers of
-- the second file are.
pub header_tests_pass :
    (files : Files) (number : ℕ → ℕ)
    → HasHeaders (files "controltypes.bin") (λ i. i)
    → HasHeaders (files "controltypesWithTimestamp.bin") number
    → HasHeaders (files "controltypesReverseSequenceNumber.bin") (λ i. 4095 - i)
    → (parse_packet_flags files ≡ ok true)
      × (parse_packet_flags_with_fractional_timestamp files ≡ ok true)
      × (parse_sequence_number files ≡ ok true)
      × (parse_reverse_sequence_number files ≡ ok true)
unfolding parse_packet_flags parse_packet_flags_with_fractional_timestamp parse_sequence_number
    parse_reverse_sequence_number
header_tests_pass files number up stamped down = (
  HasHeaders-types _ (λ i. i) up,
  HasHeaders-types _ number stamped,
  HasHeaders-numbers _ (λ i. i) (λ i. i) up (λ k h. refl),
  HasHeaders-numbers _ (λ i. 4095 - i) (λ i. u64 (4095 + 2 ^ 64 - i)) down (λ k h. omega arith),
)
