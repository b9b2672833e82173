-- ===== src/Gtest/MetadataTest.antt =====
-- gtest/dpdkSource/hrzrMetadataTest.cc.
use rs_jerry_driver.Common.{
  ℕ, ◌<◌, ◌≡◌, refl, ap, ◌∙◌, Bool, true, List, [], ◌∷◌, ◌++◌, Option, some, Result, ok, ◌>>=◌,
  ◌==◌, get_elem?, length, arith,
}
use rs_jerry_driver.Metadata.{
  TimeSyncSourceType, no_time_sync, gps, gps_no_sync, network, network_no_sync, unknown_time,
  ClockSyncSourceType, internal_clock, external_clock, unknown_clock, get_version,
  get_time_sync_source, get_clock_sync_source,
}
use rs_jerry_driver.Metadata.Wire.{time_table, clock_table, metadata_word, metadata_fields}
use rs_jerry_driver.Gtest.{Files, at, expect_each, Along, expect_each-Along}
use rs_jerry_driver.Gtest.Binary.{
  fill_input_from_file, word_bytes, AreWords, fill_input_from_file-word_bytes,
}

-- The enumerations' values, which `EXPECT_EQ` compares.
abbrev pub time_value : TimeSyncSourceType → ℕ
time_value no_time_sync = 0
time_value gps = 1
time_value gps_no_sync = 2
time_value network = 3
time_value network_no_sync = 4
time_value unknown_time = 5

abbrev pub clock_value : ClockSyncSourceType → ℕ
clock_value internal_clock = 0
clock_value external_clock = 1
clock_value unknown_clock = 2

abbrev pub time_types : List TimeSyncSourceType
time_types = no_time_sync ∷ gps ∷ gps_no_sync ∷ network ∷ network_no_sync ∷ unknown_time ∷ []

abbrev pub clock_types : List ClockSyncSourceType
clock_types = internal_clock ∷ external_clock ∷ unknown_clock ∷ []

-- `EXPECT_EQ` on what the parser reads.
unfoldable pub expect_time : TimeSyncSourceType → ℕ → Result Bool
expect_time type word = ok (time_value type == time_value (get_time_sync_source word))

unfoldable pub expect_clock : ClockSyncSourceType → ℕ → Result Bool
expect_clock type word = ok (clock_value type == clock_value (get_clock_sync_source word))

-- The three tests.
unfoldable pub parse_version : Files → Result Bool
parse_version files = do
  test_input ← fill_input_from_file (files "metadata_time_clock_types.bin")
  word ← at test_input 0
  ok (0 == get_version word)

unfoldable pub parse_time_sync_source : Files → Result Bool
parse_time_sync_source files = do
  test_input ← fill_input_from_file (files "metadata_time_clock_types.bin")
  expect_each expect_time 0 time_types test_input

unfoldable pub parse_clock_sync_source : Files → Result Bool
parse_clock_sync_source files = do
  test_input ← fill_input_from_file (files "metadata_time_clock_types.bin")
  expect_each expect_clock 0 clock_types test_input

-- A metadata word by the tables of README.md.
pub record IsMetadata (version : ℕ) (time : TimeSyncSourceType) (clock : ClockSyncSourceType)
    (word : ℕ) : Type 0 where
  pub is_gps : Bool
  pub is_network : Bool
  pub free : Bool
  pub synced : Bool
  pub external : Bool
  pub other : Bool
  pub rest : ℕ
  pub high : ℕ
  pub version_below : version < 16
  pub rest_below : rest < 64
  pub time_is : time_table is_gps is_network synced ≡ time
  pub clock_is : clock_table external other ≡ clock
  pub laid_out : word ≡ metadata_word version is_gps is_network free synced external other rest high

abbrev pub HasTime : ℕ → TimeSyncSourceType → ℕ → Type 0
HasTime i time word =
    (version : ℕ) × (clock : ClockSyncSourceType) × IsMetadata version time clock word

abbrev pub HasClock : ℕ → ClockSyncSourceType → ℕ → Type 0
HasClock i clock word =
    (version : ℕ) × (time : TimeSyncSourceType) × IsMetadata version time clock word

-- What gtest/dpdkSource/README.md says of the file: all types of both sources. The first word has
-- the version 0.
pub record HasMetadata (file : Option (List ℕ)) : Type 0 where
  pub first : ℕ
  pub others : List ℕ
  pub tail : List ℕ
  pub fit : AreWords (first ∷ others)
  pub short : length tail < 8
  pub content : file ≡ some (word_bytes (first ∷ others) ++ tail)
  pub times : Along HasTime 0 time_types (first ∷ others)
  pub clocks : Along HasClock 0 clock_types (first ∷ others)
  pub old : IsMetadata 0 no_time_sync internal_clock first

IsMetadata-fields :
    (version : ℕ) (time : TimeSyncSourceType) (clock : ClockSyncSourceType) (word : ℕ)
    → IsMetadata version time clock word
    → (get_version word ≡ version)
      × (get_time_sync_source word ≡ time)
      × (get_clock_sync_source word ≡ clock)
IsMetadata-fields version time clock word h =
    let (v, t, c) =
      metadata_fields version h.rest h.high h.is_gps h.is_network h.free h.synced h.external h.other
        h.version_below h.rest_below in
    (
      ap get_version h.laid_out ∙ v,
      ap get_time_sync_source h.laid_out ∙ (t ∙ h.time_is),
      ap get_clock_sync_source h.laid_out ∙ (c ∙ h.clock_is),
    )

HasTime-expect_time :
    (i : ℕ) (time : TimeSyncSourceType) (word : ℕ)
    → HasTime i time word
    → expect_time time word ≡ ok true
unfolding expect_time
HasTime-expect_time i time word h =
    let equal : (time_value time == time_value time) ≡ true = ground arith in
    rw ((IsMetadata-fields h.0 time h.1 word h.2).1, equal) refl

HasClock-expect_clock :
    (i : ℕ) (clock : ClockSyncSourceType) (word : ℕ)
    → HasClock i clock word
    → expect_clock clock word ≡ ok true
unfolding expect_clock
HasClock-expect_clock i clock word h =
    let equal : (clock_value clock == clock_value clock) ≡ true = ground arith in
    rw ((IsMetadata-fields h.0 h.1 clock word h.2).2, equal) refl

-- The file read, and a test on its words.
HasMetadata-read :
    (file : Option (List ℕ)) (test : List ℕ → Result Bool) (h : HasMetadata file)
    → test (h.first ∷ h.others) ≡ ok true
    → (fill_input_from_file file >>= test) ≡ ok true
HasMetadata-read file test h passes =
    ap (λ f. fill_input_from_file f >>= test) h.content
    ∙ (ap (λ r. r >>= test)
          (fill_input_from_file-word_bytes (h.first ∷ h.others) h.tail h.fit h.short)
        ∙ passes)

-- The tests of the metadata parser: where
-- its words are laid out by the tables of README.md, with all time sync sources and all clock sync
-- sources in the order of the enumerations and the version 0 in the first word, all expectations of
-- the three tests hold and none throws.
pub metadata_tests_pass :
    (files : Files)
    → HasMetadata (files "metadata_time_clock_types.bin")
    → (parse_version files ≡ ok true)
      × (parse_time_sync_source files ≡ ok true)
      × (parse_clock_sync_source files ≡ ok true)
unfolding parse_version parse_time_sync_source parse_clock_sync_source at
metadata_tests_pass files h =
    let zero_is : (0 == get_version h.first) ≡ true =
      ap (λ (n : ℕ). 0 == n) (IsMetadata-fields 0 no_time_sync internal_clock h.first h.old).0 in
    (
      HasMetadata-read _ _ h (ap (λ (b : Bool). ok b) zero_is),
      HasMetadata-read _ _ h (
          expect_each-Along expect_time HasTime HasTime-expect_time 0 time_types
            (h.first ∷ h.others) (h.first ∷ h.others)
            (λ k. ap (get_elem? (h.first ∷ h.others)) (omega arith)) h.times),
      HasMetadata-read _ _ h (
          expect_each-Along expect_clock HasClock HasClock-expect_clock 0 clock_types
            (h.first ∷ h.others) (h.first ∷ h.others)
            (λ k. ap (get_elem? (h.first ∷ h.others)) (omega arith)) h.clocks),
    )
