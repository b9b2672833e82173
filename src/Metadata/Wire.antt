-- ===== src/Metadata/Wire.antt =====
-- The metadata word against the tables of README.md ("Metadata", "Time Sync Source" and "Clock
-- Sync Sources"): version and time sync source fill the first byte, the clock sync source the two
-- top bits of the second.
use rs_jerry_driver.Common.{
  ℕ, ◌+◌, ◌*◌, ◌/◌, ◌%◌, ◌≤◌, ◌<◌, ◌≡◌, refl, ap, ◌∙◌, Bool, true, false, bit_and, u8, u16, shr,
  arith, ◌==◌, ==_iff,
}
use rs_jerry_driver.Common.Bits.{all_below_sound}
use rs_jerry_driver.Metadata.{
  TimeSyncSourceType, no_time_sync, gps, gps_no_sync, network, network_no_sync, unknown_time,
  ClockSyncSourceType, internal_clock, external_clock, unknown_clock, get_version, time_sync_source,
  clock_sync_source, get_time_sync_source, get_clock_sync_source,
}

-- The tables: a GPS bit, a network bit, a bit that is free, and the synchronised bit.
unfoldable pub time_table : Bool → Bool → Bool → TimeSyncSourceType
time_table false false false = no_time_sync
time_table false false true = unknown_time
time_table true false true = gps
time_table true false false = gps_no_sync
time_table false true true = network
time_table false true false = network_no_sync
time_table true true _ = unknown_time

unfoldable pub clock_table : Bool → Bool → ClockSyncSourceType
clock_table false false = internal_clock
clock_table true false = external_clock
clock_table _ true = unknown_clock

abbrev pub bit : Bool → ℕ
bit true = 1
bit false = 0

-- The metadata word as a little-endian host reads it; `rest` and `high` are what the table pads
-- with zeros, below the clock bits in the second byte and in the later bytes.
unfoldable pub metadata_word : ℕ → Bool → Bool → Bool → Bool → Bool → Bool → ℕ → ℕ → ℕ
metadata_word version is_gps is_network free synced external other rest high =
    version * 16
    + bit is_gps * 8
    + bit is_network * 4
    + bit free * 2
    + bit synced
    + 256 * (bit external * 128 + bit other * 64 + rest)
    + 65536 * high

source_mask : (b : ℕ) → b < 256 → bit_and b 0xD ≡ b / 4 % 4 * 4 + b % 2
source_mask b h =
    (==_iff _ _).0 (all_below_sound 256 (λ x. bit_and x 0xD == x / 4 % 4 * 4 + x % 2) b refl h)

bit-le : (b : Bool) → bit b ≤ 1
bit-le true = omega arith
bit-le false = omega arith

time_bits :
    (version rest high : ℕ) (is_gps is_network free synced external other : Bool)
    → bit_and
        (metadata_word version is_gps is_network free synced external other rest high % 256)
        0xD
      ≡ bit is_gps * 8 + bit is_network * 4 + bit synced
time_bits version rest high is_gps is_network free synced external other =
    source_mask _ (omega arith)
    ∙ unfold metadata_word in
      omega (arith, bit-le is_gps, bit-le is_network, bit-le free, bit-le synced)

time_table_lem :
    (is_gps is_network synced : Bool)
    → time_sync_source (bit is_gps * 8 + bit is_network * 4 + bit synced)
      ≡ time_table is_gps is_network synced
unfolding time_sync_source time_table
time_table_lem false false false = refl
time_table_lem false false true = refl
time_table_lem true false true = refl
time_table_lem true false false = refl
time_table_lem false true true = refl
time_table_lem false true false = refl
time_table_lem true true true = refl
time_table_lem true true false = refl

clock_table_lem :
    (external other : Bool)
    → clock_sync_source (bit external * 2 + bit other) ≡ clock_table external other
unfolding clock_sync_source clock_table
clock_table_lem false false = refl
clock_table_lem true false = refl
clock_table_lem false true = refl
clock_table_lem true true = refl

-- The three readers give back the version, the time sync source and the clock sync source of a
-- metadata word laid out by the tables, whatever the free bit and the padding
-- hold; the version is below 16 and the padding of the second byte below 64.
pub metadata_fields :
    (version rest high : ℕ) (is_gps is_network free synced external other : Bool)
    → version < 16
    → rest < 64
    → let word = metadata_word version is_gps is_network free synced external other rest high in
      (get_version word ≡ version)
      × (get_time_sync_source word ≡ time_table is_gps is_network synced)
      × (get_clock_sync_source word ≡ clock_table external other)
unfolding get_version get_time_sync_source get_clock_sync_source
metadata_fields version rest high is_gps is_network free synced external other hv hr = (
  unfold metadata_word in omega (arith, small),
  ap time_sync_source (time_bits version rest high is_gps is_network free synced external other)
      ∙ time_table_lem is_gps is_network synced,
  ap clock_sync_source clock_bits ∙ clock_table_lem external other,
)
  where
    small :
        (bit is_gps ≤ 1)
        × (bit is_network ≤ 1)
        × (bit free ≤ 1)
        × (bit synced ≤ 1)
        × (bit external ≤ 1)
        × (bit other ≤ 1)
    small = (
      bit-le is_gps,
      bit-le is_network,
      bit-le free,
      bit-le synced,
      bit-le external,
      bit-le other,
    )

    word : ℕ
    word = metadata_word version is_gps is_network free synced external other rest high

    clock_bits : u8 (shr (u16 word) 14) ≡ bit external * 2 + bit other
    clock_bits = unfold metadata_word in omega (arith, small)
