-- ===== src/Metadata.antt =====
-- HrzrMetadataParser (include/iqClient/dpdkSource/hrzrMetadataParser.h and
-- src/dpdkSource/hrzrMetadataParser.cc).
pub mod Wire
mod Examples
use rs_jerry_driver.Common.{ℕ, bit_and, u8, u16, shr, if◌then◌else◌, ◌==◌}

pub data TimeSyncSourceType : Type 0 where
  no_time_sync gps gps_no_sync network network_no_sync unknown_time : TimeSyncSourceType

pub data ClockSyncSourceType : Type 0 where
  internal_clock external_clock unknown_clock : ClockSyncSourceType

-- The value of a `uint8_t` shifted within `int` fits the `uint8_t` that is returned.
unfoldable pub get_version : ℕ → ℕ
get_version word = shr (u8 word) 4

-- The `switch` of `getTimeSyncSource`.
unfoldable pub time_sync_source : ℕ → TimeSyncSourceType
time_sync_source raw =
    if raw == 0x0
    then no_time_sync
    else if raw == 0x9
    then gps
    else if raw == 0x8
    then gps_no_sync
    else if raw == 0x5
    then network
    else if raw == 0x4
    then network_no_sync
    else unknown_time

unfoldable pub get_time_sync_source : ℕ → TimeSyncSourceType
unfolding time_sync_source
get_time_sync_source word = time_sync_source (bit_and (u8 word) 0xD)

-- The `switch` of `getClockSyncSource`.
unfoldable pub clock_sync_source : ℕ → ClockSyncSourceType
clock_sync_source raw =
    if raw == 0x0 then internal_clock else if raw == 0x2 then external_clock else unknown_clock

unfoldable pub get_clock_sync_source : ℕ → ClockSyncSourceType
unfolding clock_sync_source
get_clock_sync_source word = clock_sync_source (u8 (shr (u16 word) 14))
