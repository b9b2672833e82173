-- ===== src/Gtest/ClientTest.antt =====
-- gtest/iqClient/iqClientTest.cc: the tests of the settings and of SendPayload. Equality of `double`
-- is a parameter. The messages that the setters return are dropped there.
pub mod Streaming
pub mod Channel
pub mod Taken
pub mod Json
pub mod Payload
mod Examples
use Prim.Native.String.{String}
use rs_jerry_driver.Common.{
  Option, ℕ, zero, suc, ℤ, pos, negsuc, Bool, true, false, ◌&&◌, Result, ok, err, Error,
  not_implemented, ◌==◌,
}
use rs_jerry_driver.Common.Run.{Run, ◌>>=◌, ◌>>◌, returns}
use rs_jerry_driver.Floats.{FloatOps}
use rs_jerry_driver.Messages.{DoubleOps, ErrorMessage, Protocols, ammos, hrzr}
use rs_jerry_driver.Grpc.{Msr4Channel, rx1, channel_port, Receiver}
use rs_jerry_driver.Iq.{
  IqClient, World, msr4_login, set_msr4_credentials, set_msr4_ip, set_rx_channel, set_port,
  set_destination_address, set_protocol, set_sat_frequency_hz, set_down_frequency_hz,
  set_bandwidth_by_analysis_bandwidth, get_port, get_destination_address, get_protocol,
  get_sat_frequency_hz, get_down_frequency_hz, get_analysis_bandwidth,
}
use rs_jerry_driver.Iq.Configure.{same_text, set_msr4_by_json}
use rs_jerry_driver.Json.{JsonOps}
use rs_jerry_driver.Iq.Sources.{get_rx_channel, set_port_id, get_port_id, set_norm, get_norm}

-- `==` on the types that the tests compare.
abbrev pub same_int : ℤ → ℤ → Bool
same_int (pos m) (pos n) = m == n
same_int (negsuc m) (negsuc n) = m == n
same_int (pos m) (negsuc n) = false
same_int (negsuc m) (pos n) = false

abbrev pub same_protocol : Protocols → Protocols → Bool
same_protocol ammos ammos = true
same_protocol hrzr hrzr = true
same_protocol _ _ = false

-- Whether a call threw NotImplementedException.
abbrev pub thrown {ℓ} : {A : Type ℓ} → Result A → Bool
thrown (err not_implemented) = true
thrown _ = false

-- The test CanSetDPDKSettings; equality of `float` is a parameter.
unfoldable pub can_set_dpdk_settings :
    (floats : FloatOps)
    → (floats.Float → floats.Float → Bool)
    → IqClient floats
    → Bool × IqClient floats
can_set_dpdk_settings floats same client =
    let ten = floats.of_int16 (pos 10) in
    let set = set_norm floats ten (set_port_id floats (pos 0) client) in
    (same_int (get_port_id floats set) (pos 0) && same (get_norm floats set) ten, set)

module _ (floats : FloatOps) (doubles : DoubleOps) (receiver : Receiver doubles) where
  open doubles use {Double, of_int}

  -- `ConnectToMSR4` of the fixture; the status is whether the login succeeded.
  unfoldable pub connect_to_msr4 : Run (World floats doubles receiver) Bool
  connect_to_msr4 = do
    set_msr4_ip floats doubles receiver "some.device.net"
    set_msr4_credentials floats doubles receiver "user" "password"
    msr4_login floats doubles receiver

  unfoldable pub ammos_exception : Run (World floats doubles receiver) Bool
  ammos_exception world =
      let result = set_protocol floats doubles receiver ammos world in
      (ok (thrown result.0), result.1)

  unfoldable pub can_log_into_msr4 : Run (World floats doubles receiver) Bool
  can_log_into_msr4 = connect_to_msr4

  unfoldable pub can_set_streaming_settings : Run (World floats doubles receiver) Bool
  can_set_streaming_settings = do
    connect_to_msr4
    set_rx_channel floats doubles receiver rx1
    set_port floats doubles receiver (pos 12)
    set_destination_address floats doubles receiver "192.168.30.1"
    set_protocol floats doubles receiver hrzr
    channel ← λ world. (ok (get_rx_channel floats world.client), world)
    port ← get_port floats doubles receiver
    address ← get_destination_address floats doubles receiver
    protocol ← get_protocol floats doubles receiver
    returns (
        channel_port channel == channel_port rx1
        && same_int port (pos 12)
        && same_text address "192.168.30.1"
        && same_protocol protocol hrzr)

  unfoldable pub can_set_channel_settings :
      (Double → Double → Bool) → Run (World floats doubles receiver) Bool
  can_set_channel_settings same = do
    connect_to_msr4
    set_rx_channel floats doubles receiver rx1
    set_sat_frequency_hz floats doubles receiver (of_int (pos 1600000000))
    set_down_frequency_hz floats doubles receiver (of_int (pos 1000000))
    set_bandwidth_by_analysis_bandwidth floats doubles receiver (of_int (pos 195000000))
    sat ← get_sat_frequency_hz floats doubles receiver
    down ← get_down_frequency_hz floats doubles receiver
    bandwidth ← get_analysis_bandwidth floats doubles receiver
    returns (
        same sat (of_int (pos 1600000000))
        && same down (of_int (pos 1000000))
        && same bandwidth (of_int (pos 195000000)))

  unfoldable pub can_set_msr4_by_json :
      (json : JsonOps)
      → (String → Option String)
      → (Double → Double → Bool)
      → Run (World floats doubles receiver) Bool
  can_set_msr4_by_json json files same = do
    set_msr4_by_json floats doubles receiver json files
        "full/path/to/rs-jerry-driver/configFiles/example.json"
    port ← get_port floats doubles receiver
    address ← get_destination_address floats doubles receiver
    protocol ← get_protocol floats doubles receiver
    sat ← get_sat_frequency_hz floats doubles receiver
    down ← get_down_frequency_hz floats doubles receiver
    bandwidth ← get_analysis_bandwidth floats doubles receiver
    returns (
        same_int port (pos 5001)
        && same_text address "127.0.0.1"
        && same_protocol protocol hrzr
        && same sat (of_int (pos 1500000000))
        && same down (of_int (pos 0))
        && same bandwidth (of_int (pos 194100000)))
