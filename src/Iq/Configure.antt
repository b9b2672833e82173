-- ===== src/Iq/Configure.antt =====
-- IqClient::SetMSR4ByJson, in its parts: the login, the choice of the channel, and the settings.
use Prim.Native.String.{String, compare}
use Prim.Native.Nat.{Ordering}
use rs_jerry_driver.Common.{
  ℤ, pos, negsuc, Bool, true, false, Option, none, some, invalid_value, not_implemented,
  if◌then◌else◌, ◌==◌,
}
use rs_jerry_driver.Floats.{FloatOps}
use rs_jerry_driver.Json.{
  JsonOps, StreamingStruct, ChannelStruct, LoginStruct, get_root, get_login_struct,
  get_rx_channel_struct, get_stream_struct, get_channel_struct,
}
use rs_jerry_driver.Messages.{DoubleOps, hrzr}
use rs_jerry_driver.Grpc.{Msr4Channel, rx1, rx2, rx3, rx4, Receiver}
use rs_jerry_driver.Common.Run.{Run, ◌>>=◌, ◌>>◌, returns, throws, lift}
use rs_jerry_driver.Iq.{
  require, World, msr4_login, set_msr4_credentials, set_msr4_ip, set_rx_channel, set_port,
  set_destination_address, set_protocol, set_streaming_status, set_sat_frequency_hz,
  set_down_frequency_hz, set_bandwidth_by_analysis_bandwidth, get_streaming_status,
}

-- The `switch` on the number of the channel.
unfoldable pub channel_of : ℤ → Option Msr4Channel
channel_of (pos n) =
    if n == 1
    then some rx1
    else if n == 2
    then some rx2
    else if n == 3
    then some rx3
    else if n == 4
    then some rx4
    else none
channel_of (negsuc n) = none

-- `==` on `std::string`
abbrev pub same_text : String → String → Bool
same_text a b = elim (compare a b) [ Ordering.eq ↦ true | _ ↦ false ]

module _ (floats : FloatOps) (doubles : DoubleOps) (receiver : Receiver doubles) where
  open doubles use {of_int}

  unfoldable pub log_in : LoginStruct → Run (World floats doubles receiver) (Unit {0})
  log_in login = do
    set_msr4_credentials floats doubles receiver login.user login.password
    set_msr4_ip floats doubles receiver login.ip
    logged_in ← msr4_login floats doubles receiver
    if logged_in then returns tt else throws invalid_value

  unfoldable pub select_rx_channel : ℤ → Run (World floats doubles receiver) (Unit {0})
  select_rx_channel number = elim (channel_of number) [
    | none ↦ throws not_implemented
    | some rx ↦ set_rx_channel floats doubles receiver rx
  ]

  -- The messages of SetStreamingStatus and SetProtocol are not tested.
  unfoldable pub apply_settings :
      StreamingStruct → ChannelStruct → Run (World floats doubles receiver) (Unit {0})
  apply_settings stream channel = do
    streaming ← get_streaming_status floats doubles receiver
    if streaming
        then (do set_streaming_status floats doubles receiver false; returns tt)
        else returns tt
    sat ← set_sat_frequency_hz floats doubles receiver (of_int stream.sat_frequency)
    require sat
    down ← set_down_frequency_hz floats doubles receiver (of_int stream.down_frequency)
    require down
    bandwidth ←
        set_bandwidth_by_analysis_bandwidth floats doubles receiver
          (of_int stream.bandwith_by_analysis_bandwidth)
    require bandwidth
    port ← set_port floats doubles receiver channel.port
    require port
    address ← set_destination_address floats doubles receiver channel.destination_address
    require address
    if same_text channel.protocol "HRZR"
        then (do set_protocol floats doubles receiver hrzr; returns tt)
        else throws not_implemented

  unfoldable pub set_msr4_by_json :
      (json : JsonOps)
      → (String → Option String)
      → String
      → Run (World floats doubles receiver) (Unit {0})
  set_msr4_by_json json files path = do
    let root = get_root json files path
    login ← lift (get_login_struct json root)
    rx_channel ← lift (get_rx_channel_struct json root)
    stream ← lift (get_stream_struct json root)
    channel ← lift (get_channel_struct json root)
    log_in login
    select_rx_channel rx_channel.rx_channel
    apply_settings stream channel
