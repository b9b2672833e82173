-- ===== src/Json.antt =====
-- JsonParser (include/iqClient/common/jsonParser.h). The values of jsoncpp are a parameter, as is
-- the file system: the text of a file, if it can be opened. What is printed is left out.
use Prim.Native.String.{String}
use rs_jerry_driver.Common.{ℤ, negsuc, Bool, Option, none, some, Result, ok, ◌>>=◌, if◌then◌else◌}

-- The calls of `Json::Value`, where `as_string` and `as_int` may throw, and `parseFromStream`, which
-- leaves in the root what it has read.
pub record JsonOps : Type 1 where
  pub Value : Type 0
  pub null : Value
  pub is_member : Value → String → Bool
  pub get : Value → String → Value → Value
  pub as_string : Value → Result String
  pub as_int : Value → Result ℤ
  pub parse_from_stream : String → Value

pub record LoginStruct : Type 0 where
  pub ip : String
  pub user : String
  pub password : String

pub record RxChannelStruct : Type 0 where
  pub rx_channel : ℤ

pub record StreamingStruct : Type 0 where
  pub sat_frequency : ℤ
  pub down_frequency : ℤ
  pub bandwith_by_analysis_bandwidth : ℤ

pub record ChannelStruct : Type 0 where
  pub port : ℤ
  pub destination_address : String
  pub protocol : String

-- The members' default, -1.
abbrev pub unset : ℤ
unset = negsuc 0

module _ (json : JsonOps) where
  open json use {Value, null, is_member, get, as_string, as_int}

  -- A file that cannot be opened gives the null value.
  unfoldable pub get_root : (String → Option String) → String → Value
  get_root files path = elim (files path) [ none ↦ null | some text ↦ json.parse_from_stream text ]

  unfoldable pub get_login_struct : Value → Result LoginStruct
  get_login_struct root =
      if is_member root "LoginSettings"
      then (do
        let settings = get root "LoginSettings" null
        ip ← as_string (get settings "Ip" null)
        user ← as_string (get settings "User" null)
        password ← as_string (get settings "Password" null)
        ok (record { ip = ip; user = user; password = password }))
      else ok (record { ip = ""; user = ""; password = "" })

  unfoldable pub get_rx_channel_struct : Value → Result RxChannelStruct
  get_rx_channel_struct root =
      if is_member root "RxChannelSettings"
      then (do
        let settings = get root "RxChannelSettings" null
        rx_channel ← as_int (get settings "RxChannel" null)
        ok (record { rx_channel = rx_channel }))
      else ok (record { rx_channel = unset })

  unfoldable pub get_stream_struct : Value → Result StreamingStruct
  get_stream_struct root =
      if is_member root "StreamingSettings"
      then (do
        let settings = get root "StreamingSettings" null
        sat ← as_int (get settings "SatFrequency" null)
        down ← as_int (get settings "DownFrequency" null)
        bandwidth ← as_int (get settings "BandwidthByAnalysisBandwidth" null)
        ok (record {
          sat_frequency = sat;
          down_frequency = down;
          bandwith_by_analysis_bandwidth = bandwidth;
        }))
      else ok (record {
        sat_frequency = unset;
        down_frequency = unset;
        bandwith_by_analysis_bandwidth = unset;
      })

  unfoldable pub get_channel_struct : Value → Result ChannelStruct
  get_channel_struct root =
      if is_member root "ChannelSettings"
      then (do
        let settings = get root "ChannelSettings" null
        port ← as_int (get settings "Port" null)
        destination_address ← as_string (get settings "DestinationAddress" null)
        protocol ← as_string (get settings "Protocol" null)
        ok (record { port = port; destination_address = destination_address; protocol = protocol }))
      else ok (record { port = unset; destination_address = ""; protocol = "" })
