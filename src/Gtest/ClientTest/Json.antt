-- ===== src/Gtest/ClientTest/Json.antt =====
-- SetMSR4ByJson and its test, for a receiver that is a store of settings and takes all of them while
-- it does not stream.
use Prim.Native.String.{String}
use rs_jerry_driver.Common.{
  ℕ, ℤ, pos, ◌≡◌, refl, ap, ◌∙◌, Bool, true, false, Option, none, some, Result, ok, invalid_value,
  not_implemented, if◌then◌else◌,
}
use rs_jerry_driver.Common.Run.{Run, returns, throws}
use rs_jerry_driver.Floats.{FloatOps}
use rs_jerry_driver.Json.{
  JsonOps, LoginStruct, StreamingStruct, get_root, get_login_struct, get_rx_channel_struct,
  get_stream_struct, get_channel_struct,
}
use rs_jerry_driver.Messages.{DoubleOps}
use rs_jerry_driver.Grpc
use rs_jerry_driver.Grpc.{Receiver, Msr4Channel, GrpcClient, set_ip, set_credentials}
use rs_jerry_driver.Iq.{World, msr4_login, set_msr4_credentials, set_msr4_ip, set_rx_channel}
use rs_jerry_driver.Iq.Configure.{log_in, select_rx_channel, set_msr4_by_json, channel_of}
use rs_jerry_driver.Iq.Store.{Store, Served}
use rs_jerry_driver.Iq.Settings.{getters}
use rs_jerry_driver.Gtest.ClientTest.{
  can_log_into_msr4, can_set_streaming_settings, can_set_channel_settings, can_set_msr4_by_json,
}
use rs_jerry_driver.Gtest.ClientTest.Streaming.{Accepts, CanConnect}
use rs_jerry_driver.Gtest.ClientTest.Channel.{settings_tests_pass}
use rs_jerry_driver.Gtest.ClientTest.Taken.{apply_settings-HasAll}

abbrev pub example : String
example = "full/path/to/rs-jerry-driver/configFiles/example.json"

module _ (json : JsonOps) (text : String) where
  -- What jsoncpp gives for a parsed text: whether it has a group, and the values in it.
  abbrev pub HasGroup : String → Type 0
  HasGroup group = json.is_member (json.parse_from_stream text) group ≡ true

  abbrev pub value_in : String → String → json.Value
  value_in group key =
      json.get (json.get (json.parse_from_stream text) group json.null) key json.null

  abbrev pub text_in : String → String → Result String
  text_in group key = json.as_string (value_in group key)

  abbrev pub number_in : String → String → Result ℤ
  number_in group key = json.as_int (value_in group key)

module _ (floats : FloatOps) (doubles : DoubleOps) (receiver : Receiver doubles)
    (store : Store doubles receiver) where
  open receiver use {State}
  open doubles use {Double, of_int}

  -- The client behind the login of the file, on its channel.
  abbrev pub client_of :
      World floats doubles receiver
      → LoginStruct
      → Msr4Channel
      → String
      → State
      → World floats doubles receiver
  client_of w login rx token s = record {
    client = record w.client {
      msr4_channel = rx;
      grpc_client = record {
        creds = record { name = login.user; password = login.password };
        ip = login.ip;
        token = token;
      };
    };
    state = s;
  }

  log_in_lem :
      (login : LoginStruct) (w : World floats doubles receiver) (token : String) (s : State)
      → receiver.login
          (record { host = login.ip; port = 50060 })
          (record { name = login.user; password = login.password })
          w.state
        ≡ (s, some token)
      → log_in floats doubles receiver login w
        ≡ (ok tt, client_of w login w.client.msr4_channel token s)
  unfolding log_in set_msr4_ip set_msr4_credentials msr4_login Grpc.msr4_login set_ip
      set_credentials
  log_in_lem login w token s answered =
      ap
        (λ (answer : State × Option String).
          let r : (Bool × GrpcClient) × State = elim answer.1 [
            | none ↦ ((false, named), answer.0)
            | some token ↦ ((true, record named { token = token }), answer.0)
          ] in
          (if r.0.0 then returns tt else throws invalid_value)
            (record { client = record w.client { grpc_client = r.0.1 }; state = r.1 }))
        answered
    where
      named : GrpcClient
      named = record w.client.grpc_client {
        creds = record { name = login.user; password = login.password };
        ip = login.ip;
      }

  -- The file of the test can be opened, jsoncpp gives the groups and values of
  -- configFiles/example.json in what it parsed (the login and the channel may be others), and the
  -- receiver lets the client of the file log in and serves it on the channel of the file.
  pub record IsExample (json : JsonOps) (files : String → Option String)
      (w : World floats doubles receiver) : Type 0 where
    pub text : String
    pub opened : files example ≡ some text
    pub login : LoginStruct
    pub rx_channel : ℤ
    pub rx : Msr4Channel
    pub token : String
    pub state : State
    pub has_login : HasGroup json text "LoginSettings"
    pub ip : text_in json text "LoginSettings" "Ip" ≡ ok login.ip
    pub user : text_in json text "LoginSettings" "User" ≡ ok login.user
    pub password : text_in json text "LoginSettings" "Password" ≡ ok login.password
    pub has_rx_channel : HasGroup json text "RxChannelSettings"
    pub rx_channel_is : number_in json text "RxChannelSettings" "RxChannel" ≡ ok rx_channel
    pub has_stream : HasGroup json text "StreamingSettings"
    pub sat : number_in json text "StreamingSettings" "SatFrequency" ≡ ok (pos 1500000000)
    pub down : number_in json text "StreamingSettings" "DownFrequency" ≡ ok (pos 0)
    pub bandwidth :
        number_in json text "StreamingSettings" "BandwidthByAnalysisBandwidth" ≡ ok (pos 194100000)
    pub has_channel : HasGroup json text "ChannelSettings"
    pub port : number_in json text "ChannelSettings" "Port" ≡ ok (pos 5001)
    pub address : text_in json text "ChannelSettings" "DestinationAddress" ≡ ok "127.0.0.1"
    pub protocol : text_in json text "ChannelSettings" "Protocol" ≡ ok "HRZR"
    pub known : channel_of rx_channel ≡ some rx
    pub answered :
        receiver.login
          (record { host = login.ip; port = 50060 })
          (record { name = login.user; password = login.password })
          w.state
        ≡ (state, some token)
    pub served : Served floats doubles receiver store (client_of w login rx token state)

  opened_root :
      (json : JsonOps) (files : String → Option String) (text : String)
      → files example ≡ some text
      → get_root json files example ≡ json.parse_from_stream text
  unfolding get_root
  opened_root json files text opened =
      ap
        (λ (file : Option String). elim file as (λ f. json.Value) [
          | none ↦ json.null
          | some t ↦ json.parse_from_stream t
        ])
        opened

  -- The four functions of JsonParser read these values.
  reads_file :
      (json : JsonOps) (files : String → Option String) (w : World floats doubles receiver)
      (e : IsExample json files w)
      → let root = get_root json files example in
        (get_login_struct json root ≡ ok e.login)
        × (get_rx_channel_struct json root ≡ ok (record { rx_channel = e.rx_channel }))
        × (get_stream_struct json root
            ≡ ok (record {
              sat_frequency = pos 1500000000;
              down_frequency = pos 0;
              bandwith_by_analysis_bandwidth = pos 194100000;
            }))
        × (get_channel_struct json root
            ≡ ok (record { port = pos 5001; destination_address = "127.0.0.1"; protocol = "HRZR" }))
  unfolding get_login_struct get_rx_channel_struct get_stream_struct get_channel_struct
  reads_file json files w e =
      let root = opened_root json files e.text e.opened in
      (
        ap (get_login_struct json) root
            ∙ rw (get_login_struct, e.has_login, e.ip, e.user, e.password) refl,
        ap (get_rx_channel_struct json) root
            ∙ rw (get_rx_channel_struct, e.has_rx_channel, e.rx_channel_is) refl,
        ap (get_stream_struct json) root
            ∙ rw (get_stream_struct, e.has_stream, e.sat, e.down, e.bandwidth) refl,
        ap (get_channel_struct json) root
            ∙ rw (get_channel_struct, e.has_channel, e.port, e.address, e.protocol) refl,
      )

  select_rx_channel_lem :
      (number : ℤ) (rx : Msr4Channel) (w : World floats doubles receiver)
      → channel_of number ≡ some rx
      → select_rx_channel floats doubles receiver number w
        ≡ (ok tt, record w { client = record w.client { msr4_channel = rx } })
  unfolding select_rx_channel set_rx_channel
  select_rx_channel_lem number rx w known =
      ap
        (λ (answer : Option Msr4Channel).
          let chosen : Run (World floats doubles receiver) (Unit {0}) = elim answer [
            | none ↦ throws not_implemented
            | some rx ↦ set_rx_channel floats doubles receiver rx
          ] in
          chosen w)
        known

  -- The test CanSetMSR4ByJson.
  can_set_msr4_by_json_passes :
      (json : JsonOps) (files : String → Option String) (same : Double → Double → Bool)
      (w : World floats doubles receiver)
      → ((n : ℕ) → same (of_int (pos n)) (of_int (pos n)) ≡ true)
      → Accepts floats doubles receiver store
      → IsExample json files w
      → (can_set_msr4_by_json floats doubles receiver json files same w).0 ≡ ok true
  unfolding can_set_msr4_by_json set_msr4_by_json
  can_set_msr4_by_json_passes json files same w equal accepts e =
      let w0 = client_of w e.login e.rx e.token e.state in
      let stream : StreamingStruct = record {
        sat_frequency = pos 1500000000;
        down_frequency = pos 0;
        bandwith_by_analysis_bandwidth = pos 194100000;
      } in
      let (s, applied, has) =
        apply_settings-HasAll floats doubles receiver store stream (pos 5001) "127.0.0.1" w0 accepts
          e.served in
      let reads = reads_file json files w e in
      let read = getters floats doubles receiver store (record w0 { state = s }) e.served in
      rw
        (
          reads.0,
          reads.1,
          reads.2,
          reads.3,
          log_in_lem e.login w e.token e.state e.answered,
          select_rx_channel_lem e.rx_channel e.rx
              (client_of w e.login w.client.msr4_channel e.token e.state) e.known,
          applied,
          read.0,
          read.1,
          read.2,
          read.4,
          read.5,
          read.7,
          has.port,
          has.address,
          has.protocol,
          has.sat,
          has.down,
          has.bandwidth,
          equal 1500000000,
          equal 0,
          equal 194100000,
        )
        refl

  -- The tests CanLogIntoMSR4, CanSetStreamingSettings, CanSetChannelSettings and CanSetMSR4ByJson
  -- pass. The receiver is a store of settings that lets the clients log in and serves them; it takes
  -- every setting while the client's stream is stopped, but while it is streaming only the write
  -- that stops it; a `double` that is made of a whole number is equal to itself. For the second and
  -- the third test the stream is stopped after the login; for the last test jsoncpp gives the
  -- groups and values of configFiles/example.json, and the stream may be running. Then nothing is
  -- thrown and every getter gives what was written or what the file holds: the channel, the port,
  -- the address and the protocol, both frequencies and the bandwidth.
  pub client_tests_pass :
      (json : JsonOps) (files : String → Option String) (same : Double → Double → Bool)
      (w : World floats doubles receiver)
      → ((n : ℕ) → same (of_int (pos n)) (of_int (pos n)) ≡ true)
      → Accepts floats doubles receiver store
      → CanConnect floats doubles receiver store w
      → IsExample json files w
      → ((can_log_into_msr4 floats doubles receiver w).0 ≡ ok true)
        × ((can_set_streaming_settings floats doubles receiver w).0 ≡ ok true)
        × ((can_set_channel_settings floats doubles receiver same w).0 ≡ ok true)
        × ((can_set_msr4_by_json floats doubles receiver json files same w).0 ≡ ok true)
  client_tests_pass json files same w equal accepts connected e =
      let settings =
        settings_tests_pass floats doubles receiver store same w equal accepts connected in
      (
        settings.0,
        settings.1,
        settings.2,
        can_set_msr4_by_json_passes json files same w equal accepts e,
      )
