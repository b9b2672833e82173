-- ===== src/Iq/Examples.antt =====
-- IqClient against the receiver of Iq/Testing.
use Prim.Native.String.{String}
use rs_jerry_driver.Common.{
  ℤ, pos, ◌≡◌, refl, Bool, true, false, none, some, ok, err, not_implemented,
}
use rs_jerry_driver.Testing.{fractions, unit}
use rs_jerry_driver.Json.{
  StreamingStruct, ChannelStruct, JsonOps, get_root, get_login_struct, get_rx_channel_struct,
  get_stream_struct, get_channel_struct,
}
use rs_jerry_driver.Messages.{
  UdpSetting, hrzr, ammos, empty_udp_setting, empty_channel_setting, empty_error_message,
}
use rs_jerry_driver.Grpc
use rs_jerry_driver.Grpc.{Receiver, rx1, rx2, generate_stub, Endpoint, new_grpc_client}
use rs_jerry_driver.Iq.{
  World, IqClient, set_port, set_destination_address, set_protocol, set_streaming_status,
  set_sat_frequency_hz, set_down_frequency_hz, set_bandwidth_by_analysis_bandwidth,
  set_bandwidth_by_sample_rate, get_port, get_destination_address, get_protocol,
  get_streaming_status, get_sat_frequency_hz, get_down_frequency_hz, get_sample_rate,
  get_analysis_bandwidth, msr4_login, set_msr4_credentials, set_msr4_ip, set_rx_channel,
}
use rs_jerry_driver.Common.{
  ℕ, zero, suc, negsuc, List, [], ◌∷◌, ◌<◌, ◌*◌, length, replicate, length-replicate, bits16, arith,
}
use rs_jerry_driver.Floats.{Complex}
use rs_jerry_driver.Transmitter.{Transmitter, next_sequence_number}
use rs_jerry_driver.Transmitter.Datagram.{datagram_of}
use rs_jerry_driver.Iq.Payload.{
  HasSample, CanConvert, send_payload, convert_from, convert_sample, write_at, send_payload_lem,
}
use rs_jerry_driver.Iq.Configure.{
  apply_settings, set_msr4_by_json, log_in, select_rx_channel, channel_of,
}
use rs_jerry_driver.Iq.Store.{Writes, UdpBecomes, ChannelBecomes}
use rs_jerry_driver.Iq.Settings.{
  BandwidthBecomes, RateBecomes, udp_setters, channel_setters, getters,
}
use rs_jerry_driver.Iq.Applied.{IsApplied, apply_settings-IsApplied}
use rs_jerry_driver.Iq.Testing.{eth, integers, receiver, store}

abbrev client : IqClient fractions
client = record {
  msr4_channel = rx1;
  port_id = pos 0;
  dump_mode = false;
  norm = unit;
  grpc_client = record { creds = record { name = "u"; password = "p" }; ip = "h"; token = "t" };
}

abbrev running : UdpSetting
running = record empty_udp_setting { port = pos 9; base = some true }

abbrev start : World fractions integers receiver
start = record { client = client; state = (λ p. running, λ p. empty_channel_setting integers) }

udp_setters_example :
    ((port : ℤ)
      → Writes fractions integers receiver store start
          (UdpBecomes fractions integers receiver store (λ u. record u { port = port }) start)
          (set_port fractions integers receiver port start))
    × ((address : String)
        → Writes fractions integers receiver store start
            (UdpBecomes fractions integers receiver store
              (λ u. record u { destination_address = address })
              start)
            (set_destination_address fractions integers receiver address start))
    × ((status : Bool)
        → Writes fractions integers receiver store start
            (UdpBecomes fractions integers receiver store
              (λ u. record u { base = some status })
              start)
            (set_streaming_status fractions integers receiver status start))
    × Writes fractions integers receiver store start
        (UdpBecomes fractions integers receiver store (λ u. record u { protocol = hrzr }) start)
        (set_protocol fractions integers receiver hrzr start)
    × (set_protocol fractions integers receiver ammos start ≡ (err not_implemented, start))
udp_setters_example = udp_setters fractions integers receiver store start tt

channel_setters_example :
    Writes fractions integers receiver store start
      (ChannelBecomes fractions integers receiver store
        (λ c. record c { rf_setting = record c.rf_setting { sat_frequency_hz = pos 5 } })
        start)
      (set_sat_frequency_hz fractions integers receiver (pos 5) start)
    × Writes fractions integers receiver store start
        (ChannelBecomes fractions integers receiver store
          (λ c. record c { rf_setting = record c.rf_setting { down_frequency_hz = pos 5 } })
          start)
        (set_down_frequency_hz fractions integers receiver (pos 5) start)
    × Writes fractions integers receiver store start
        (BandwidthBecomes fractions integers receiver store (pos 5) start)
        (set_bandwidth_by_analysis_bandwidth fractions integers receiver (pos 5) start)
    × Writes fractions integers receiver store start
        (RateBecomes fractions integers receiver store (pos 5) start)
        (set_bandwidth_by_sample_rate fractions integers receiver (pos 5) start)
channel_setters_example = channel_setters fractions integers receiver store start tt (pos 5)

getters_example :
    (get_port fractions integers receiver start ≡ (ok (pos 9), start))
    × (get_destination_address fractions integers receiver start ≡ (ok "", start))
    × (get_protocol fractions integers receiver start ≡ (ok ammos, start))
    × (get_streaming_status fractions integers receiver start ≡ (ok true, start))
    × (get_sat_frequency_hz fractions integers receiver start ≡ (ok (pos 0), start))
    × (get_down_frequency_hz fractions integers receiver start ≡ (ok (pos 0), start))
    × (get_sample_rate fractions integers receiver start ≡ (ok (pos 0), start))
    × (get_analysis_bandwidth fractions integers receiver start ≡ (ok (pos 0), start))
getters_example = getters fractions integers receiver store start tt

-- A receiver whose read calls fail, and one whose write calls do.
abbrev unread : Receiver integers
unread = record receiver { get_udp_setting = λ e token s. (s, none) }

abbrev unwritten : Receiver integers
unwritten = record receiver { set_udp_setting = λ e token x s. (s, none) }

abbrev start_unread : World fractions integers unread
start_unread = record { client = client; state = start.state }

abbrev start_unwritten : World fractions integers unwritten
start_unwritten = record { client = client; state = start.state }

abbrev file_stream : StreamingStruct
file_stream = record {
  sat_frequency = pos 1500;
  down_frequency = pos 200;
  bandwith_by_analysis_bandwidth = pos 30;
}

-- A protocol that the client refuses.
abbrev file_channel : ChannelStruct
file_channel = record { port = pos 80; destination_address = "d"; protocol = "AMMOS" }

throws_in_the_end :
    (apply_settings fractions integers receiver file_stream file_channel start).0
    ≡ err not_implemented
unfolding apply_settings get_streaming_status set_streaming_status set_sat_frequency_hz
    set_down_frequency_hz set_bandwidth_by_analysis_bandwidth set_port set_destination_address
    Grpc.get_udp_setting Grpc.set_udp_setting Grpc.get_channel_settings Grpc.set_rf_setting
    Grpc.set_bandwidth_setting_by_analysis_bandwidth generate_stub
throws_in_the_end = refl

apply_settings-IsApplied_example :
    IsApplied fractions integers receiver store start file_stream file_channel
      (apply_settings fractions integers receiver file_stream file_channel start)
apply_settings-IsApplied_example =
    apply_settings-IsApplied fractions integers receiver store start file_stream file_channel tt
      (λ e. cc throws_in_the_end)

-- A file system without files, and jsoncpp where every value is null.
abbrev no_json : JsonOps
no_json = record {
  Value = Unit {0};
  null = tt;
  is_member = λ v s. false;
  get = λ v s d. d;
  as_string = λ v. ok "";
  as_int = λ v. ok (pos 0);
  parse_from_stream = λ s. tt;
}

abbrev logged_in : World fractions integers receiver
logged_in = record start {
  client = record client {
    grpc_client = record { creds = record { name = ""; password = "" }; ip = ""; token = "token" };
  };
}

-- Without a file the client logs in with empty credentials, and then refuses the channel -1.
no_file :
    set_msr4_by_json fractions integers receiver no_json (λ path. none) "x" start
    ≡ (err not_implemented, logged_in)
unfolding set_msr4_by_json get_root get_login_struct get_rx_channel_struct get_stream_struct
    get_channel_struct log_in select_rx_channel channel_of msr4_login set_msr4_credentials
    set_msr4_ip Grpc.msr4_login Grpc.set_credentials Grpc.set_ip
no_file = refl

second_channel :
    (select_rx_channel fractions integers receiver (pos 2) start
      ≡ (ok tt, record start { client = record client { msr4_channel = rx2 } }))
    × (select_rx_channel fractions integers receiver (pos 5) start ≡ (err not_implemented, start))
unfolding select_rx_channel channel_of set_rx_channel
second_channel = (refl, refl)

-- A new client of gRPC has no token.
levels :
    (Grpc.auto_level integers receiver new_grpc_client rx1 start.state
      ≡ (empty_error_message, start.state))
    × (new_grpc_client.token ≡ "")
unfolding Grpc.auto_level generate_stub new_grpc_client
levels = (refl, refl)

rate :
    (set_bandwidth_by_sample_rate fractions integers receiver (pos 7) start).0
    ≡ ok empty_error_message
unfolding set_bandwidth_by_sample_rate Grpc.set_bandwidth_setting_by_sample_rate generate_stub
rate = refl

abbrev sender : Transmitter
sender = record {
  local = record { family = 2; port = 0; addr = 0 };
  dest = record { family = 2; port = 0; addr = 0 };
  my_sock = 3;
  current_sequence_number = 7;
}

abbrev two_samples : List (Complex (fractions.Float))
two_samples =
    record { real = (pos 1, pos 1); imag = (pos 2, pos 1) }
    ∷ record { real = (pos 3, pos 1); imag = (negsuc 0, pos 1) }
    ∷ []

converted :
    convert_from fractions 2 0 two_samples (0 ∷ 0 ∷ 0 ∷ 0 ∷ []) ≡ ok (1 ∷ 2 ∷ 3 ∷ 65535 ∷ [])
unfolding convert_from convert_sample write_at bits16
converted = refl

two_convert : (k : ℕ) → k < 2 → CanConvert fractions two_samples k
two_convert zero h = record {
  c = _;
  re = pos 1;
  im = pos 2;
  found = refl;
  real_fits = refl;
  imag_fits = refl;
}
two_convert (suc zero) h = record {
  c = _;
  re = pos 3;
  im = negsuc 0;
  found = refl;
  real_fits = refl;
  imag_fits = refl;
}
two_convert (suc (suc k)) h = absurd (omega arith)

send_payload_lem_example :
    (out : List ℕ) × (length out ≡ 2 * 2)
    × ((k : ℕ) → k < 2 → HasSample fractions two_samples out k)
    × (send_payload fractions (replicate 732 0) two_samples 2 sender
        ≡ ok (record sender { current_sequence_number = 8 }, datagram_of 7 out))
unfolding next_sequence_number
send_payload_lem_example =
    send_payload_lem fractions (replicate 732 0) two_samples 2 sender
      (length-replicate {A = ℕ} 732 0) (omega arith) two_convert (omega arith)

-- The calls for the network and the stream's status, with one that is not answered.
status_calls :
    (Grpc.get_network_streaming_settings integers receiver client.grpc_client rx1 start.state
      ≡ (eth ∷ [], start.state))
    × (Grpc.set_network_streaming_setting integers receiver client.grpc_client rx1 eth start.state
        ≡ (empty_error_message, start.state))
    × (Grpc.get_udp_status integers receiver client.grpc_client rx2 start.state
        ≡ (record { datarate_gbits = pos 50056; status_base = none }, start.state))
    × (Grpc.is_udp_status_ready integers receiver client.grpc_client rx2 start.state
        ≡ (record { is_ready = true }, start.state))
unfolding Grpc.get_network_streaming_settings Grpc.set_network_streaming_setting Grpc.get_udp_status
    Grpc.is_udp_status_ready generate_stub
status_calls = (refl, refl, refl, refl)
