-- ===== src/Gtest/ClientTest/Examples.antt =====
-- The tests of the client against the receiver of Iq/Testing.
use Prim.Native.String.{String}
use rs_jerry_driver.Common.{
  ℕ, ℤ, pos, ◌≡◌, refl, ap, sym, true, List, Option, none, some, ok, replicate, length-replicate,
  if◌then◌else◌, arith,
}
use rs_jerry_driver.Testing.{fractions}
use rs_jerry_driver.Messages.{ErrorMessage, empty_udp_setting, empty_channel_setting}
use rs_jerry_driver.Grpc.{rx1}
use rs_jerry_driver.Transmitter.{Transmitter, SocketCall}
use rs_jerry_driver.Transmitter.Sequence.{numbered}
use rs_jerry_driver.Iq.{World, set_protocol}
use rs_jerry_driver.Iq.Sources.{new_iq_client, set_port_id, get_port_id, set_norm, get_norm}
use rs_jerry_driver.Iq.Testing.{integers, receiver, store}
use rs_jerry_driver.Gtest.ClientTest.{
  same_int, ammos_exception, can_log_into_msr4, can_set_streaming_settings,
  can_set_channel_settings, can_set_msr4_by_json, can_set_dpdk_settings,
}
use rs_jerry_driver.Gtest.ClientTest.Streaming.{Accepts, CanConnect}
use rs_jerry_driver.Gtest.ClientTest.Json.{IsExample, client_tests_pass}
use rs_jerry_driver.Iq.Configure.{same_text, channel_of}
use rs_jerry_driver.Json.{JsonOps}
use rs_jerry_driver.Gtest.ClientTest.Payload.{send_payload_test, IsRamp, send_payload_test_lem}

-- The world of a fixture.
abbrev fixture : World fractions integers receiver
fixture = record {
  client = new_iq_client fractions;
  state = (λ p. empty_udp_setting, λ p. empty_channel_setting integers);
}

-- A message that is not there has no code.
abbrev code_of : Option ErrorMessage → ℕ
code_of none = 0
code_of (some m) = m.error_code

accepts : Accepts fractions integers receiver store
accepts = record {
  udp = λ e token x s s' m served allowed h. sym (ap (λ p. code_of p.1) h);
  rf = λ e token x s s' m served idle h. sym (ap (λ p. code_of p.1) h);
  bandwidth = λ e token x s s' m served idle h. sym (ap (λ p. code_of p.1) h);
}

connects : CanConnect fractions integers receiver store fixture
connects = record {
  token = "token";
  state = fixture.state;
  answered = refl;
  served = tt;
  idle = refl;
}

same_int_refl : (n : ℕ) → same_int (pos n) (pos n) ≡ true
same_int_refl n = ground arith

-- A library that names a value by its key, with the contents of configFiles/example.json.
abbrev text_at : String → String
text_at key =
    if same_text key "Ip"
    then "some.device.net"
    else if same_text key "User"
    then "user"
    else if same_text key "Password"
    then "password"
    else if same_text key "DestinationAddress"
    then "127.0.0.1"
    else "HRZR"

abbrev number_at : String → ℤ
number_at key =
    if same_text key "RxChannel"
    then pos 1
    else if same_text key "SatFrequency"
    then pos 1500000000
    else if same_text key "DownFrequency"
    then pos 0
    else if same_text key "BandwidthByAnalysisBandwidth"
    then pos 194100000
    else pos 5001

abbrev keys : JsonOps
keys = record {
  Value = String;
  null = "";
  is_member = λ root key. true;
  get = λ value key default. key;
  as_string = λ key. ok (text_at key);
  as_int = λ key. ok (number_at key);
  parse_from_stream = λ text. text;
}

abbrev config : String → Option String
config path = some "{}"

keys-IsExample : IsExample fractions integers receiver store keys config fixture
unfolding channel_of
keys-IsExample = record {
  text = "{}";
  opened = refl;
  login = record { ip = "some.device.net"; user = "user"; password = "password" };
  rx_channel = pos 1;
  rx = rx1;
  token = "token";
  state = fixture.state;
  has_login = refl;
  ip = refl;
  user = refl;
  password = refl;
  has_rx_channel = refl;
  rx_channel_is = refl;
  has_stream = refl;
  sat = refl;
  down = refl;
  bandwidth = refl;
  has_channel = refl;
  port = refl;
  address = refl;
  protocol = refl;
  known = refl;
  answered = refl;
  served = tt;
}

client_tests_pass_example :
    ((can_log_into_msr4 fractions integers receiver fixture).0 ≡ ok true)
    × ((can_set_streaming_settings fractions integers receiver fixture).0 ≡ ok true)
    × ((can_set_channel_settings fractions integers receiver same_int fixture).0 ≡ ok true)
    × ((can_set_msr4_by_json fractions integers receiver keys config same_int fixture).0 ≡ ok true)
client_tests_pass_example =
    client_tests_pass fractions integers receiver store keys config same_int fixture same_int_refl
      accepts connects keys-IsExample

-- The other tests on the same fixture.
others :
    (ammos_exception fractions integers receiver fixture ≡ (ok true, fixture))
    × ((can_set_dpdk_settings fractions (λ x y. same_int x.0 y.0) fixture.client).0 ≡ true)
unfolding ammos_exception set_protocol can_set_dpdk_settings set_port_id get_port_id set_norm
    get_norm
others = (refl, refl)

abbrev unwritten : Transmitter
unwritten = record {
  local = record { family = 7; port = 7; addr = 7 };
  dest = record { family = 7; port = 7; addr = 7 };
  my_sock = 7;
  current_sequence_number = 7;
}

send_payload_test_lem_example :
    (out : List ℕ) × (calls : List SocketCall) × (last : Transmitter) × IsRamp fractions out
    × (send_payload_test fractions (λ ip. none) 3 unwritten (replicate 732 0)
        ≡ ok (true, calls, last, numbered 0 (replicate 0x1001 out)))
    × (last.current_sequence_number ≡ 1)
send_payload_test_lem_example =
    send_payload_test_lem fractions (λ ip. none) 3 unwritten (replicate 732 0)
      (length-replicate {A = ℕ} 732 0) (λ k h. refl)
