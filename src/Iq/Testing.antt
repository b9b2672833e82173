-- ===== src/Iq/Testing.antt =====
-- A receiver that keeps its settings per port and serves everyone.
use rs_jerry_driver.Common.{ℕ, refl, ap, ℤ, pos, none, [], ◌∷◌, some, ◌==◌}
use rs_jerry_driver.Common.Family.{update, update_here, update_there}
use rs_jerry_driver.Messages.{
  NetworkStreamingSetting, DoubleOps, UdpSetting, ChannelSetting, empty_error_message,
}
use rs_jerry_driver.Grpc.{Endpoint, Receiver}
use rs_jerry_driver.Iq.Store.{Store, Frame}

abbrev pub integers : DoubleOps
integers = record { Double = ℤ; of_int = λ n. n }

abbrev pub Kept : Type 0
Kept = (ℕ → UdpSetting) × (ℕ → ChannelSetting integers)

abbrev pub write_udp : Endpoint → UdpSetting → Kept → Kept
write_udp e x s = (update e.port (record x { sfp_interface = (s.0 e.port).sfp_interface }) s.0, s.1)

abbrev pub write_channel : Endpoint → ChannelSetting integers → Kept → Kept
write_channel e x s = (s.0, update e.port x s.1)

abbrev pub eth : NetworkStreamingSetting
eth = record {
  ip_address = "10.0.0.1";
  subnet_mask = "/24";
  gateway = "10.0.0.2";
  sfp_interface = 1;
}

abbrev pub receiver : Receiver integers
receiver = record {
  State = Kept;
  login = λ e creds s. (s, some "token");
  get_channel_setting = λ e token s. (s, some (s.1 e.port));
  set_rf_setting = λ e token x s.
      (write_channel e (record (s.1 e.port) { rf_setting = x }) s, some empty_error_message);
  set_sample_rate = λ e token x s. (
    write_channel e
        (record (s.1 e.port) {
          bandwidth_setting = record { sample_rate_hz = x; analysis_bandwidth_hz = x };
        })
        s,
    some empty_error_message,
  );
  set_analysis_bandwidth = λ e token x s. (
    write_channel e
        (record (s.1 e.port) {
          bandwidth_setting = record { sample_rate_hz = x; analysis_bandwidth_hz = x };
        })
        s,
    some empty_error_message,
  );
  auto_level = λ e token s. (s, some empty_error_message);
  get_udp_setting = λ e token s. (s, some (s.0 e.port));
  set_udp_setting = λ e token x s. (write_udp e x s, some empty_error_message);
  get_network = λ e token s. (s, some (eth ∷ []));
  set_network = λ e token x s. (s, none);
  udp_status = λ e token s. (s, some (record { datarate_gbits = pos e.port; status_base = none }));
  udp_status_ready = λ e token s. (s, some (record { is_ready = e.port == 50056 }));
}

abbrev pub udp_at : ℕ → Kept → UdpSetting
udp_at p s = s.0 p

abbrev pub channel_at : ℕ → Kept → ChannelSetting integers
channel_at p s = s.1 p

pub udp-Frame :
    (port : ℕ) (x : UdpSetting) (s : Kept)
    → Frame integers receiver udp_at channel_at port s (update port x s.0, s.1)
udp-Frame port x s = record {
  other_udp = λ p h. update_there port p x s.0 h;
  other_channel = λ p h. refl;
}

pub channel-Frame :
    (port : ℕ) (x : ChannelSetting integers) (s : Kept)
    → Frame integers receiver udp_at channel_at port s (s.0, update port x s.1)
channel-Frame port x s = record {
  other_udp = λ p h. refl;
  other_channel = λ p h. update_there port p x s.1 h;
}

abbrev pub store : Store integers receiver
store = record {
  serves = λ e token. Unit {0};
  udp = udp_at;
  channel = channel_at;
  reads_udp = λ e token s served. refl;
  reads_channel = λ e token s served. refl;
  writes_udp = λ e token x s served. (
    write_udp e x s,
    empty_error_message,
    refl,
    λ z. update_here e.port (record x { sfp_interface = (s.0 e.port).sfp_interface }) s.0,
    λ n. absurd (n refl),
    (udp-Frame e.port (record x { sfp_interface = (s.0 e.port).sfp_interface }) s, refl),
  );
  writes_rf = λ e token x s served.
      let c = record (s.1 e.port) { rf_setting = x } in
      (
        write_channel e c s,
        empty_error_message,
        refl,
        λ z. update_here e.port c s.1,
        λ n. absurd (n refl),
        (channel-Frame e.port c s, refl),
      );
  writes_bandwidth = λ e token x s served.
      let c : ChannelSetting integers = record (s.1 e.port) {
        bandwidth_setting = record { sample_rate_hz = x; analysis_bandwidth_hz = x };
      } in
      (
        write_channel e c s,
        empty_error_message,
        refl,
        λ z. (
          ap (λ t. t.bandwidth_setting.analysis_bandwidth_hz) (update_here e.port c s.1),
          ap (λ t. t.rf_setting) (update_here e.port c s.1),
        ),
        λ n. absurd (n refl),
        (channel-Frame e.port c s, refl),
      );
  writes_sample_rate = λ e token x s served.
      let c : ChannelSetting integers = record (s.1 e.port) {
        bandwidth_setting = record { sample_rate_hz = x; analysis_bandwidth_hz = x };
      } in
      (
        write_channel e c s,
        empty_error_message,
        refl,
        λ z. (
          ap (λ t. t.bandwidth_setting.sample_rate_hz) (update_here e.port c s.1),
          ap (λ t. t.rf_setting) (update_here e.port c s.1),
        ),
        λ n. absurd (n refl),
        (channel-Frame e.port c s, refl),
      );
}
