-- ===== src/Gtest/ClientTest/Channel.antt =====
-- The test CanSetChannelSettings passes for a receiver that is a store of settings and takes all of
-- them while it does not stream.
use rs_jerry_driver.Common.{ℕ, pos, ◌≡◌, refl, ap, ◌∙◌, Bool, true, ok}
use rs_jerry_driver.Floats.{FloatOps}
use rs_jerry_driver.Messages.{DoubleOps, RfSetting, ChannelSetting, is_streaming}
use rs_jerry_driver.Grpc
use rs_jerry_driver.Grpc.{Endpoint, Receiver, generate_stub}
use rs_jerry_driver.Iq.{
  World, write_rf_setting, set_rx_channel, set_sat_frequency_hz, set_down_frequency_hz,
  set_bandwidth_by_analysis_bandwidth,
}
use rs_jerry_driver.Iq.Store.{Store, Served, port_of}
use rs_jerry_driver.Iq.Settings.{getters}
use rs_jerry_driver.Gtest.ClientTest.{
  can_log_into_msr4, can_set_streaming_settings, can_set_channel_settings,
}
use rs_jerry_driver.Gtest.ClientTest.Streaming.{
  Accepts, Took, CanConnect, Idle, udp_in, logged_in, connect_to_msr4_lem,
  can_set_streaming_settings_passes,
}

module _ (floats : FloatOps) (doubles : DoubleOps) (receiver : Receiver doubles)
    (store : Store doubles receiver) where
  open receiver use {State}
  open doubles use {Double, of_int}

  -- The setting of the client's channel.
  abbrev pub channel_in : World floats doubles receiver → State → ChannelSetting doubles
  channel_in w s = store.channel (port_of floats doubles receiver store w) s

  -- The UDP setting of the client's channel is as before.
  abbrev pub SameUdp : World floats doubles receiver → State → Type 0
  SameUdp w s =
      udp_in floats doubles receiver store w s ≡ udp_in floats doubles receiver store w w.state

  write_rf_setting-Took :
      (change : RfSetting doubles → RfSetting doubles) (w : World floats doubles receiver)
      → Accepts floats doubles receiver store
      → Served floats doubles receiver store w
      → Idle floats doubles receiver store w w.state
      → Took floats doubles receiver store w
          (λ s.
            ((channel_in w s).rf_setting ≡ change (channel_in w w.state).rf_setting) × SameUdp w s)
          (write_rf_setting floats doubles receiver change w)
  unfolding Grpc.get_channel_settings Grpc.set_rf_setting generate_stub
  write_rf_setting-Took change w accepts served idle =
      let e : Endpoint = record {
        host = w.client.grpc_client.ip;
        port = port_of floats doubles receiver store w;
      } in
      let token = w.client.grpc_client.token in
      let new = change (channel_in w w.state).rf_setting in
      let (s, message, replied, effect, refused, frame) =
        store.writes_rf e token new w.state served in
      let taken = accepts.rf e token new w.state s message served idle replied in
      record {
        state = s;
        message = message;
        returns = rw (store.reads_channel e token w.state served, replied) refl;
        accepted = taken;
        effective = (ap (λ c. c.rf_setting) (effect taken), frame.1);
      }

  pub set_sat_frequency_hz-Took :
      (hz : Double) (w : World floats doubles receiver)
      → Accepts floats doubles receiver store
      → Served floats doubles receiver store w
      → Idle floats doubles receiver store w w.state
      → Took floats doubles receiver store w
          (λ s.
            ((channel_in w s).rf_setting
              ≡ record (channel_in w w.state).rf_setting { sat_frequency_hz = hz })
            × SameUdp w s)
          (set_sat_frequency_hz floats doubles receiver hz w)
  unfolding set_sat_frequency_hz
  set_sat_frequency_hz-Took hz w =
      write_rf_setting-Took (λ rf. record rf { sat_frequency_hz = hz }) w

  pub set_down_frequency_hz-Took :
      (hz : Double) (w : World floats doubles receiver)
      → Accepts floats doubles receiver store
      → Served floats doubles receiver store w
      → Idle floats doubles receiver store w w.state
      → Took floats doubles receiver store w
          (λ s.
            ((channel_in w s).rf_setting
              ≡ record (channel_in w w.state).rf_setting { down_frequency_hz = hz })
            × SameUdp w s)
          (set_down_frequency_hz floats doubles receiver hz w)
  unfolding set_down_frequency_hz
  set_down_frequency_hz-Took hz w =
      write_rf_setting-Took (λ rf. record rf { down_frequency_hz = hz }) w

  pub set_bandwidth-Took :
      (hz : Double) (w : World floats doubles receiver)
      → Accepts floats doubles receiver store
      → Served floats doubles receiver store w
      → Idle floats doubles receiver store w w.state
      → Took floats doubles receiver store w
          (λ s.
            ((channel_in w s).bandwidth_setting.analysis_bandwidth_hz ≡ hz)
            × ((channel_in w s).rf_setting ≡ (channel_in w w.state).rf_setting)
            × SameUdp w s)
          (set_bandwidth_by_analysis_bandwidth floats doubles receiver hz w)
  unfolding set_bandwidth_by_analysis_bandwidth Grpc.set_bandwidth_setting_by_analysis_bandwidth
      generate_stub
  set_bandwidth-Took hz w accepts served idle =
      let e : Endpoint = record {
        host = w.client.grpc_client.ip;
        port = port_of floats doubles receiver store w;
      } in
      let token = w.client.grpc_client.token in
      let (s, message, replied, effect, refused, frame) =
        store.writes_bandwidth e token hz w.state served in
      let taken = accepts.bandwidth e token hz w.state s message served idle replied in
      record {
        state = s;
        message = message;
        returns = rw replied refl;
        accepted = taken;
        effective = ((effect taken).0, (effect taken).1, frame.1);
      }

  -- The test CanSetChannelSettings: where the receiver lets the client log in, serves it and
  -- takes every setting while its stream is stopped, as it is, and a `double` that is made of a
  -- whole number is equal to itself, the client reads back both frequencies
  -- and the bandwidth that it wrote, and nothing is thrown.
  can_set_channel_settings_passes :
      (same : Double → Double → Bool) (w : World floats doubles receiver)
      → ((n : ℕ) → same (of_int (pos n)) (of_int (pos n)) ≡ true)
      → Accepts floats doubles receiver store
      → CanConnect floats doubles receiver store w
      → (can_set_channel_settings floats doubles receiver same w).0 ≡ ok true
  unfolding can_set_channel_settings set_rx_channel
  can_set_channel_settings_passes same w equal accepts connected =
      let w0 = logged_in floats doubles receiver store w connected.token connected.state in
      let served = connected.served in
      let sat =
        set_sat_frequency_hz-Took (of_int (pos 1600000000)) w0 accepts served connected.idle in
      let idle1 = ap is_streaming sat.effective.1 ∙ connected.idle in
      let w1 = record w0 { state = sat.state } in
      let down = set_down_frequency_hz-Took (of_int (pos 1000000)) w1 accepts served idle1 in
      let idle2 = ap is_streaming down.effective.1 ∙ idle1 in
      let w2 = record w0 { state = down.state } in
      let bandwidth = set_bandwidth-Took (of_int (pos 195000000)) w2 accepts served idle2 in
      let w3 = record w0 { state = bandwidth.state } in
      let read = getters floats doubles receiver store w3 served in
      let rf = bandwidth.effective.1 ∙ down.effective.0 in
      let down_is : (channel_in w0 bandwidth.state).rf_setting.down_frequency_hz
          ≡ of_int (pos 1000000) =
        ap (λ r. r.down_frequency_hz) rf in
      let sat_is : (channel_in w0 bandwidth.state).rf_setting.sat_frequency_hz
          ≡ of_int (pos 1600000000) =
        ap (λ r. r.sat_frequency_hz) rf ∙ ap (λ r. r.sat_frequency_hz) sat.effective.0 in
      rw
        (
          connect_to_msr4_lem floats doubles receiver store w connected,
          sat.returns,
          down.returns,
          bandwidth.returns,
          read.4,
          read.5,
          read.7,
          sat_is,
          down_is,
          bandwidth.effective.0,
          equal 1600000000,
          equal 1000000,
          equal 195000000,
        )
        refl

  -- The three tests behind ConnectToMSR4 together.
  pub settings_tests_pass :
      (same : Double → Double → Bool) (w : World floats doubles receiver)
      → ((n : ℕ) → same (of_int (pos n)) (of_int (pos n)) ≡ true)
      → Accepts floats doubles receiver store
      → CanConnect floats doubles receiver store w
      → ((can_log_into_msr4 floats doubles receiver w).0 ≡ ok true)
        × ((can_set_streaming_settings floats doubles receiver w).0 ≡ ok true)
        × ((can_set_channel_settings floats doubles receiver same w).0 ≡ ok true)
  unfolding can_log_into_msr4
  settings_tests_pass same w equal accepts connected = (
    ap (λ r. r.0) (connect_to_msr4_lem floats doubles receiver store w connected),
    can_set_streaming_settings_passes floats doubles receiver store w accepts connected,
    can_set_channel_settings_passes same w equal accepts connected,
  )
