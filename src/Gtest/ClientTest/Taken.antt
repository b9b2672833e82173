-- ===== src/Gtest/ClientTest/Taken.antt =====
-- The settings of a configuration file, for a receiver that takes all of them
-- while it does not stream: SetMSR4ByJson stops the stream first.
use Prim.Native.String.{String}
use rs_jerry_driver.Common.{ℤ, ◌≡◌, refl, ap, ◌∙◌, Bool, true, false, ok, if◌then◌else◌}
use rs_jerry_driver.Common.Run.{◌>>◌, returns}
use rs_jerry_driver.Floats.{FloatOps}
use rs_jerry_driver.Json.{StreamingStruct, ChannelStruct}
use rs_jerry_driver.Messages.{DoubleOps, hrzr, is_streaming}
use rs_jerry_driver.Grpc.{Receiver}
use rs_jerry_driver.Iq.{World, set_streaming_status}
use rs_jerry_driver.Iq.Configure.{apply_settings}
use rs_jerry_driver.Iq.Store.{Store, Served, udp_of}
use rs_jerry_driver.Iq.Settings.{getters}
use rs_jerry_driver.Gtest.ClientTest.{}
use rs_jerry_driver.Gtest.ClientTest.Streaming.{
  Accepts, udp_in, set_port-Took, set_destination_address-Took, set_protocol-Took,
  stop_streaming-Took, Idle,
}
use rs_jerry_driver.Gtest.ClientTest.Channel.{
  channel_in, set_sat_frequency_hz-Took, set_down_frequency_hz-Took, set_bandwidth-Took,
}

module _ (floats : FloatOps) (doubles : DoubleOps) (receiver : Receiver doubles)
    (store : Store doubles receiver) where
  open receiver use {State}
  open doubles use {Double, of_int}

  -- All settings of the file are those behind the client's channel.
  pub record HasAll (stream : StreamingStruct) (channel : ChannelStruct)
      (w : World floats doubles receiver) (s : State) : Type 0 where
    pub sat :
        (channel_in floats doubles receiver store w s).rf_setting.sat_frequency_hz
        ≡ of_int stream.sat_frequency
    pub down :
        (channel_in floats doubles receiver store w s).rf_setting.down_frequency_hz
        ≡ of_int stream.down_frequency
    pub bandwidth :
        (channel_in floats doubles receiver store w s).bandwidth_setting.analysis_bandwidth_hz
        ≡ of_int stream.bandwith_by_analysis_bandwidth
    pub port : (udp_in floats doubles receiver store w s).port ≡ channel.port
    pub address :
        (udp_in floats doubles receiver store w s).destination_address ≡ channel.destination_address
    pub protocol : (udp_in floats doubles receiver store w s).protocol ≡ hrzr

  stopped :
      (w : World floats doubles receiver) (streaming : Bool)
      → Accepts floats doubles receiver store
      → Served floats doubles receiver store w
      → is_streaming (udp_of floats doubles receiver store w) ≡ streaming
      → (s : State) × ((if streaming
              then (set_streaming_status floats doubles receiver false >> returns tt)
              else returns tt)
            w
          ≡ (ok tt, record w { state = s }))
        × Idle floats doubles receiver store w s
  stopped w true accepts served streams =
      let stop = stop_streaming-Took floats doubles receiver store w accepts served in
      (stop.state, rw stop.returns refl, ap is_streaming stop.effective.0)
  stopped w false accepts served streams = (w.state, refl, streams)

  -- The settings of a file with the protocol HRZR are all taken.
  pub apply_settings-HasAll :
      (stream : StreamingStruct) (port : ℤ) (address : String) (w : World floats doubles receiver)
      → Accepts floats doubles receiver store
      → Served floats doubles receiver store w
      → let channel : ChannelStruct = record {
        port = port;
        destination_address = address;
        protocol = "HRZR";
      } in
        (s : State) × (apply_settings floats doubles receiver stream channel w
          ≡ (ok tt, record w { state = s }))
        × HasAll stream channel w s
  unfolding apply_settings
  apply_settings-HasAll stream port address w accepts served =
      let streaming = (getters floats doubles receiver store w served).3 in
      let (s0, stop, idle) =
        stopped w (is_streaming (udp_of floats doubles receiver store w)) accepts served refl in
      let at : State → World floats doubles receiver = λ s. record w { state = s } in
      let sat =
        set_sat_frequency_hz-Took floats doubles receiver store (of_int stream.sat_frequency)
          (at s0) accepts served idle in
      let idle1 : Idle floats doubles receiver store w sat.state =
        ap is_streaming sat.effective.1 ∙ idle in
      let down =
        set_down_frequency_hz-Took floats doubles receiver store (of_int stream.down_frequency)
          (at sat.state) accepts served idle1 in
      let idle2 : Idle floats doubles receiver store w down.state =
        ap is_streaming down.effective.1 ∙ idle1 in
      let bandwidth =
        set_bandwidth-Took floats doubles receiver store
          (of_int stream.bandwith_by_analysis_bandwidth) (at down.state) accepts served idle2 in
      let idle3 : Idle floats doubles receiver store w bandwidth.state =
        ap is_streaming bandwidth.effective.2 ∙ idle2 in
      let port_set =
        set_port-Took floats doubles receiver store port (at bandwidth.state) accepts served
          idle3 in
      let idle4 : Idle floats doubles receiver store w port_set.state =
        ap is_streaming port_set.effective.0 ∙ idle3 in
      let address_set =
        set_destination_address-Took floats doubles receiver store address (at port_set.state)
          accepts served idle4 in
      let idle5 : Idle floats doubles receiver store w address_set.state =
        ap is_streaming address_set.effective.0 ∙ idle4 in
      let protocol =
        set_protocol-Took floats doubles receiver store (at address_set.state) accepts served
          idle5 in
      let same_channel = protocol.effective.1 ∙ (address_set.effective.1 ∙ port_set.effective.1) in
      let rf = ap (λ c. c.rf_setting) same_channel ∙ (bandwidth.effective.1 ∙ down.effective.0) in
      (
        protocol.state,
        rw
            (
              streaming, stop, sat.returns, sat.accepted, down.returns, down.accepted,
              bandwidth.returns, bandwidth.accepted, port_set.returns, port_set.accepted,
              address_set.returns, address_set.accepted, protocol.returns,
            )
            refl,
        record {
          sat = ap (λ r. r.sat_frequency_hz) rf ∙ ap (λ r. r.sat_frequency_hz) sat.effective.0;
          down = ap (λ r. r.down_frequency_hz) rf;
          bandwidth =
              ap (λ c. c.bandwidth_setting.analysis_bandwidth_hz) same_channel
              ∙ bandwidth.effective.0;
          port =
              ap (λ u. u.port) protocol.effective.0
              ∙ (ap (λ u. u.port) address_set.effective.0 ∙ ap (λ u. u.port) port_set.effective.0);
          address =
              ap (λ u. u.destination_address) protocol.effective.0
              ∙ ap (λ u. u.destination_address) address_set.effective.0;
          protocol = ap (λ u. u.protocol) protocol.effective.0;
        },
      )
