-- ===== src/Iq/Settings.antt =====
-- The setters and getters of IqClient against a store of settings, and where a call fails.
use Prim.Native.String.{String}
use rs_jerry_driver.Common.{ℤ, ◌≡◌, refl, Bool, none, some, ok, err, not_implemented}
use rs_jerry_driver.Floats.{FloatOps}
use rs_jerry_driver.Messages.{DoubleOps, UdpSetting, hrzr, ammos, is_streaming, empty_error_message}
use rs_jerry_driver.Grpc
use rs_jerry_driver.Grpc.{Endpoint, Receiver, channel_port, generate_stub}
use rs_jerry_driver.Iq.{
  World, set_port, set_destination_address, set_protocol, set_streaming_status,
  set_sat_frequency_hz, set_down_frequency_hz, set_bandwidth_by_analysis_bandwidth, get_port,
  get_destination_address, get_protocol, get_streaming_status, get_sat_frequency_hz,
  get_down_frequency_hz, get_sample_rate, get_analysis_bandwidth, set_bandwidth_by_sample_rate,
}
use rs_jerry_driver.Iq.Store.{
  Store, Served, Writes, UdpBecomes, ChannelBecomes, udp_of, channel_of, port_of,
  write_udp_setting_lem, write_rf_setting_lem,
}

-- The effect of the bandwidth's setter: the sample rate is the receiver's choice.
abbrev pub BandwidthBecomes :
    (floats : FloatOps) (doubles : DoubleOps) (receiver : Receiver doubles)
    (store : Store doubles receiver)
    → doubles.Double
    → World floats doubles receiver
    → receiver.State
    → Type 0
BandwidthBecomes floats doubles receiver store hz w s =
    let new = store.channel (port_of floats doubles receiver store w) s in
    (new.bandwidth_setting.analysis_bandwidth_hz ≡ hz)
    × (new.rf_setting ≡ (channel_of floats doubles receiver store w).rf_setting)
    × (store.udp (port_of floats doubles receiver store w) s
        ≡ udp_of floats doubles receiver store w)

-- The effect of the sample rate's setter: the analysis bandwidth is the receiver's choice.
abbrev pub RateBecomes :
    (floats : FloatOps) (doubles : DoubleOps) (receiver : Receiver doubles)
    (store : Store doubles receiver)
    → doubles.Double
    → World floats doubles receiver
    → receiver.State
    → Type 0
RateBecomes floats doubles receiver store rate w s =
    let new = store.channel (port_of floats doubles receiver store w) s in
    (new.bandwidth_setting.sample_rate_hz ≡ rate)
    × (new.rf_setting ≡ (channel_of floats doubles receiver store w).rf_setting)
    × (store.udp (port_of floats doubles receiver store w) s
        ≡ udp_of floats doubles receiver store w)

module _ (floats : FloatOps) (doubles : DoubleOps) (receiver : Receiver doubles)
    (store : Store doubles receiver) (w : World floats doubles receiver)
    (served : Served floats doubles receiver store w) where
  open doubles use {Double}

  -- The setters of the UDP stream: where the receiver serves the client, SetPort,
  -- SetDestinationAddress, SetStreamingStatus and SetProtocol with HRZR each return the message of
  -- the receiver without an exception, and where its code is 0 the named field of the setting
  -- behind the client's channel has the new value and every other field and the channel's setting
  -- are as before; where it is not, nothing of them changes; the settings of other channels never
  -- change. SetProtocol with AMMOS throws NotImplementedException and changes nothing.
  pub udp_setters :
      ((port : ℤ)
        → Writes floats doubles receiver store w
            (UdpBecomes floats doubles receiver store (λ u. record u { port = port }) w)
            (set_port floats doubles receiver port w))
      × ((address : String)
          → Writes floats doubles receiver store w
              (UdpBecomes floats doubles receiver store
                (λ u. record u { destination_address = address })
                w)
              (set_destination_address floats doubles receiver address w))
      × ((status : Bool)
          → Writes floats doubles receiver store w
              (UdpBecomes floats doubles receiver store (λ u. record u { base = some status }) w)
              (set_streaming_status floats doubles receiver status w))
      × Writes floats doubles receiver store w
          (UdpBecomes floats doubles receiver store (λ u. record u { protocol = hrzr }) w)
          (set_protocol floats doubles receiver hrzr w)
      × (set_protocol floats doubles receiver ammos w ≡ (err not_implemented, w))
  unfolding set_port set_destination_address set_streaming_status set_protocol
  udp_setters = (
    λ port.
        write_udp_setting_lem floats doubles receiver store (λ u. record u { port = port }) w
          (λ u. refl) served,
    λ address.
        write_udp_setting_lem floats doubles receiver store
          (λ u. record u { destination_address = address }) w (λ u. refl) served,
    λ status.
        write_udp_setting_lem floats doubles receiver store (λ u. record u { base = some status }) w
          (λ u. refl) served,
    write_udp_setting_lem floats doubles receiver store (λ u. record u { protocol = hrzr }) w
        (λ u. refl) served,
    refl,
  )

  -- The four setters of the channel (both frequencies, the bandwidth by analysis bandwidth and by
  -- sample rate): where the receiver serves the client, each returns the message of the receiver
  -- without an exception, and where its code is 0 the named value of the channel's
  -- setting is the new one, the other values that the setter does not concern and the UDP setting
  -- are as before (SetBandwidthByAnalysisBandwidth leaves the sample rate to the receiver,
  -- SetBandwidthBySampleRate the analysis bandwidth); where it is not, nothing of them changes; the settings of other channels never change.
  pub channel_setters :
      (hz : Double)
      → Writes floats doubles receiver store w
          (ChannelBecomes floats doubles receiver store
            (λ c. record c { rf_setting = record c.rf_setting { sat_frequency_hz = hz } })
            w)
          (set_sat_frequency_hz floats doubles receiver hz w)
        × Writes floats doubles receiver store w
            (ChannelBecomes floats doubles receiver store
              (λ c. record c { rf_setting = record c.rf_setting { down_frequency_hz = hz } })
              w)
            (set_down_frequency_hz floats doubles receiver hz w)
        × Writes floats doubles receiver store w
            (BandwidthBecomes floats doubles receiver store hz w)
            (set_bandwidth_by_analysis_bandwidth floats doubles receiver hz w)
        × Writes floats doubles receiver store w
            (RateBecomes floats doubles receiver store hz w)
            (set_bandwidth_by_sample_rate floats doubles receiver hz w)
  unfolding set_sat_frequency_hz set_down_frequency_hz set_bandwidth_by_analysis_bandwidth
      set_bandwidth_by_sample_rate Grpc.set_bandwidth_setting_by_sample_rate
      Grpc.set_bandwidth_setting_by_analysis_bandwidth generate_stub
  channel_setters hz =
      let e : Endpoint = record {
        host = w.client.grpc_client.ip;
        port = port_of floats doubles receiver store w;
      } in
      let (s, message, replied, effect, refused, frame) =
        store.writes_bandwidth e w.client.grpc_client.token hz w.state served in
      let (s2, message2, replied2, effect2, refused2, frame2) =
        store.writes_sample_rate e w.client.grpc_client.token hz w.state served in
      (
        write_rf_setting_lem floats doubles receiver store
            (λ rf. record rf { sat_frequency_hz = hz }) w served,
        write_rf_setting_lem floats doubles receiver store
            (λ rf. record rf { down_frequency_hz = hz }) w served,
        record {
          state = s;
          message = message;
          returns = rw replied refl;
          effective = λ zero_code. ((effect zero_code).0, (effect zero_code).1, frame.1);
          refused = refused;
          frame = frame.0;
        },
        record {
          state = s2;
          message = message2;
          returns = rw replied2 refl;
          effective = λ zero_code. ((effect2 zero_code).0, (effect2 zero_code).1, frame2.1);
          refused = refused2;
          frame = frame2.0;
        },
      )

  -- The getters: where the receiver serves the client, each returns the field of the settings
  -- behind the client's channel and changes neither the client nor the receiver; an absent base
  -- reads as not streaming.
  pub getters :
      let u = udp_of floats doubles receiver store w in
      let c = channel_of floats doubles receiver store w in
      (get_port floats doubles receiver w ≡ (ok u.port, w))
      × (get_destination_address floats doubles receiver w ≡ (ok u.destination_address, w))
      × (get_protocol floats doubles receiver w ≡ (ok u.protocol, w))
      × (get_streaming_status floats doubles receiver w ≡ (ok (is_streaming u), w))
      × (get_sat_frequency_hz floats doubles receiver w ≡ (ok c.rf_setting.sat_frequency_hz, w))
      × (get_down_frequency_hz floats doubles receiver w ≡ (ok c.rf_setting.down_frequency_hz, w))
      × (get_sample_rate floats doubles receiver w ≡ (ok c.bandwidth_setting.sample_rate_hz, w))
      × (get_analysis_bandwidth floats doubles receiver w
          ≡ (ok c.bandwidth_setting.analysis_bandwidth_hz, w))
  unfolding get_port get_destination_address get_protocol get_streaming_status get_sat_frequency_hz
      get_down_frequency_hz get_sample_rate get_analysis_bandwidth Grpc.get_udp_setting
      Grpc.get_channel_settings generate_stub
  getters =
      let e : Endpoint = record {
        host = w.client.grpc_client.ip;
        port = port_of floats doubles receiver store w;
      } in
      let udp = store.reads_udp e w.client.grpc_client.token w.state served in
      let channel = store.reads_channel e w.client.grpc_client.token w.state served in
      (
        rw udp refl,
        rw udp refl,
        rw udp refl,
        rw udp refl,
        rw channel refl,
        rw channel refl,
        rw channel refl,
        rw channel refl,
      )

module _ (floats : FloatOps) (doubles : DoubleOps) (receiver : Receiver doubles)
    (w : World floats doubles receiver) where
  -- A failed write looks like a success: whatever the read gives, where the call that writes the
  -- UDP setting fails, SetPort returns the empty message, whose code is 0.
  pub set_port_unanswered :
      (port : ℤ)
      → ((x : UdpSetting) (s : receiver.State)
          → (s' : receiver.State) × (receiver.set_udp_setting
                (record {
                  host = w.client.grpc_client.ip;
                  port = channel_port w.client.msr4_channel;
                })
                w.client.grpc_client.token
                x
                s
              ≡ (s', none)))
      → (after : World floats doubles receiver) × (set_port floats doubles receiver port w
          ≡ (ok empty_error_message, after))
  unfolding set_port Grpc.get_udp_setting Grpc.set_udp_setting generate_stub
  set_port_unanswered port fails =
      let read =
        Grpc.get_udp_setting doubles receiver w.client.grpc_client w.client.msr4_channel w.state in
      let (s', unwritten) = fails (record read.0 { port = port }) read.1 in
      (record w { state = s' }, rw unwritten refl)
