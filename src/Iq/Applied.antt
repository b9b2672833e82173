-- ===== src/Iq/Applied.antt =====
-- What SetMSR4ByJson has done when it returns, and when it throws.
use rs_jerry_driver.Common.{
  ◌≡◌, refl, ap, sym, ◌∙◌, ◌≢◌, ◌⊎◌, inl, inr, Bool, true, false, Result, ok, err, invalid_value,
  not_implemented, ◌==◌, ==_iff, if◌then◌else◌, Bool-cases, arith,
}
use rs_jerry_driver.Floats.{FloatOps}
use rs_jerry_driver.Json.{StreamingStruct, ChannelStruct}
use rs_jerry_driver.Messages.{DoubleOps, ErrorMessage, hrzr, is_streaming}
use rs_jerry_driver.Grpc.{Receiver}
use rs_jerry_driver.Common.Run.{Run, ◌>>=◌, ◌>>◌, returns, throws}
use rs_jerry_driver.Iq.{
  require, World, set_port, set_destination_address, set_protocol, set_streaming_status,
  set_sat_frequency_hz, set_down_frequency_hz, set_bandwidth_by_analysis_bandwidth,
}
use rs_jerry_driver.Iq.Configure.{apply_settings, same_text}
use rs_jerry_driver.Iq.Store.{
  Store, Frame-refl, Frame-trans, Unchanged, Served, Writes, Frame, UdpBecomes, ChannelBecomes,
  udp_of, port_of,
}
use rs_jerry_driver.Iq.Settings.{udp_setters, channel_setters, getters, BandwidthBecomes}

module _ (floats : FloatOps) (doubles : DoubleOps) (receiver : Receiver doubles)
    (store : Store doubles receiver) (w : World floats doubles receiver) where
  open receiver use {State}

  abbrev at : State → World floats doubles receiver
  at s = record w { state = s }

  abbrev Kept : State → State → Type 0
  Kept = Frame doubles receiver store.udp store.channel (port_of floats doubles receiver store w)

  -- A setter whose message is tested, in a run that does not throw `InvalidValueError`: it took
  -- effect, and the rest followed.
  required :
      (call : Run (World floats doubles receiver) ErrorMessage)
      (rest : Run (World floats doubles receiver) (Unit {0})) (s : State) {effect : State → Type 0}
      {r : Result (Unit {0}) × World floats doubles receiver}
      → Writes floats doubles receiver store (at s) effect (call (at s))
      → (r.0 ≢ err invalid_value)
      → (call >>= λ message. require message >> rest) (at s) ≡ r
      → (s' : State) × effect s' × Kept s s' × (rest (at s') ≡ r)
  required call rest s {effect} {r} written fine run =
      elim (Bool-cases (written.message.error_code == 0)) [
        | inl e ↦ (
          written.state,
          written.effective ((==_iff _ _).0 e),
          written.frame,
          sym (rw (written.returns, e) refl) ∙ run,
        )
        | inr e ↦
            let thrown : (call >>= λ message. require message >> rest) (at s)
                ≡ (err invalid_value, at written.state) =
              rw (written.returns, e) refl in
            absurd (fine (ap (λ o. o.0) (sym run ∙ thrown)))
      ]

  abbrev stop_stream : Bool → Run (World floats doubles receiver) (Unit {0})
  stop_stream streaming =
      if streaming
      then set_streaming_status floats doubles receiver false >> returns tt
      else returns tt

  -- The stream is stopped, if it runs, whatever the receiver says to that.
  stopped :
      Served floats doubles receiver store w
      → (streaming : Bool)
      → (s : State) × Kept w.state s × (stop_stream streaming w ≡ (ok tt, at s))
  stopped served true =
      let written = (udp_setters floats doubles receiver store w served).2 false in
      (written.state, written.frame, rw written.returns refl)
  stopped served false =
      (w.state, Frame-refl doubles receiver store.udp store.channel _ w.state, refl)

  -- The settings of the file, behind the channel of the client.
  pub record HasSettings (stream : StreamingStruct) (channel : ChannelStruct) (s : State)
      : Type 0 where
    pub sat_frequency :
        (store.channel (port_of floats doubles receiver store w) s).rf_setting.sat_frequency_hz
        ≡ doubles.of_int stream.sat_frequency
    pub down_frequency :
        (store.channel (port_of floats doubles receiver store w) s).rf_setting.down_frequency_hz
        ≡ doubles.of_int stream.down_frequency
    pub bandwidth :
        (store.channel
          (port_of floats doubles receiver store w)
          s).bandwidth_setting.analysis_bandwidth_hz
        ≡ doubles.of_int stream.bandwith_by_analysis_bandwidth
    pub port : (store.udp (port_of floats doubles receiver store w) s).port ≡ channel.port
    pub destination_address :
        (store.udp (port_of floats doubles receiver store w) s).destination_address
        ≡ channel.destination_address

  -- The end of the run: the protocol.
  abbrev choose_protocol : ChannelStruct → Run (World floats doubles receiver) (Unit {0})
  choose_protocol channel =
      if same_text channel.protocol "HRZR"
      then set_protocol floats doubles receiver hrzr >> returns tt
      else throws not_implemented

  module _ (stream : StreamingStruct) (channel : ChannelStruct) where
    abbrev from_address : Run (World floats doubles receiver) (Unit {0})
    from_address =
        set_destination_address floats doubles receiver channel.destination_address >>= λ message.
        require message >> choose_protocol channel

    abbrev from_port : Run (World floats doubles receiver) (Unit {0})
    from_port =
        set_port floats doubles receiver channel.port >>= λ message. require message >> from_address

    abbrev from_bandwidth : Run (World floats doubles receiver) (Unit {0})
    from_bandwidth =
        set_bandwidth_by_analysis_bandwidth floats doubles receiver
          (doubles.of_int stream.bandwith_by_analysis_bandwidth)
        >>= λ message. require message >> from_port

    abbrev from_down : Run (World floats doubles receiver) (Unit {0})
    from_down =
        set_down_frequency_hz floats doubles receiver (doubles.of_int stream.down_frequency)
        >>= λ message. require message >> from_bandwidth

    abbrev from_sat : Run (World floats doubles receiver) (Unit {0})
    from_sat =
        set_sat_frequency_hz floats doubles receiver (doubles.of_int stream.sat_frequency)
        >>= λ message. require message >> from_down

    collect :
        (s0 s1 s2 s3 s4 s5 : State)
        → ChannelBecomes floats doubles receiver store
            (λ c. record c {
              rf_setting = record c.rf_setting {
                sat_frequency_hz = doubles.of_int stream.sat_frequency;
              };
            })
            (at s0)
            s1
        → ChannelBecomes floats doubles receiver store
            (λ c. record c {
              rf_setting = record c.rf_setting {
                down_frequency_hz = doubles.of_int stream.down_frequency;
              };
            })
            (at s1)
            s2
        → BandwidthBecomes floats doubles receiver store
            (doubles.of_int stream.bandwith_by_analysis_bandwidth)
            (at s2)
            s3
        → UdpBecomes floats doubles receiver store
            (λ u. record u { port = channel.port })
            (at s3)
            s4
        → UdpBecomes floats doubles receiver store
            (λ u. record u { destination_address = channel.destination_address })
            (at s4)
            s5
        → HasSettings stream channel s5
    collect s0 s1 s2 s3 s4 s5 e1 e2 e3 e4 e5 =
        let same_channel = e5.1 ∙ e4.1 in
        let rf = ap (λ c. c.rf_setting) same_channel ∙ e3.1 ∙ ap (λ c. c.rf_setting) e2.0 in
        record {
          sat_frequency =
              ap (λ x. x.sat_frequency_hz) rf ∙ ap (λ c. c.rf_setting.sat_frequency_hz) e1.0;
          down_frequency = ap (λ x. x.down_frequency_hz) rf;
          bandwidth = ap (λ c. c.bandwidth_setting.analysis_bandwidth_hz) same_channel ∙ e3.0;
          port = ap (λ u. u.port) e5.0 ∙ ap (λ u. u.port) e4.0;
          destination_address = ap (λ u. u.destination_address) e5.0;
        }

    settings_written :
        {r : Result (Unit {0}) × World floats doubles receiver}
        → Served floats doubles receiver store w
        → r.0 ≢ err invalid_value
        → apply_settings floats doubles receiver stream channel w ≡ r
        → (s : State) × HasSettings stream channel s
          × Kept w.state s
          × (choose_protocol channel (at s) ≡ r)
    unfolding apply_settings
    settings_written {r} served fine run =
        let hz = doubles.of_int in
        let (s0, k0, stop) =
          stopped served (is_streaming (udp_of floats doubles receiver store w)) in
        let streaming = (getters floats doubles receiver store w served).3 in
        let started : apply_settings floats doubles receiver stream channel w ≡ from_sat (at s0) =
          rw (streaming, stop) refl in
        let setters = λ (s : State). channel_setters floats doubles receiver store (at s) served in
        let udp = λ (s : State). udp_setters floats doubles receiver store (at s) served in
        let (s1, e1, k1, run1) =
          required (set_sat_frequency_hz floats doubles receiver (hz stream.sat_frequency))
            from_down s0 (setters s0 (hz stream.sat_frequency)).0 fine (sym started ∙ run) in
        let (s2, e2, k2, run2) =
          required (set_down_frequency_hz floats doubles receiver (hz stream.down_frequency))
            from_bandwidth s1 (setters s1 (hz stream.down_frequency)).1 fine run1 in
        let (s3, e3, k3, run3) =
          required
            (set_bandwidth_by_analysis_bandwidth floats doubles receiver
              (hz stream.bandwith_by_analysis_bandwidth))
            from_port s2 (setters s2 (hz stream.bandwith_by_analysis_bandwidth)).2 fine run2 in
        let (s4, e4, k4, run4) =
          required (set_port floats doubles receiver channel.port) from_address s3
            ((udp s3).0 channel.port) fine run3 in
        let (s5, e5, k5, run5) =
          required (set_destination_address floats doubles receiver channel.destination_address)
            (choose_protocol channel) s4 ((udp s4).1 channel.destination_address) fine run4 in
        (
          s5,
          collect s0 s1 s2 s3 s4 s5 e1 e2 e3 e4 e5,
          Frame-trans k0 (Frame-trans k1 (Frame-trans k2 (Frame-trans k3 (Frame-trans k4 k5)))),
          run5,
        )

    -- A later write that changes only the protocol, or nothing, keeps them.
    settings_kept :
        (s s' : State)
        → HasSettings stream channel s
        → (UdpBecomes floats doubles receiver store (λ u. record u { protocol = hrzr }) (at s) s')
          ⊎ Unchanged doubles receiver store.udp store.channel
              (port_of floats doubles receiver store w)
              s
              s'
        → HasSettings stream channel s'
    settings_kept s s' has (inl e) = record {
      sat_frequency = ap (λ c. c.rf_setting.sat_frequency_hz) e.1 ∙ has.sat_frequency;
      down_frequency = ap (λ c. c.rf_setting.down_frequency_hz) e.1 ∙ has.down_frequency;
      bandwidth = ap (λ c. c.bandwidth_setting.analysis_bandwidth_hz) e.1 ∙ has.bandwidth;
      port = ap (λ u. u.port) e.0 ∙ has.port;
      destination_address = ap (λ u. u.destination_address) e.0 ∙ has.destination_address;
    }
    settings_kept s s' has (inr e) = record {
      sat_frequency = ap (λ c. c.rf_setting.sat_frequency_hz) e.same_channel ∙ has.sat_frequency;
      down_frequency = ap (λ c. c.rf_setting.down_frequency_hz) e.same_channel ∙ has.down_frequency;
      bandwidth =
          ap (λ c. c.bandwidth_setting.analysis_bandwidth_hz) e.same_channel ∙ has.bandwidth;
      port = ap (λ u. u.port) e.same_udp ∙ has.port;
      destination_address = ap (λ u. u.destination_address) e.same_udp ∙ has.destination_address;
    }

    -- The run ended with the settings of the file, and only behind the channel of the client; it
    -- returned where the protocol is HRZR and threw where it is not.
    pub record IsApplied (r : Result (Unit {0}) × World floats doubles receiver) : Type 0 where
      pub state : State
      pub has : HasSettings stream channel state
      pub kept : Kept w.state state
      pub outcome :
          (same_text channel.protocol "HRZR" ≡ true) × (r ≡ (ok tt, at state))
          ⊎ (same_text channel.protocol "HRZR" ≡ false) × (r ≡ (err not_implemented, at state))

    -- The settings of SetMSR4ByJson, after the login and the choice of the channel: where the
    -- receiver serves the client and the run does not end in an InvalidValueError, the client's
    -- channel has both frequencies, the bandwidth, the port and the destination address of the
    -- file, and the settings of other channels and the client are as before. The run then returns
    -- where the protocol is HRZR; for any other protocol it throws NotImplementedException, with
    -- all of these settings already written.
    pub apply_settings-IsApplied :
        Served floats doubles receiver store w
        → (apply_settings floats doubles receiver stream channel w).0 ≢ err invalid_value
        → IsApplied (apply_settings floats doubles receiver stream channel w)
    apply_settings-IsApplied served fine =
        let (s, has, kept, run) = settings_written served fine refl in
        let written = (udp_setters floats doubles receiver store (at s) served).3 in
        elim (Bool-cases (same_text channel.protocol "HRZR")) [
          | inl e ↦ elim (Bool-cases (written.message.error_code == 0)) [
            | inl z ↦ record {
              state = written.state;
              has = settings_kept s written.state has (inl (written.effective ((==_iff _ _).0 z)));
              kept = Frame-trans kept written.frame;
              outcome = inl (e, sym run ∙ rw (e, written.returns) refl);
            }
            | inr z ↦ record {
              state = written.state;
              has =
                  settings_kept s written.state has
                    (inr (written.refused (λ n. ground (arith, z, n))));
              kept = Frame-trans kept written.frame;
              outcome = inl (e, sym run ∙ rw (e, written.returns) refl);
            }
          ]
          | inr e ↦ record {
            state = s;
            has = has;
            kept = kept;
            outcome = inr (e, sym run ∙ rw e refl);
          }
        ]
