-- ===== src/Gtest/ClientTest/Streaming.antt =====
-- The tests of the settings pass for a receiver that is a store of settings and takes all of them
-- while it does not stream.
use Prim.Native.String.{String}
use rs_jerry_driver.Common.{
  ℤ, pos, ◌⊎◌, inl, inr, ◌≡◌, refl, ap, ◌∙◌, Bool, true, false, Option, none, some, Result, ok,
}
use rs_jerry_driver.Floats.{FloatOps}
use rs_jerry_driver.Messages.{DoubleOps, UdpSetting, ErrorMessage, RfSetting, hrzr, is_streaming}
use rs_jerry_driver.Grpc
use rs_jerry_driver.Grpc.{
  Endpoint, Receiver, GrpcClient, rx1, channel_port, generate_stub, set_ip, set_credentials,
}
use rs_jerry_driver.Iq.{
  World, write_udp_setting, msr4_login, set_msr4_credentials, set_msr4_ip, set_rx_channel, set_port,
  set_destination_address, set_protocol, set_streaming_status,
}
use rs_jerry_driver.Iq.Sources.{get_rx_channel}
use rs_jerry_driver.Iq.Store.{Store, Served, port_of}
use rs_jerry_driver.Iq.Settings.{getters}
use rs_jerry_driver.Gtest.ClientTest.{connect_to_msr4, can_set_streaming_settings}

module _ (floats : FloatOps) (doubles : DoubleOps) (receiver : Receiver doubles)
    (store : Store doubles receiver) where
  open receiver use {State}

  -- The receiver takes every setting of a client that it serves while the client's stream is
  -- stopped, and always the write that only stops it; README.md asks for no more.
  pub record Accepts : Type 0 where
    pub udp :
        (e : Endpoint) (token : String) (x : UdpSetting) (s s' : State) (m : ErrorMessage)
        → store.serves e token
        → (is_streaming (store.udp e.port s) ≡ false)
          ⊎ (x ≡ record (store.udp e.port s) { base = some false })
        → receiver.set_udp_setting e token x s ≡ (s', some m)
        → m.error_code ≡ 0
    pub rf :
        (e : Endpoint) (token : String) (x : RfSetting doubles) (s s' : State) (m : ErrorMessage)
        → store.serves e token
        → is_streaming (store.udp e.port s) ≡ false
        → receiver.set_rf_setting e token x s ≡ (s', some m)
        → m.error_code ≡ 0
    pub bandwidth :
        (e : Endpoint) (token : String) (x : doubles.Double) (s s' : State) (m : ErrorMessage)
        → store.serves e token
        → is_streaming (store.udp e.port s) ≡ false
        → receiver.set_analysis_bandwidth e token x s ≡ (s', some m)
        → m.error_code ≡ 0

  -- A setter that took effect.
  pub record Took (w : World floats doubles receiver) (effect : State → Type 0)
      (r : Result ErrorMessage × World floats doubles receiver) : Type 0 where
    pub state : State
    pub message : ErrorMessage
    pub returns : r ≡ (ok message, record w { state = state })
    pub accepted : message.error_code ≡ 0
    pub effective : effect state

  -- The UDP setting behind the client's channel.
  abbrev pub udp_in : World floats doubles receiver → State → UdpSetting
  udp_in w s = store.udp (port_of floats doubles receiver store w) s

  -- The stream behind the client's channel is stopped.
  abbrev pub Idle : World floats doubles receiver → State → Type 0
  Idle w s = is_streaming (udp_in w s) ≡ false

  -- The UDP setting becomes another, and the channel's setting stays.
  abbrev pub Becomes : World floats doubles receiver → UdpSetting → State → Type 0
  Becomes w u s =
      (udp_in w s ≡ u)
      × (store.channel (port_of floats doubles receiver store w) s
          ≡ store.channel (port_of floats doubles receiver store w) w.state)

  pub write_udp_setting-Took :
      (change : UdpSetting → UdpSetting) (w : World floats doubles receiver)
      → ((u : UdpSetting) → record (change u) { sfp_interface = u.sfp_interface } ≡ change u)
      → Accepts
      → Served floats doubles receiver store w
      → Idle w w.state
        ⊎ (change (udp_in w w.state) ≡ record (udp_in w w.state) { base = some false })
      → Took w
          (Becomes w (change (udp_in w w.state)))
          (write_udp_setting floats doubles receiver change w)
  unfolding Grpc.get_udp_setting Grpc.set_udp_setting generate_stub
  write_udp_setting-Took change w same accepts served allowed =
      let e : Endpoint = record {
        host = w.client.grpc_client.ip;
        port = port_of floats doubles receiver store w;
      } in
      let token = w.client.grpc_client.token in
      let (s, message, replied, effect, refused, frame) =
        store.writes_udp e token (change (udp_in w w.state)) w.state served in
      let taken =
        accepts.udp e token (change (udp_in w w.state)) w.state s message served allowed replied in
      record {
        state = s;
        message = message;
        returns = rw (store.reads_udp e token w.state served, replied) refl;
        accepted = taken;
        effective = (effect taken ∙ same (udp_in w w.state), frame.1);
      }

  pub set_port-Took :
      (port : ℤ) (w : World floats doubles receiver)
      → Accepts
      → Served floats doubles receiver store w
      → Idle w w.state
      → Took w
          (Becomes w (record (udp_in w w.state) { port = port }))
          (set_port floats doubles receiver port w)
  unfolding set_port
  set_port-Took port w accepts served idle =
      write_udp_setting-Took (λ u. record u { port = port }) w (λ u. refl) accepts served (inl idle)

  pub set_destination_address-Took :
      (address : String) (w : World floats doubles receiver)
      → Accepts
      → Served floats doubles receiver store w
      → Idle w w.state
      → Took w
          (Becomes w (record (udp_in w w.state) { destination_address = address }))
          (set_destination_address floats doubles receiver address w)
  unfolding set_destination_address
  set_destination_address-Took address w accepts served idle =
      write_udp_setting-Took (λ u. record u { destination_address = address }) w (λ u. refl) accepts
        served (inl idle)

  pub stop_streaming-Took :
      (w : World floats doubles receiver)
      → Accepts
      → Served floats doubles receiver store w
      → Took w
          (Becomes w (record (udp_in w w.state) { base = some false }))
          (set_streaming_status floats doubles receiver false w)
  unfolding set_streaming_status
  stop_streaming-Took w accepts served =
      write_udp_setting-Took (λ u. record u { base = some false }) w (λ u. refl) accepts served
        (inr refl)

  pub set_protocol-Took :
      (w : World floats doubles receiver)
      → Accepts
      → Served floats doubles receiver store w
      → Idle w w.state
      → Took w
          (Becomes w (record (udp_in w w.state) { protocol = hrzr }))
          (set_protocol floats doubles receiver hrzr w)
  unfolding set_protocol
  set_protocol-Took w accepts served idle =
      write_udp_setting-Took (λ u. record u { protocol = hrzr }) w (λ u. refl) accepts served
        (inl idle)

  -- The client behind the login, on the first channel.
  abbrev pub logged_in :
      World floats doubles receiver → String → State → World floats doubles receiver
  logged_in w token s = record {
    client = record w.client {
      msr4_channel = rx1;
      grpc_client = record {
        creds = record { name = "user"; password = "password" };
        ip = "some.device.net";
        token = token;
      };
    };
    state = s;
  }

  -- The login succeeds with a token, and the receiver serves that client on its first channel,
  -- whose stream is stopped.
  pub record CanConnect (w : World floats doubles receiver) : Type 0 where
    pub token : String
    pub state : State
    pub answered :
        receiver.login
          (record { host = "some.device.net"; port = 50060 })
          (record { name = "user"; password = "password" })
          w.state
        ≡ (state, some token)
    pub served : Served floats doubles receiver store (logged_in w token state)
    pub idle : Idle (logged_in w token state) state

  pub connect_to_msr4_lem :
      (w : World floats doubles receiver) (c : CanConnect w)
      → connect_to_msr4 floats doubles receiver w ≡ (
        ok true,
        record (logged_in w c.token c.state) {
          client = record (logged_in w c.token c.state).client {
            msr4_channel = w.client.msr4_channel;
          };
        },
      )
  unfolding connect_to_msr4 set_msr4_ip set_msr4_credentials msr4_login Grpc.msr4_login set_ip
      set_credentials
  connect_to_msr4_lem w c =
      ap
        (λ (answer : State × Option String).
          let r : (Bool × GrpcClient) × State = elim answer.1 [
            | none ↦ ((false, named), answer.0)
            | some token ↦ ((true, record named { token = token }), answer.0)
          ] in
          (ok r.0.0, record { client = record w.client { grpc_client = r.0.1 }; state = r.1 }))
        c.answered
    where
      named : GrpcClient
      named = record w.client.grpc_client {
        creds = record { name = "user"; password = "password" };
        ip = "some.device.net";
      }

  -- The test CanSetStreamingSettings passes: where the receiver lets the client log in, serves it
  -- and takes every setting while its stream is stopped, as it is, the client reads back the
  -- channel, the port, the address and the protocol that it wrote, each written over what the
  -- others left, and nothing is thrown.
  pub can_set_streaming_settings_passes :
      (w : World floats doubles receiver)
      → Accepts
      → CanConnect w
      → (can_set_streaming_settings floats doubles receiver w).0 ≡ ok true
  unfolding can_set_streaming_settings set_rx_channel get_rx_channel
  can_set_streaming_settings_passes w accepts connected =
      let w0 = logged_in w connected.token connected.state in
      let served = connected.served in
      let port = set_port-Took (pos 12) w0 accepts served connected.idle in
      let idle1 : Idle w0 port.state = ap is_streaming port.effective.0 ∙ connected.idle in
      let w1 = record w0 { state = port.state } in
      let address = set_destination_address-Took "192.168.30.1" w1 accepts served idle1 in
      let idle2 : Idle w0 address.state = ap is_streaming address.effective.0 ∙ idle1 in
      let w2 = record w0 { state = address.state } in
      let protocol = set_protocol-Took w2 accepts served idle2 in
      let w3 = record w0 { state = protocol.state } in
      let read = getters floats doubles receiver store w3 served in
      let port_is : (udp_in w0 protocol.state).port ≡ pos 12 =
        ap (λ u. u.port) protocol.effective.0
        ∙ (ap (λ u. u.port) address.effective.0 ∙ ap (λ u. u.port) port.effective.0) in
      let address_is : (udp_in w0 protocol.state).destination_address ≡ "192.168.30.1" =
        ap (λ u. u.destination_address) protocol.effective.0
        ∙ ap (λ u. u.destination_address) address.effective.0 in
      let protocol_is : (udp_in w0 protocol.state).protocol ≡ hrzr =
        ap (λ u. u.protocol) protocol.effective.0 in
      rw
        (
          connect_to_msr4_lem w connected,
          port.returns,
          address.returns,
          protocol.returns,
          read.0,
          read.1,
          read.2,
          port_is,
          address_is,
          protocol_is,
        )
        refl
