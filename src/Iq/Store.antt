-- ===== src/Iq/Store.antt =====
-- What the client relies on of a receiver, and that the setters and getters of IqClient are those
-- of a store of settings.
use Prim.Native.String.{String}
use rs_jerry_driver.Common.{ℕ, ◌≡◌, ◌≢◌, refl, ◌∙◌, Option, some, Result, ok}
use rs_jerry_driver.Floats.{FloatOps}
use rs_jerry_driver.Messages.{DoubleOps, UdpSetting, ErrorMessage, ChannelSetting, RfSetting}
use rs_jerry_driver.Grpc
use rs_jerry_driver.Grpc.{Endpoint, Receiver, channel_port, generate_stub}
use rs_jerry_driver.Iq.{World, write_udp_setting, write_rf_setting}

-- A call that replies with a message, and has its effect where the code of the message is 0.
-- Where it is not, the call is refused.
abbrev pub Replies :
    {State : Type 0} (effect refused frame : State → Type 0) → State × Option ErrorMessage → Type 0
Replies effect refused frame result =
    (state : _) × (message : ErrorMessage) × (result ≡ (state, some message))
    × (message.error_code ≡ 0 → effect state)
    × (message.error_code ≢ 0 → refused state)
    × frame state

module _ (doubles : DoubleOps) (receiver : Receiver doubles) where
  open doubles use {Double}
  open receiver use {State}

  -- Only the settings behind one port may differ.
  pub record Frame (udp : ℕ → State → UdpSetting) (channel : ℕ → State → ChannelSetting doubles)
      (port : ℕ) (state state' : State) : Type 0 where
    pub other_udp : (p : ℕ) → p ≢ port → udp p state' ≡ udp p state
    pub other_channel : (p : ℕ) → p ≢ port → channel p state' ≡ channel p state

  -- The settings behind a port are as before.
  pub record Unchanged (udp : ℕ → State → UdpSetting) (channel : ℕ → State → ChannelSetting doubles)
      (port : ℕ) (state state' : State) : Type 0 where
    pub same_udp : udp port state' ≡ udp port state
    pub same_channel : channel port state' ≡ channel port state

  -- A receiver that serves a client: reading gives the settings behind the port of the address and
  -- changes nothing; a write whose reply has the code 0 is stored, but for the interface, which
  -- proto/streamingSettings.proto says a write does not change; a write that is refused stores
  -- nothing.
  pub record Store : Type 1 where
    pub serves : Endpoint → String → Type 0
    pub udp : ℕ → State → UdpSetting
    pub channel : ℕ → State → ChannelSetting doubles
    pub reads_udp :
        (e : Endpoint) (token : String) (s : State)
        → serves e token
        → receiver.get_udp_setting e token s ≡ (s, some (udp e.port s))
    pub reads_channel :
        (e : Endpoint) (token : String) (s : State)
        → serves e token
        → receiver.get_channel_setting e token s ≡ (s, some (channel e.port s))
    pub writes_udp :
        (e : Endpoint) (token : String) (x : UdpSetting) (s : State)
        → serves e token
        → Replies
            (λ s'. udp e.port s' ≡ record x { sfp_interface = (udp e.port s).sfp_interface })
            (λ s'. Unchanged udp channel e.port s s')
            (λ s'. Frame udp channel e.port s s' × (channel e.port s' ≡ channel e.port s))
            (receiver.set_udp_setting e token x s)
    pub writes_rf :
        (e : Endpoint) (token : String) (x : RfSetting doubles) (s : State)
        → serves e token
        → Replies
            (λ s'. channel e.port s' ≡ record (channel e.port s) { rf_setting = x })
            (λ s'. Unchanged udp channel e.port s s')
            (λ s'. Frame udp channel e.port s s' × (udp e.port s' ≡ udp e.port s))
            (receiver.set_rf_setting e token x s)
    pub writes_bandwidth :
        (e : Endpoint) (token : String) (x : Double) (s : State)
        → serves e token
        → Replies
            (λ s'.
              ((channel e.port s').bandwidth_setting.analysis_bandwidth_hz ≡ x)
              × ((channel e.port s').rf_setting ≡ (channel e.port s).rf_setting))
            (λ s'. Unchanged udp channel e.port s s')
            (λ s'. Frame udp channel e.port s s' × (udp e.port s' ≡ udp e.port s))
            (receiver.set_analysis_bandwidth e token x s)
    pub writes_sample_rate :
        (e : Endpoint) (token : String) (x : Double) (s : State)
        → serves e token
        → Replies
            (λ s'.
              ((channel e.port s').bandwidth_setting.sample_rate_hz ≡ x)
              × ((channel e.port s').rf_setting ≡ (channel e.port s).rf_setting))
            (λ s'. Unchanged udp channel e.port s s')
            (λ s'. Frame udp channel e.port s s' × (udp e.port s' ≡ udp e.port s))
            (receiver.set_sample_rate e token x s)

pub Frame-refl :
    (doubles : DoubleOps) (receiver : Receiver doubles) (udp : ℕ → receiver.State → UdpSetting)
    (channel : ℕ → receiver.State → ChannelSetting doubles) (port : ℕ) (a : receiver.State)
    → Frame doubles receiver udp channel port a a
Frame-refl doubles receiver udp channel port a = record {
  other_udp = λ p h. refl;
  other_channel = λ p h. refl;
}

pub Frame-trans :
    {doubles : DoubleOps} {receiver : Receiver doubles} {udp : ℕ → receiver.State → UdpSetting}
    {channel : ℕ → receiver.State → ChannelSetting doubles} {port : ℕ} {a b c : receiver.State}
    → Frame doubles receiver udp channel port a b
    → Frame doubles receiver udp channel port b c
    → Frame doubles receiver udp channel port a c
Frame-trans f g = record {
  other_udp = λ p h. g.other_udp p h ∙ f.other_udp p h;
  other_channel = λ p h. g.other_channel p h ∙ f.other_channel p h;
}

module _ (floats : FloatOps) (doubles : DoubleOps) (receiver : Receiver doubles)
    (store : Store doubles receiver) where
  open doubles use {Double}
  open receiver use {State}

  abbrev pub port_of : World floats doubles receiver → ℕ
  port_of w = channel_port w.client.msr4_channel

  abbrev pub udp_of : World floats doubles receiver → UdpSetting
  udp_of w = store.udp (port_of w) w.state

  abbrev pub channel_of : World floats doubles receiver → ChannelSetting doubles
  channel_of w = store.channel (port_of w) w.state

  -- The receiver serves the client on its channel.
  abbrev pub Served : World floats doubles receiver → Type 0
  Served w =
      store.serves (record { host = w.client.grpc_client.ip; port = port_of w })
        w.client.grpc_client.token

  -- The method returned a message and left the client alone; where the code of the message is 0,
  -- the setting was changed; settings behind other ports never change.
  pub record Writes (w : World floats doubles receiver) (effect : State → Type 0)
      (result : Result ErrorMessage × World floats doubles receiver) : Type 0 where
    pub state : State
    pub message : ErrorMessage
    pub returns : result ≡ (ok message, record w { state = state })
    pub effective : message.error_code ≡ 0 → effect state
    pub refused :
        message.error_code ≢ 0
        → Unchanged doubles receiver store.udp store.channel (port_of w) w.state state
    pub frame : Frame doubles receiver store.udp store.channel (port_of w) w.state state

  -- The effect of a write of the UDP setting.
  abbrev pub UdpBecomes : (UdpSetting → UdpSetting) → World floats doubles receiver → State → Type 0
  UdpBecomes change w s =
      (store.udp (port_of w) s ≡ change (udp_of w)) × (store.channel (port_of w) s ≡ channel_of w)

  abbrev pub ChannelBecomes :
      (ChannelSetting doubles → ChannelSetting doubles)
      → World floats doubles receiver
      → State
      → Type 0
  ChannelBecomes change w s =
      (store.channel (port_of w) s ≡ change (channel_of w)) × (store.udp (port_of w) s ≡ udp_of w)

  pub write_udp_setting_lem :
      (change : UdpSetting → UdpSetting) (w : World floats doubles receiver)
      → ((u : UdpSetting) → record (change u) { sfp_interface = u.sfp_interface } ≡ change u)
      → Served w
      → Writes w (UdpBecomes change w) (write_udp_setting floats doubles receiver change w)
  unfolding Grpc.get_udp_setting Grpc.set_udp_setting generate_stub
  write_udp_setting_lem change w same served =
      let e : Endpoint = record { host = w.client.grpc_client.ip; port = port_of w } in
      let token = w.client.grpc_client.token in
      let (s, message, replied, effect, refused, frame) =
        store.writes_udp e token (change (udp_of w)) w.state served in
      record {
        state = s;
        message = message;
        returns = rw (store.reads_udp e token w.state served, replied) refl;
        effective = λ zero_code. (effect zero_code ∙ same (udp_of w), frame.1);
        refused = refused;
        frame = frame.0;
      }

  pub write_rf_setting_lem :
      (change : RfSetting doubles → RfSetting doubles) (w : World floats doubles receiver)
      → Served w
      → Writes w
          (ChannelBecomes (λ c. record c { rf_setting = change c.rf_setting }) w)
          (write_rf_setting floats doubles receiver change w)
  unfolding Grpc.get_channel_settings Grpc.set_rf_setting generate_stub
  write_rf_setting_lem change w served =
      let e : Endpoint = record { host = w.client.grpc_client.ip; port = port_of w } in
      let token = w.client.grpc_client.token in
      let (s, message, replied, effect, refused, frame) =
        store.writes_rf e token (change (channel_of w).rf_setting) w.state served in
      record {
        state = s;
        message = message;
        returns = rw (store.reads_channel e token w.state served, replied) refl;
        effective = λ zero_code. (effect zero_code, frame.1);
        refused = refused;
        frame = frame.0;
      }
