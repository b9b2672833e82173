-- ===== src/Grpc.antt =====
-- GrpcClient (include/iqClient/grpcClient.h and src/grpcClient/grpcClient.cc). The receiver is a
-- parameter: each remote call takes the address, the token of the context and a request, and gives
-- the new state of the receiver with the reply, or without one where the call fails; the reply's
-- message then stays as it was.
use Prim.Native.String.{String}
use rs_jerry_driver.Common.{ℕ, Bool, true, false, Option, none, some}
use rs_jerry_driver.Messages.{
  DoubleOps, UdpSetting, ErrorMessage, Credentials, RfSetting, ChannelSetting, empty_udp_setting,
  empty_error_message, empty_channel_setting, NetworkStreamingSetting, NetworkStreamingSettings,
  ReadyMessage, UdpStatus, empty_network_settings, empty_ready_message, empty_udp_status,
}

pub data Msr4Channel : Type 0 where
  rx1 rx2 rx3 rx4 : Msr4Channel

-- The values of the enumeration.
abbrev pub channel_port : Msr4Channel → ℕ
channel_port rx1 = 50055
channel_port rx2 = 50056
channel_port rx3 = 50057
channel_port rx4 = 50058

-- The address `ip:port` of a channel of gRPC.
pub record Endpoint : Type 0 where
  pub host : String
  pub port : ℕ

pub record GrpcClient : Type 0 where
  pub creds : Credentials
  pub ip : String
  pub token : String

-- The constructor: every member is empty.
unfoldable pub new_grpc_client : GrpcClient
new_grpc_client = record { creds = record { name = ""; password = "" }; ip = ""; token = "" }

unfoldable pub set_credentials : String → String → GrpcClient → GrpcClient
set_credentials name password grpc = record grpc {
  creds = record { name = name; password = password };
}

unfoldable pub set_ip : String → GrpcClient → GrpcClient
set_ip ip grpc = record grpc { ip = ip }

-- The address of the stub for a channel; the token is the context's.
unfoldable pub generate_stub : GrpcClient → Msr4Channel → Endpoint
generate_stub grpc channel = record { host = grpc.ip; port = channel_port channel }

-- What the message of a reply holds after a call.
abbrev pub reply {ℓ} : {State : Type 0} {A : Type ℓ} → A → State × Option A → A × State
reply message (state, none) = (message, state)
reply message (state, some a) = (a, state)

module _ (doubles : DoubleOps) where
  open doubles use {Double}

  pub record Receiver : Type 1 where
    pub State : Type 0
    pub login : Endpoint → Credentials → State → State × Option String
    pub get_channel_setting : Endpoint → String → State → State × Option (ChannelSetting doubles)
    pub set_rf_setting : Endpoint → String → RfSetting doubles → State → State × Option ErrorMessage
    pub set_sample_rate : Endpoint → String → Double → State → State × Option ErrorMessage
    pub set_analysis_bandwidth : Endpoint → String → Double → State → State × Option ErrorMessage
    pub auto_level : Endpoint → String → State → State × Option ErrorMessage
    pub get_udp_setting : Endpoint → String → State → State × Option UdpSetting
    pub set_udp_setting : Endpoint → String → UdpSetting → State → State × Option ErrorMessage
    pub get_network : Endpoint → String → State → State × Option NetworkStreamingSettings
    pub set_network :
        Endpoint → String → NetworkStreamingSetting → State → State × Option ErrorMessage
    pub udp_status : Endpoint → String → State → State × Option (UdpStatus doubles)
    pub udp_status_ready : Endpoint → String → State → State × Option ReadyMessage

  module _ (receiver : Receiver) where
    open receiver use {State}

    -- `MSR4Login`: whether it succeeds, and the client with the token of the reply.
    unfoldable pub msr4_login : GrpcClient → State → (Bool × GrpcClient) × State
    msr4_login grpc state =
        let answer = receiver.login (record { host = grpc.ip; port = 50060 }) grpc.creds state in
        elim answer.1 [
          | none ↦ ((false, grpc), answer.0)
          | some token ↦ ((true, record grpc { token = token }), answer.0)
        ]

    module _ (grpc : GrpcClient) (channel : Msr4Channel) where
      unfoldable pub get_channel_settings : State → ChannelSetting doubles × State
      unfolding generate_stub
      get_channel_settings state =
          reply (empty_channel_setting doubles)
            (receiver.get_channel_setting (generate_stub grpc channel) grpc.token state)

      unfoldable pub set_rf_setting : RfSetting doubles → State → ErrorMessage × State
      unfolding generate_stub
      set_rf_setting setting state =
          reply empty_error_message
            (receiver.set_rf_setting (generate_stub grpc channel) grpc.token setting state)

      unfoldable pub set_bandwidth_setting_by_sample_rate : Double → State → ErrorMessage × State
      unfolding generate_stub
      set_bandwidth_setting_by_sample_rate rate state =
          reply empty_error_message
            (receiver.set_sample_rate (generate_stub grpc channel) grpc.token rate state)

      unfoldable pub set_bandwidth_setting_by_analysis_bandwidth :
          Double → State → ErrorMessage × State
      unfolding generate_stub
      set_bandwidth_setting_by_analysis_bandwidth bandwidth state =
          reply empty_error_message (
            receiver.set_analysis_bandwidth (generate_stub grpc channel) grpc.token bandwidth state)

      unfoldable pub auto_level : State → ErrorMessage × State
      unfolding generate_stub
      auto_level state =
          reply empty_error_message
            (receiver.auto_level (generate_stub grpc channel) grpc.token state)

      unfoldable pub get_udp_setting : State → UdpSetting × State
      unfolding generate_stub
      get_udp_setting state =
          reply empty_udp_setting
            (receiver.get_udp_setting (generate_stub grpc channel) grpc.token state)

      unfoldable pub set_udp_setting : UdpSetting → State → ErrorMessage × State
      unfolding generate_stub
      set_udp_setting setting state =
          reply empty_error_message
            (receiver.set_udp_setting (generate_stub grpc channel) grpc.token setting state)

      unfoldable pub get_network_streaming_settings : State → NetworkStreamingSettings × State
      unfolding generate_stub
      get_network_streaming_settings state =
          reply empty_network_settings
            (receiver.get_network (generate_stub grpc channel) grpc.token state)

      unfoldable pub set_network_streaming_setting :
          NetworkStreamingSetting → State → ErrorMessage × State
      unfolding generate_stub
      set_network_streaming_setting setting state =
          reply empty_error_message
            (receiver.set_network (generate_stub grpc channel) grpc.token setting state)

      unfoldable pub get_udp_status : State → UdpStatus doubles × State
      unfolding generate_stub
      get_udp_status state =
          reply (empty_udp_status doubles)
            (receiver.udp_status (generate_stub grpc channel) grpc.token state)

      unfoldable pub is_udp_status_ready : State → ReadyMessage × State
      unfolding generate_stub
      is_udp_status_ready state =
          reply empty_ready_message
            (receiver.udp_status_ready (generate_stub grpc channel) grpc.token state)
