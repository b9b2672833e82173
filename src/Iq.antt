-- ===== src/Iq.antt =====
-- IqClient (include/iqClient/iqClient.h and src/iqClient/iqClient.cc): the settings of the receiver
-- and SendPayload. A method is a function from the client and the state of the receiver to what it
-- returns or throws and their new states.
pub mod Configure
pub mod Store
pub mod Settings
pub mod Applied
pub mod Testing
pub mod Payload
pub mod Sources
mod Examples
use Prim.Native.String.{String}
use rs_jerry_driver.Common.{
  ℕ, zero, suc, ◌+◌, ◌*◌, ℤ, pos, Bool, true, false, List, [], ◌∷◌, Option, none, some, Result, ok,
  err, defined, invalid_value, not_implemented, Error, get_elem?, set, replicate, bits16, ◌==◌,
  if◌then◌else◌,
}
use rs_jerry_driver.Common.Run.{Run, ◌>>=◌, ◌>>◌, continue, returns, throws, lift}
use rs_jerry_driver.Floats.{FloatOps, Complex}
use rs_jerry_driver.Json.{
  JsonOps, StreamingStruct, ChannelStruct, get_root, get_login_struct, get_rx_channel_struct,
  get_stream_struct, get_channel_struct,
}
use rs_jerry_driver.Messages.{
  DoubleOps, UdpSetting, ErrorMessage, Protocols, ammos, hrzr, RfSetting, ChannelSetting,
  is_streaming,
}
use rs_jerry_driver.Grpc
use rs_jerry_driver.Grpc.{Msr4Channel, rx1, rx2, rx3, rx4, GrpcClient, Receiver}
use rs_jerry_driver.Transmitter.{Transmitter, send_packet}

-- The members of the class but the sample source and the client of gRPC.
pub record IqClient (floats : FloatOps) : Type 0 where
  pub msr4_channel : Msr4Channel
  pub port_id : ℤ
  pub dump_mode : Bool
  pub norm : floats.Float
  pub grpc_client : GrpcClient

-- `if (err.errorcode() != 0) throw InvalidValueError(err.errormessage())`
abbrev pub require : {World : Type 0} → ErrorMessage → Run World (Unit {0})
require message = if message.error_code == 0 then returns tt else throws invalid_value

module _ (floats : FloatOps) (doubles : DoubleOps) (receiver : Receiver doubles) where
  open doubles use {Double, of_int}

  -- The client and the receiver.
  pub record World : Type 0 where
    pub client : IqClient floats
    pub state : receiver.State

  -- A call of GrpcClient, for the channel of the client.
  abbrev pub remote {ℓ} :
      {A : Type ℓ} → (GrpcClient → Msr4Channel → receiver.State → A × receiver.State) → Run World A
  remote call world =
      let result = call world.client.grpc_client world.client.msr4_channel world.state in
      (ok result.0, record world { state = result.1 })

  unfoldable pub msr4_login : Run World Bool
  msr4_login world =
      let result = Grpc.msr4_login doubles receiver world.client.grpc_client world.state in
      (
        ok result.0.0,
        record { client = record world.client { grpc_client = result.0.1 }; state = result.1 },
      )

  unfoldable pub set_msr4_credentials : String → String → Run World (Unit {0})
  set_msr4_credentials name password world =
      let grpc = Grpc.set_credentials name password world.client.grpc_client in
      (ok tt, record world { client = record world.client { grpc_client = grpc } })

  unfoldable pub set_msr4_ip : String → Run World (Unit {0})
  set_msr4_ip ip world =
      let grpc = Grpc.set_ip ip world.client.grpc_client in
      (ok tt, record world { client = record world.client { grpc_client = grpc } })

  unfoldable pub set_rx_channel : Msr4Channel → Run World (Unit {0})
  set_rx_channel rx world =
      (ok tt, record world { client = record world.client { msr4_channel = rx } })

  -- The UDP setting of the channel, read, changed and written back.
  abbrev pub write_udp_setting : (UdpSetting → UdpSetting) → Run World ErrorMessage
  write_udp_setting change = do
    setting ← remote (Grpc.get_udp_setting doubles receiver)
    remote (λ grpc channel. Grpc.set_udp_setting doubles receiver grpc channel (change setting))

  unfoldable pub set_port : ℤ → Run World ErrorMessage
  set_port port = write_udp_setting (λ setting. record setting { port = port })

  unfoldable pub set_destination_address : String → Run World ErrorMessage
  set_destination_address address =
      write_udp_setting (λ setting. record setting { destination_address = address })

  unfoldable pub set_protocol : Protocols → Run World ErrorMessage
  set_protocol ammos = throws not_implemented
  set_protocol hrzr = write_udp_setting (λ setting. record setting { protocol = hrzr })

  unfoldable pub set_streaming_status : Bool → Run World ErrorMessage
  set_streaming_status status = write_udp_setting (λ setting. record setting { base = some status })

  -- The RF setting of the channel, read, changed and written back.
  abbrev pub write_rf_setting : (RfSetting doubles → RfSetting doubles) → Run World ErrorMessage
  write_rf_setting change = do
    setting ← remote (Grpc.get_channel_settings doubles receiver)
    remote (λ grpc channel.
        Grpc.set_rf_setting doubles receiver grpc channel (change setting.rf_setting))

  unfoldable pub set_sat_frequency_hz : Double → Run World ErrorMessage
  set_sat_frequency_hz hz = write_rf_setting (λ rf. record rf { sat_frequency_hz = hz })

  unfoldable pub set_down_frequency_hz : Double → Run World ErrorMessage
  set_down_frequency_hz hz = write_rf_setting (λ rf. record rf { down_frequency_hz = hz })

  unfoldable pub set_bandwidth_by_sample_rate : Double → Run World ErrorMessage
  set_bandwidth_by_sample_rate rate =
      remote (λ grpc channel.
        Grpc.set_bandwidth_setting_by_sample_rate doubles receiver grpc channel rate)

  unfoldable pub set_bandwidth_by_analysis_bandwidth : Double → Run World ErrorMessage
  set_bandwidth_by_analysis_bandwidth hz = remote (λ grpc channel.
      Grpc.set_bandwidth_setting_by_analysis_bandwidth doubles receiver grpc channel hz)

  unfoldable pub get_port : Run World ℤ
  get_port = do setting ← remote (Grpc.get_udp_setting doubles receiver); returns setting.port

  unfoldable pub get_destination_address : Run World String
  get_destination_address = do
    setting ← remote (Grpc.get_udp_setting doubles receiver)
    returns setting.destination_address

  unfoldable pub get_protocol : Run World Protocols
  get_protocol = do
    setting ← remote (Grpc.get_udp_setting doubles receiver)
    returns setting.protocol

  unfoldable pub get_streaming_status : Run World Bool
  get_streaming_status = do
    setting ← remote (Grpc.get_udp_setting doubles receiver)
    returns (is_streaming setting)

  unfoldable pub get_sat_frequency_hz : Run World Double
  get_sat_frequency_hz = do
    setting ← remote (Grpc.get_channel_settings doubles receiver)
    returns setting.rf_setting.sat_frequency_hz

  unfoldable pub get_down_frequency_hz : Run World Double
  get_down_frequency_hz = do
    setting ← remote (Grpc.get_channel_settings doubles receiver)
    returns setting.rf_setting.down_frequency_hz

  unfoldable pub get_sample_rate : Run World Double
  get_sample_rate = do
    setting ← remote (Grpc.get_channel_settings doubles receiver)
    returns setting.bandwidth_setting.sample_rate_hz

  unfoldable pub get_analysis_bandwidth : Run World Double
  get_analysis_bandwidth = do
    setting ← remote (Grpc.get_channel_settings doubles receiver)
    returns setting.bandwidth_setting.analysis_bandwidth_hz
