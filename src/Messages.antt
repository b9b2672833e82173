-- ===== src/Messages.antt =====
-- The messages of the gRPC interface of the receiver (proto/*.proto), as far as the client reads or
-- writes them, and the type `double` as a parameter.
use Prim.Native.String.{String}
use rs_jerry_driver.Common.{ℕ, ℤ, pos, Bool, false, Option, none, some, List, []}

pub record DoubleOps : Type 1 where
  pub Double : Type 0
  pub of_int : ℤ → Double

-- `Protocols`, where AMMOS is the default.
pub data Protocols : Type 0 where
  ammos hrzr : Protocols

-- `UdpSetting`; `base` is a message that may be absent, and holds `isStreaming`.
pub record UdpSetting : Type 0 where
  pub port : ℤ
  pub destination_address : String
  pub protocol : Protocols
  pub sfp_interface : ℕ
  pub base : Option Bool

pub record ErrorMessage : Type 0 where
  pub error_code : ℕ
  pub error_type : ℕ
  pub error_message : String

pub record Credentials : Type 0 where
  pub name : String
  pub password : String

-- The settings of a network interface.
pub record NetworkStreamingSetting : Type 0 where
  pub ip_address : String
  pub subnet_mask : String
  pub gateway : String
  pub sfp_interface : ℕ

abbrev pub NetworkStreamingSettings : Type 0
NetworkStreamingSettings = List NetworkStreamingSetting

pub record ReadyMessage : Type 0 where
  pub is_ready : Bool

-- `no_error` is OK.
pub data StreamErrors : Type 0 where
  no_error sfp_not_present connection_party_did_not_respond sfp_link_down : StreamErrors

-- `StreamStatusBase`; `error` is a message that may be absent.
pub record StreamStatusBase : Type 0 where
  pub is_streaming_now : Bool
  pub error : Option StreamErrors

-- A message that nothing was written to.
abbrev pub empty_network_settings : NetworkStreamingSettings
empty_network_settings = []

abbrev pub empty_ready_message : ReadyMessage
empty_ready_message = record { is_ready = false }

abbrev pub empty_udp_setting : UdpSetting
empty_udp_setting = record {
  port = pos 0;
  destination_address = "";
  protocol = ammos;
  sfp_interface = 0;
  base = none;
}

abbrev pub empty_error_message : ErrorMessage
empty_error_message = record { error_code = 0; error_type = 0; error_message = "" }

-- `base().isstreaming()`: an absent message reads as the default.
abbrev pub is_streaming : UdpSetting → Bool
is_streaming setting = elim setting.base [ none ↦ false | some b ↦ b ]

module _ (doubles : DoubleOps) where
  open doubles use {Double, of_int}

  pub record RfSetting : Type 0 where
    pub sat_frequency_hz : Double
    pub down_frequency_hz : Double

  pub record BandwidthSetting : Type 0 where
    pub sample_rate_hz : Double
    pub analysis_bandwidth_hz : Double

  pub record ChannelSetting : Type 0 where
    pub rf_setting : RfSetting
    pub bandwidth_setting : BandwidthSetting

  abbrev pub empty_channel_setting : ChannelSetting
  empty_channel_setting = record {
    rf_setting = record { sat_frequency_hz = of_int (pos 0); down_frequency_hz = of_int (pos 0) };
    bandwidth_setting = record {
      sample_rate_hz = of_int (pos 0);
      analysis_bandwidth_hz = of_int (pos 0);
    };
  }

  pub record UdpStatus : Type 0 where
    pub datarate_gbits : Double
    pub status_base : Option StreamStatusBase

  abbrev pub empty_udp_status : UdpStatus
  empty_udp_status = record { datarate_gbits = of_int (pos 0); status_base = none }
