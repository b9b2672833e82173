-- ===== src/Dpdk.antt =====
-- DpdkSource (include/iqClient/dpdkSource/dpdkSource.h and src/dpdkSource/dpdkSource.cc): its data.
-- DPDK is a parameter: the ring by its operations and laws, the network card by the bursts that it
-- delivers, the environment layer by what its calls answer.
pub mod Rx
pub mod Samples
pub mod Setup
pub mod Dump
pub mod Threads
use rs_jerry_driver.Common.{
  ℕ, suc, ◌+◌, ◌<◌, ◌≡◌, ℤ, Bool, true, false, List, [], ◌∷◌, ◌++◌, Option, none, some, length,
}
use rs_jerry_driver.Floats.{FloatOps}
use rs_jerry_driver.Header.{PacketType, data_packet, data_end_of_burst}
use rs_jerry_driver.Parser.{HrzrParser}

-- A received buffer: the fields of `hrzr_packet_all_headers` that the code reads, as the bytes lie
-- in memory, the bytes of the data room behind the headers, and the length of the packet.
pub record Mbuf : Type 0 where
  pub next_proto_id : ℕ
  pub ether_type : ℕ
  pub dst_port : ℕ
  pub hrzr : ℕ
  pub payload : List ℕ
  pub pkt_len : ℕ

-- `sizeof(struct hrzr_packet_all_headers)`, packed: Ethernet 14, IPv4 20, UDP 8, HRZR 8.
abbrev pub all_headers_size : ℕ
all_headers_size = 50

abbrev pub ipproto_udp : ℕ
ipproto_udp = 17

abbrev pub ether_type_ipv4 : ℕ
ether_type_ipv4 = 0x0800

-- The ring of DPDK. `rte_ring_enqueue` appends the object, or does nothing where the ring is full.
pub record RingOps : Type 1 where
  pub Ring : Type 0
  pub contents : Ring → List Mbuf
  pub capacity : Ring → ℕ
  pub enqueue : Mbuf → Ring → Ring
  pub enqueue_room :
      (m : Mbuf) (r : Ring)
      → length (contents r) < capacity r
      → contents (enqueue m r) ≡ contents r ++ m ∷ []
  pub enqueue_full :
      (m : Mbuf) (r : Ring) → length (contents r) ≡ capacity r → contents (enqueue m r) ≡ contents r
  pub capacity-enqueue : (m : Mbuf) (r : Ring) → capacity (enqueue m r) ≡ capacity r

unfoldable pub is_valid_packet_type : PacketType → Bool
is_valid_packet_type data_packet = true
is_valid_packet_type data_end_of_burst = true
is_valid_packet_type _ = false

module _ (floats : FloatOps) (rings : RingOps) where
  pub record StreamAttr : Type 0 where
    pub l_cores : ℤ × ℤ
    pub dpdk_port_id : ℤ
    pub udp_rx_port : ℕ
    pub mbuf_pool : Option ℕ
    pub ring : Option rings.Ring

  pub record DpdkSource : Type 0 where
    pub hrzr_parser : HrzrParser floats
    pub streams : List StreamAttr
    pub num_streams : ℕ
    pub quit : Bool
    pub total_packets : ℕ
    pub total_packets_lost : ℕ
