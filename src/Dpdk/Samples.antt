-- ===== src/Dpdk/Samples.antt =====
-- DpdkSource::getSamples. The card is a function: for a port and a number of packets, the packets
-- that `rte_eth_rx_burst` returns.
pub mod Dequeue
mod Examples
use rs_jerry_driver.Common.{
  ℕ, zero, suc, ◌+◌, ◌-◌, ◌/◌, ℤ, pos, negsuc, List, [], ◌∷◌, ◌++◌, Result, ok, err, ◌>>=◌, defined,
  undefined, checked_int, u16, words16, get_elem?, ◌==◌, if◌then◌else◌,
}
use rs_jerry_driver.Definitions.{samples_per_packet}
use rs_jerry_driver.Floats.{FloatOps, Complex}
use rs_jerry_driver.Parser.{parse_payload_samples}
use rs_jerry_driver.Dpdk.{Mbuf, RingOps, DpdkSource}

-- `(number_of_samples) / SAMPLES_PER_PACKET + 1`, where it is positive; 0 where it is not.
unfoldable pub packets_to_dequeue : ℤ → ℕ
packets_to_dequeue (pos n) = n / samples_per_packet + 1
packets_to_dequeue (negsuc n) = 1 - suc n / samples_per_packet

module _ (floats : FloatOps) (rings : RingOps) where
  open floats use {Float}

  -- The caller's array, the number of samples and the buffers that were freed.
  pub record Dequeued : Type 0 where
    pub samples : List (Complex Float)
    pub total : ℕ
    pub freed : List Mbuf

  -- The body of the loop: the payload is parsed, and the buffer freed.
  unfoldable pub dequeue_packet : DpdkSource floats rings → ℕ → Mbuf → Dequeued → Result Dequeued
  dequeue_packet source packet_idx m d = do
    parsed ←
        parse_payload_samples floats source.hrzr_parser packet_idx (words16 m.payload) d.samples
    total ← checked_int (d.total + parsed.1)
    ok (record { samples = parsed.0; total = total; freed = d.freed ++ m ∷ [] })

  unfoldable pub dequeue_from : DpdkSource floats rings → ℕ → List Mbuf → Dequeued → Result Dequeued
  dequeue_from source packet_idx [] d = ok d
  dequeue_from source packet_idx (m ∷ mbufs) d = do
    d' ← dequeue_packet source packet_idx m d
    dequeue_from source (packet_idx + 1) mbufs d'

  -- An array `mbufs` of no elements or fewer is undefined; the number of packets is passed as a
  -- `uint16_t`.
  unfoldable pub get_samples :
      ℕ → ℤ → (ℤ → ℕ → List Mbuf) → List (Complex Float) → DpdkSource floats rings → Result Dequeued
  get_samples num_stream number_of_samples rx_burst samples source = do
    stream ← defined (get_elem? source.streams num_stream)
    let packets = packets_to_dequeue number_of_samples
    if packets == 0
        then err undefined
        else dequeue_from source 0 (rx_burst stream.dpdk_port_id (u16 packets))
            (record { samples = samples; total = 0; freed = [] })
