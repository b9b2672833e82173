-- ===== src/Transmitter.antt =====
-- HrzrUdpTransmitter (include/iqClient/udpTransmitter/hrzrUdpTransmitter.h and
-- src/udpTransmitter/hrzrUdpTransmitter.cc). Samples are the bit patterns of `int16_t`; an array
-- that nothing has written yet holds what a parameter says the memory held.
pub mod Datagram
pub mod Sequence
pub mod Readback
mod Examples
use Prim.Native.String.{String}
use rs_jerry_driver.Common.{
  ℕ, zero, suc, ◌+◌, ◌*◌, ◌/◌, ◌%◌, ◌^◌, List, [], ◌∷◌, ◌++◌, Option, none, some, Result, ok, err,
  ◌>>=◌, undefined, bit_or, u16, htons, bytes16, length, take, drop, if◌then◌else◌, ◌==◌, leb,
}
use rs_jerry_driver.Definitions.{samples_per_packet, sample_size_in_byte}
use rs_jerry_driver.Net.{SockAddr, af_inet}

pub record HrzrHeader : Type 0 where
  pub control : ℕ
  pub sequence_number : ℕ
  pub total_packet_length : ℕ
  pub source_id : ℕ

pub record HrzrPayload : Type 0 where
  pub samples : List ℕ

-- The packed structure of 1472 bytes; `samples` is the array of 732 elements.
pub record HrzrPacket : Type 0 where
  pub ctrl_and_seq_nb : ℕ
  pub total_pck_len : ℕ
  pub src_id : ℕ
  pub samples : List ℕ

pub record Transmitter : Type 0 where
  pub local : SockAddr
  pub dest : SockAddr
  pub my_sock : ℕ
  pub current_sequence_number : ℕ

-- The constructor leaves the other members as the memory held them.
unfoldable pub new_transmitter : Transmitter → Transmitter
new_transmitter memory = record memory { current_sequence_number = 0 }

-- `inet_pton` writes the address if the text is one; its result is not tested.
unfoldable pub convert_addr : (String → Option ℕ) → String → SockAddr → SockAddr
convert_addr inet_pton ip sock = elim (inet_pton ip) [
  | none ↦ sock
  | some a ↦ record sock { addr = a }
]

unfoldable pub set_local_sockaddr : (String → Option ℕ) → String → ℕ → Transmitter → Transmitter
unfolding convert_addr
set_local_sockaddr inet_pton ip port t =
    let sock = convert_addr inet_pton ip (record t.local { family = af_inet }) in
    record t { local = record sock { port = port } }

unfoldable pub set_dest_sockaddr : (String → Option ℕ) → String → ℕ → Transmitter → Transmitter
unfolding convert_addr
set_dest_sockaddr inet_pton ip port t =
    let sock = convert_addr inet_pton ip (record t.dest { family = af_inet }) in
    record t { dest = record sock { port = htons port } }

-- The calls on the socket, whose results are not tested.
pub data SocketCall : Type 0 where
  bind connect : ℕ → SockAddr → SocketCall

unfoldable pub open_socket_and_connect : ℕ → Transmitter → Transmitter × List SocketCall
open_socket_and_connect sock t =
    (record t { my_sock = sock }, bind sock t.local ∷ connect sock t.dest ∷ [])

unfoldable pub make_hrzr_header : Transmitter → ℕ → HrzrHeader
make_hrzr_header t num_samples = record {
  control = 0;
  sequence_number = t.current_sequence_number;
  source_id = 0;
  total_packet_length = u16 (8 + num_samples * sample_size_in_byte);
}

unfoldable pub make_hrzr_payload : List ℕ → HrzrPayload
make_hrzr_payload samples = record { samples = samples }

-- `memcpy` past the end of the array is undefined.
unfoldable pub make_hrzr_packet : List ℕ → HrzrHeader → HrzrPayload → Result HrzrPacket
make_hrzr_packet memory header payload =
    if leb (length payload.samples) (samples_per_packet * 2)
    then ok (record {
      ctrl_and_seq_nb = u16 (bit_or (header.control * 2 ^ 12) header.sequence_number);
      total_pck_len = header.total_packet_length;
      src_id = header.source_id;
      samples = payload.samples ++ drop (length payload.samples) memory;
    })
    else err undefined

-- The structure as it lies in memory, on a little-endian host.
unfoldable pub packet_bytes : HrzrPacket → List ℕ
packet_bytes p =
    bytes16
      (p.ctrl_and_seq_nb ∷ p.total_pck_len ∷ p.src_id % 2 ^ 16 ∷ p.src_id / 2 ^ 16 ∷ p.samples)

-- `send(my_sock, &packet, length, 0)`: the bytes of the datagram. A length beyond the structure
-- reads past its end.
unfoldable pub send : HrzrPacket → Result (List ℕ)
unfolding packet_bytes
send p =
    if leb p.total_pck_len (length (packet_bytes p))
    then ok (take p.total_pck_len (packet_bytes p))
    else err undefined

-- The counter after a packet.
unfoldable pub next_sequence_number : ℕ → ℕ
next_sequence_number current = let next = u16 (current + 1) in if next == 4096 then 0 else next

-- The datagram and the new state; what `send` returns is not tested.
unfoldable pub send_packet : List ℕ → List ℕ → Transmitter → Result (Transmitter × List ℕ)
send_packet memory samples t = do
  let header = make_hrzr_header t (length samples / 2)
  let payload = make_hrzr_payload samples
  packet ← make_hrzr_packet memory header payload
  datagram ← send packet
  ok (
    record t { current_sequence_number = next_sequence_number t.current_sequence_number },
    datagram,
  )
