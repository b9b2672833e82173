-- ===== src/Udp.antt =====
-- UdpSource (include/iqClient/udpSource/udpSource.h and src/udpSource/udpSource.cc).
-- The sockets are a parameter: what `socket`, `inet_pton` and `bind` answer, and the queue of
-- results that `recv` will deliver. A run that throws, exits or is undefined returns no state.
pub mod Receive
pub mod Loop
pub mod Offset
mod Examples
use Prim.Native.String.{String}
use rs_jerry_driver.Common.{
  ℕ, zero, suc, ◌+◌, ◌-◌, ◌/◌, ℤ, pos, negsuc, Bool, true, false, List, [], ◌∷◌, ◌++◌, Option, none,
  some, Result, ok, err, ◌>>=◌, exit_process, blocked, checked_int, length, take, drop, replicate,
  htons, le_word, words16, if◌then◌else◌, ◌==◌,
}
use rs_jerry_driver.Definitions.{packet_size, samples_per_packet}
use rs_jerry_driver.Floats.{FloatOps, Complex}
use rs_jerry_driver.Header.{PacketType, data_packet, get_control_from_header}
use rs_jerry_driver.Net.{SockAddr, af_inet}
use rs_jerry_driver.Parser.{HrzrParser, new_hrzr_parser, parse_payload_samples}

-- The answers of the socket calls: `none` and `false` are their failures.
pub record Sockets : Type 0 where
  pub socket : Option ℕ
  pub inet_pton : String → Option ℕ
  pub bind : ℕ → SockAddr → Bool

-- What one `recv` delivers: -1, or a datagram.
pub data Arrival : Type 0 where
  failed : Arrival
  datagram : List ℕ → Arrival

abbrev pub server : String
server = "192.168.50.1"

abbrev pub port_number : ℕ
port_number = 12

unfoldable pub is_data : PacketType → Bool
is_data data_packet = true
is_data _ = false

-- The rounds of the loop `packet_idx < packets_to_dequeue`; `int` division rounds towards 0.
unfoldable pub packets_to_dequeue : ℤ → ℕ
packets_to_dequeue (pos n) = n / samples_per_packet + 1
packets_to_dequeue (negsuc n) = 1 - suc n / samples_per_packet

-- `die` and `exit(1)` end the process.
unfoldable pub exit_unless {ℓ} : {A : Type ℓ} → Option A → Result A
exit_unless none = err exit_process
exit_unless (some a) = ok a

module _ (floats : FloatOps) where
  open floats use {Float}

  pub record UdpSource : Type 0 where
    pub ip : String
    pub port : ℤ
    pub buf : List ℕ
    pub si_other : SockAddr
    pub s : ℕ
    pub hrzr_parser : HrzrParser floats

  unfoldable pub set_ip : String → UdpSource → UdpSource
  set_ip ip source = record source { ip = ip }

  unfoldable pub set_port : ℤ → UdpSource → UdpSource
  set_port port source = record source { port = port }

  unfoldable pub connect : Sockets → UdpSource → Result UdpSource
  unfolding exit_unless
  connect sockets source = do
    s ← exit_unless sockets.socket
    addr ← exit_unless (sockets.inet_pton server)
    let si_other : SockAddr = record { family = af_inet; port = htons port_number; addr = addr }
    if sockets.bind s si_other
        then ok (record source { s = s; si_other = si_other })
        else err exit_process

  -- The constructor; the members that it leaves alone hold what the memory held.
  unfoldable pub new_udp_source : Sockets → UdpSource → Float → Result UdpSource
  new_udp_source sockets memory norm = do
    parser ← new_hrzr_parser floats norm
    connect sockets (record memory { ip = ""; hrzr_parser = parser })

  -- The source, the caller's array and what the network has yet to deliver.
  pub record Receiving : Type 0 where
    pub source : UdpSource
    pub samples : List (Complex Float)
    pub queue : List Arrival

  -- `recv(s, buf, PACKET_SIZE, 0)`: the bytes of a datagram beyond the size are dropped, and the
  -- buffer keeps what a shorter one does not overwrite. A failure ends in `die`.
  unfoldable pub recv : List Arrival → Receiving → Result (Receiving × ℕ)
  recv [] r = err blocked
  recv (failed ∷ queue) r = err exit_process
  recv (datagram bytes ∷ queue) r =
      let got = take packet_size bytes in
      let source' = record r.source { buf = got ++ drop (length got) r.source.buf } in
      ok (record r { source = source'; queue = queue }, length got)

  -- What the loop does with a packet of the full size.
  unfoldable pub handle_packet : ℕ → Receiving → Result (Receiving × ℕ)
  unfolding is_data
  handle_packet packet_idx r = do
    control ← get_control_from_header (le_word (take 8 r.source.buf))
    if is_data control
        then (do
          parsed ←
              parse_payload_samples floats r.source.hrzr_parser packet_idx (words16 r.source.buf)
                r.samples
          ok (record r { samples = parsed.0 }, parsed.1))
        else ok (r, 0)

  -- The body of the loop.
  unfoldable pub receive_packet : ℕ → Receiving → Result (Receiving × ℕ)
  receive_packet packet_idx r = do
    received ← recv r.queue r
    if received.1 == packet_size then handle_packet packet_idx received.0 else ok (received.0, 0)

  -- The rounds that are left. The index of a packet stays below the number of rounds, an `int`.
  unfoldable pub receive_from : ℕ → ℕ → ℕ → Receiving → Result (Receiving × ℕ)
  receive_from zero packet_idx total r = ok (r, total)
  receive_from (suc left) packet_idx total r = do
    received ← receive_packet packet_idx r
    total' ← checked_int (total + received.1)
    receive_from left (packet_idx + 1) total' received.0

  unfoldable pub get_samples : ℤ → Receiving → Result (Receiving × ℕ)
  get_samples number_of_samples r = receive_from (packets_to_dequeue number_of_samples) 0 0 r
