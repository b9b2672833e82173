-- ===== src/Dpdk/Dump.antt =====
-- DpdkSource::dumpThread, which keeps what it receives in three queues and writes them to a file
-- after three seconds. Of the clock, each packet has the seconds since the start that are read
-- when it is handled; the file is its lines, as the codes of their characters.
pub mod Lines
pub mod Pushed
pub mod File
pub mod Loop
pub mod Readback
pub mod Lost
mod Examples
use rs_jerry_driver.Common.{
  ℕ, zero, suc, ◌+◌, ◌*◌, ◌/◌, ◌%◌, ◌^◌, ℤ, Bool, true, false, List, [], ◌∷◌, ◌++◌, Option, none,
  some, Result, ok, err, ◌>>=◌, defined, undefined, blocked, words32, leb, ltb, ◌==◌, if◌then◌else◌,
  get_elem?,
}
use rs_jerry_driver.Definitions.{samples_per_packet}
use rs_jerry_driver.Floats.{FloatOps}
use rs_jerry_driver.Header.{
  PacketType, metadata, get_control_from_header, get_sequence_number_from_header,
}
use rs_jerry_driver.Dpdk.{Mbuf, RingOps, DpdkSource, is_valid_packet_type}
use rs_jerry_driver.Dpdk.Rx.{
  SkipLine, report, count_packet, PortCall, flow_flush, dev_stop, dev_close,
}

-- The character of a hexadecimal digit.
unfoldable pub hex_digit : ℕ → ℕ
hex_digit d = if ltb d 10 then b'0' + d else 87 + d

-- `std::hex << std::setfill('0') << std::setw(width)` of a number with at most so many digits.
unfoldable pub hex : ℕ → ℕ → List ℕ
hex zero n = []
hex (suc width) n = hex width (n / 16) ++ hex_digit (n % 16) ∷ []

unfoldable pub is_metadata : PacketType → Bool
is_metadata metadata = true
is_metadata _ = false

abbrev pub every_other : ℕ
every_other = 1

-- `front` and `pop_front` of an empty list are undefined.
unfoldable pub pop_words : ℕ → List ℕ → Result (List ℕ × List ℕ)
pop_words zero queue = ok ([], queue)
pop_words (suc n) [] = err undefined
pop_words (suc n) (x ∷ queue) = do popped ← pop_words n queue; ok (x ∷ popped.0, popped.1)

-- The queues.
pub record Queues : Type 0 where
  pub hrzr_header : List ℕ
  pub hrzr_payload : List ℕ
  pub hrzr_meta : List ℕ

-- A column of eight digits for each word.
unfoldable pub hex_words : List ℕ → List ℕ
hex_words [] = []
hex_words (x ∷ xs) = hex 8 x ++ hex_words xs

-- The words that are taken from a queue where a condition holds.
unfoldable pub pop_if : Bool → ℕ → List ℕ → Result (List ℕ × List ℕ)
pop_if true n queue = pop_words n queue
pop_if false n queue = ok ([], queue)

-- A round of the loop that writes the file: a line, and what is left of the payload and meta queues.
unfoldable pub write_line : ℕ → List ℕ → List ℕ → Result (List ℕ × List ℕ × List ℕ)
write_line header payload meta = do
  control ← get_control_from_header header
  samples ← pop_if (is_valid_packet_type control) samples_per_packet payload
  words ← pop_if (is_metadata control) 10 meta
  ok (hex 16 header ++ (hex_words samples.0 ++ hex_words words.0), samples.1, words.1)

-- The loop `while (hrzr_header.size() > 0)`: the lines, and the queues afterwards.
unfoldable pub write_lines : List ℕ → List ℕ → List ℕ → Result (List (List ℕ) × Queues)
write_lines [] payload meta =
    ok ([], record { hrzr_header = []; hrzr_payload = payload; hrzr_meta = meta })
write_lines (header ∷ headers) payload meta = do
  (line, payload', meta') ← write_line header payload meta
  rest ← write_lines headers payload' meta'
  ok (line ∷ rest.0, rest.1)

-- `push_back` of the first words behind the headers of a buffer.
unfoldable pub read_words : ℕ → List ℕ → Result (List ℕ)
read_words zero words = ok []
read_words (suc n) [] = err undefined
read_words (suc n) (x ∷ words) = do more ← read_words n words; ok (x ∷ more)

-- What happens to the thread: packets, each with the seconds on the clock, or the flag is set.
pub data DumpEvent : Type 0 where
  dump_burst_event : List (Mbuf × ℕ) → DumpEvent
  dump_stop : DumpEvent

module _ (floats : FloatOps) (rings : RingOps) where
  -- The object, the thread's variables, the buffers that were freed, what was printed and the file.
  pub record DumpState : Type 0 where
    pub source : DpdkSource floats rings
    pub seq : ℕ
    pub queues : Queues
    pub freed : List Mbuf
    pub printed : List SkipLine
    pub file : List (List ℕ)

  -- What is pushed for a packet; `total_packets` is tested against a stride of 1.
  unfoldable pub track : ℕ → Mbuf → Queues → Result Queues
  unfolding is_metadata
  track total_packets m q = do
    let headers =
        if total_packets % every_other == 0 then q.hrzr_header ++ m.hrzr ∷ [] else q.hrzr_header
    control ← get_control_from_header m.hrzr
    if is_metadata control
        then (do
          meta ← read_words 10 (words32 m.payload)
          ok (record q { hrzr_header = headers; hrzr_meta = q.hrzr_meta ++ meta }))
        else (if total_packets % every_other == 0
            then (do
              payload ← read_words samples_per_packet (words32 m.payload)
              ok (record q { hrzr_header = headers; hrzr_payload = q.hrzr_payload ++ payload }))
            else ok (record q { hrzr_header = headers }))

  -- The file is opened anew, written, and the flag set.
  unfoldable pub flush : DumpState → Result DumpState
  flush st = do
    written ← write_lines st.queues.hrzr_header st.queues.hrzr_payload st.queues.hrzr_meta
    ok (record st {
      source = record st.source { quit = true };
      queues = written.1;
      file = written.0;
    })

  -- The body of the loop over a burst.
  unfoldable pub dump_packet : Mbuf → ℕ → DumpState → Result DumpState
  dump_packet m seconds st = do
    let seq = get_sequence_number_from_header m.hrzr
    let source = count_packet floats rings st.seq seq st.source
    queues ← track source.total_packets m st.queues
    let tracked : DumpState = record st {
      source = source;
      seq = seq;
      queues = queues;
      printed = report none st.seq seq st.printed;
    }
    written ← (if leb 3 seconds then flush tracked else ok tracked)
    ok (record written { freed = written.freed ++ m ∷ [] })

  unfoldable pub dump_burst : List (Mbuf × ℕ) → DumpState → Result DumpState
  dump_burst [] st = ok st
  dump_burst ((m, seconds) ∷ mbufs) st = do st' ← dump_packet m seconds st; dump_burst mbufs st'

  -- The loop `while (!shouldQuit())`.
  unfoldable pub dump_loop : List DumpEvent → DumpState → Result DumpState
  dump_loop [] st = if st.source.quit then ok st else err blocked
  dump_loop (dump_stop ∷ events) st =
      dump_loop events (record st { source = record st.source { quit = true } })
  dump_loop (dump_burst_event mbufs ∷ events) st = elim st.source.quit [
    | true ↦ ok st
    | false ↦ dump_burst mbufs st >>= λ st'. dump_loop events st'
  ]

  unfoldable pub dump_thread : ℕ → List DumpEvent → DumpState → Result (DumpState × List PortCall)
  dump_thread num_stream events st = do
    st' ← dump_loop events st
    stream ← defined (get_elem? st'.source.streams num_stream)
    let port = stream.dpdk_port_id
    ok (st', flow_flush port ∷ dev_stop port ∷ dev_close port ∷ [])
