-- ===== src/Dpdk/Dump/Lines.antt =====
-- The queues and the lines of dumpThread, against the packets that went in.
use rs_jerry_driver.Common.{
  ℕ, zero, suc, ◌/◌, ◌≤◌, ◌≡◌, refl, ap, ap₂, sym, ◌∙◌, ◌⊎◌, true, List, [], ◌∷◌, ◌++◌, Result, ok,
  err, length, take, length-take, words32, if◌then◌else◌, arith,
}
use mathlib.Core.List.{append-nil, append_assoc}
use rs_jerry_driver.Definitions.{payload_size, samples_per_packet}
use rs_jerry_driver.Header.{
  PacketType, data_packet, data_end_of_burst, flow_control, command, command_response,
  command_response_error, metadata, get_control_from_header,
}
use rs_jerry_driver.Dpdk.{Mbuf, is_valid_packet_type}
use rs_jerry_driver.Dpdk.Dump.{
  Queues, hex, hex_words, is_metadata, pop_words, pop_if, write_line, write_lines, read_words,
}

-- The words of a packet that belong into its line: ten of the metadata, the samples of others.
abbrev pub samples_of : Result PacketType → Mbuf → List ℕ
samples_of (err e) m = []
samples_of (ok t) m = if is_metadata t then [] else take samples_per_packet (words32 m.payload)

abbrev pub words_of : Result PacketType → Mbuf → List ℕ
words_of (err e) m = []
words_of (ok t) m = if is_metadata t then take 10 (words32 m.payload) else []

abbrev pub control_of : Mbuf → Result PacketType
control_of m = get_control_from_header m.hrzr

-- The line of a packet.
abbrev pub line_of : Mbuf → List ℕ
line_of m =
    hex 16 m.hrzr
    ++ (hex_words (samples_of (control_of m) m) ++ hex_words (words_of (control_of m) m))

-- A packet of data or metadata, with a full payload behind its headers.
pub record IsTracked (m : Mbuf) : Type 0 where
  pub type_of : PacketType
  pub known : control_of m ≡ ok type_of
  pub dumped : (is_valid_packet_type type_of ≡ true) ⊎ (type_of ≡ metadata)
  pub full : payload_size ≤ length m.payload

-- A packet whose type is known, with a full payload behind its headers.
pub record IsReadable (m : Mbuf) : Type 0 where
  pub type_of : PacketType
  pub known : control_of m ≡ ok type_of
  pub full : payload_size ≤ length m.payload

pub IsTracked-IsReadable : (m : Mbuf) → IsTracked m → IsReadable m
IsTracked-IsReadable m t = record { type_of = t.type_of; known = t.known; full = t.full }

abbrev pub AreTracked : List Mbuf → Type 0
AreTracked [] = Unit {0}
AreTracked (m ∷ ms) = IsTracked m × AreTracked ms

-- The queues of some packets.
abbrev pub headers : List Mbuf → List ℕ
headers [] = []
headers (m ∷ ms) = m.hrzr ∷ headers ms

abbrev pub payloads : List Mbuf → List ℕ
payloads [] = []
payloads (m ∷ ms) = samples_of (control_of m) m ++ payloads ms

abbrev pub metas : List Mbuf → List ℕ
metas [] = []
metas (m ∷ ms) = words_of (control_of m) m ++ metas ms

abbrev pub lines : List Mbuf → List (List ℕ)
lines [] = []
lines (m ∷ ms) = line_of m ∷ lines ms

pub headers-append : (ms ns : List Mbuf) → headers (ms ++ ns) ≡ headers ms ++ headers ns
headers-append [] ns = refl
headers-append (m ∷ ms) ns = ap (λ t. m.hrzr ∷ t) (headers-append ms ns)

pub payloads-append : (ms ns : List Mbuf) → payloads (ms ++ ns) ≡ payloads ms ++ payloads ns
payloads-append [] ns = refl
payloads-append (m ∷ ms) ns =
    ap (λ t. samples_of (control_of m) m ++ t) (payloads-append ms ns)
    ∙ sym (append_assoc (samples_of (control_of m) m) (payloads ms) (payloads ns))

pub metas-append : (ms ns : List Mbuf) → metas (ms ++ ns) ≡ metas ms ++ metas ns
metas-append [] ns = refl
metas-append (m ∷ ms) ns =
    ap (λ t. words_of (control_of m) m ++ t) (metas-append ms ns)
    ∙ sym (append_assoc (words_of (control_of m) m) (metas ms) (metas ns))

pub length-words32 : (bs : List ℕ) → length (words32 bs) ≡ length bs / 4
length-words32 [] = refl
length-words32 (a ∷ []) = refl
length-words32 (a ∷ b ∷ []) = refl
length-words32 (a ∷ b ∷ c ∷ []) = refl
length-words32 (a ∷ b ∷ c ∷ d ∷ bs) = omega (arith, length-words32 bs)

pub read_words_lem :
    (n : ℕ) (words : List ℕ) → n ≤ length words → read_words n words ≡ ok (take n words)
unfolding read_words take
read_words_lem zero words h = refl
read_words_lem (suc n) [] h = absurd (omega arith)
read_words_lem (suc n) (x ∷ words) h = rw (read_words_lem n words (omega arith)) refl

pub pop_words-append :
    (n : ℕ) (xs ys : List ℕ) → length xs ≡ n → pop_words n (xs ++ ys) ≡ ok (xs, ys)
unfolding pop_words
pop_words-append zero [] ys h = refl
pop_words-append zero (x ∷ xs) ys h = absurd (omega arith)
pop_words-append (suc n) [] ys h = absurd (omega arith)
pop_words-append (suc n) (x ∷ xs) ys h = rw (pop_words-append n xs ys (omega arith)) refl

-- The words of a full packet are as many as are popped.
pub samples_length :
    (m : Mbuf)
    → payload_size ≤ length m.payload
    → length (take samples_per_packet (words32 m.payload)) ≡ samples_per_packet
samples_length m h =
    omega (arith, length-take samples_per_packet (words32 m.payload), length-words32 m.payload)

pub words_length :
    (m : Mbuf) → payload_size ≤ length m.payload → length (take 10 (words32 m.payload)) ≡ 10
words_length m h = omega (arith, length-take 10 (words32 m.payload), length-words32 m.payload)

write_line_lem :
    (m : Mbuf) (payload meta : List ℕ)
    → IsTracked m
    → write_line m.hrzr (samples_of (control_of m) m ++ payload) (words_of (control_of m) m ++ meta)
      ≡ ok (line_of m, payload, meta)
unfolding write_line is_valid_packet_type is_metadata pop_if
write_line_lem m payload meta t = go t.type_of t.known t.dumped
  where
    go :
        (type_of : PacketType)
        → control_of m ≡ ok type_of
        → (is_valid_packet_type type_of ≡ true) ⊎ (type_of ≡ metadata)
        → write_line m.hrzr
            (samples_of (control_of m) m ++ payload)
            (words_of (control_of m) m ++ meta)
          ≡ ok (line_of m, payload, meta)
    go data_packet known d =
        rw
          (
            known,
            pop_words-append samples_per_packet (take samples_per_packet (words32 m.payload))
                payload (samples_length m t.full),
          )
          refl
    go data_end_of_burst known d =
        rw
          (
            known,
            pop_words-append samples_per_packet (take samples_per_packet (words32 m.payload))
                payload (samples_length m t.full),
          )
          refl
    go metadata known d =
        rw (known, pop_words-append 10 (take 10 (words32 m.payload)) meta (words_length m t.full))
          refl
    go flow_control known d = ground arith
    go command known d = ground arith
    go command_response known d = ground arith
    go command_response_error known d = ground arith

-- The loop that writes the file takes the queues apart again: one line for each packet.
pub write_lines_lem :
    (ms : List Mbuf) (payload meta : List ℕ)
    → AreTracked ms
    → write_lines (headers ms) (payloads ms ++ payload) (metas ms ++ meta)
      ≡ ok (lines ms, record { hrzr_header = []; hrzr_payload = payload; hrzr_meta = meta })
unfolding write_lines
write_lines_lem [] payload meta t = refl
write_lines_lem (m ∷ ms) payload meta t =
    rw
      (
        append_assoc (samples_of (control_of m) m) (payloads ms) payload,
        append_assoc (words_of (control_of m) m) (metas ms) meta,
        write_line_lem m (payloads ms ++ payload) (metas ms ++ meta) t.0,
        write_lines_lem ms payload meta t.1,
      )
      refl

abbrev pub no_queues : Queues
no_queues = record { hrzr_header = []; hrzr_payload = []; hrzr_meta = [] }

pub write_all :
    (ms : List Mbuf)
    → AreTracked ms
    → write_lines (headers ms) (payloads ms) (metas ms) ≡ ok (lines ms, no_queues)
write_all ms t =
    ap₂ (λ (p q : List ℕ). write_lines (headers ms) p q) (sym (append-nil (payloads ms)))
      (sym (append-nil (metas ms)))
    ∙ write_lines_lem ms [] [] t
