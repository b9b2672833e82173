-- ===== src/Udp/Receive.antt =====
-- One datagram: what the body of the loop of `getSamples` does with it.
use rs_jerry_driver.Common.{
  ℕ, ◌+◌, ◌*◌, ◌%◌, ◌^◌, ◌≤◌, ◌<◌, ◌≡◌, ◌≢◌, refl, ap, ◌∙◌, ◌⊎◌, true, false, List, [], ◌∷◌, ◌++◌,
  Option, some, Result, ok, err, undefined, invalid_hrzr_header, length, take, drop, get_or,
  get_elem?, length-take, length-overwrite, sym, overwrite_full, ◌>>=◌, le_word, words16,
  length-words16, ltb, ◌==◌, if◌then◌else◌, arith,
}
use rs_jerry_driver.Definitions.{packet_size, samples_per_packet}
use rs_jerry_driver.Floats.{FloatOps, Complex}
use rs_jerry_driver.Header.{control_type, get_control_from_header}
use rs_jerry_driver.Header.Wire.{control_nibble, get_control_lem}
use rs_jerry_driver.Parser.{HrzrParser, parse_payload_samples}
use rs_jerry_driver.Parser.Loop.{
  sample, parse_payload_samples-IsParsed, parse_payload_samples_overflow,
}
use rs_jerry_driver.Udp.{is_data, Receiving, Arrival, datagram, recv, handle_packet, receive_packet}

-- What a datagram is, by its length and the control bits of its first byte.
pub data Kind : Type 0 where
  too_short carrier other malformed : Kind

abbrev pub control_kind : ℕ → Kind
control_kind control = if control == 0 then carrier else if control == 9 then malformed else other

abbrev pub kind : List ℕ → Kind
kind bytes =
    if ltb (length bytes) packet_size
    then too_short
    else control_kind (control_nibble (get_or bytes 0 0 % 256))

-- The number of samples that a datagram counts for.
abbrev pub worth : Kind → ℕ
worth carrier = samples_per_packet
worth _ = 0

worthless : (c : Kind) → c ≢ carrier → worth c ≡ 0
worthless carrier h = absurd (h refl)
worthless _ h = refl

-- The buffer after a datagram, if the buffer has the size of a packet.
unfoldable pub received : List ℕ → List ℕ → List ℕ
received bytes buf = take packet_size bytes ++ drop (length (take packet_size bytes)) buf

first_byte :
    (bytes : List ℕ)
    → packet_size ≤ length bytes
    → le_word (take 8 (take packet_size bytes)) % 256 ≡ get_or bytes 0 0 % 256
unfolding take
first_byte [] h = elim h [ ]
first_byte (b ∷ bytes) h = omega arith

module _ {A : Type 0} (x y : Result A) where
  not_data :
      (b : ℕ)
      → b < 256
      → control_kind (control_nibble b) ≡ other
      → (control_type (control_nibble b) >>= λ t. if is_data t then x else y) ≡ y
  unfolding control_type is_data
  not_data b h e = ground arith

  is_data_lem :
      (b : ℕ)
      → control_kind (control_nibble b) ≡ carrier
      → (control_type (control_nibble b) >>= λ t. if is_data t then x else y) ≡ x
  unfolding control_type is_data
  is_data_lem b e = ground arith

  throws :
      (b : ℕ)
      → control_kind (control_nibble b) ≡ malformed
      → (control_type (control_nibble b) >>= λ t. if is_data t then x else y)
        ≡ err invalid_hrzr_header
  unfolding control_type is_data
  throws b e = ground arith

module _ (floats : FloatOps) where
  open floats use {Float}

  abbrev pub after : List ℕ → List Arrival → Receiving floats → Receiving floats
  after bytes queue r = record r {
    source = record r.source { buf = received bytes r.source.buf };
    queue = queue;
  }

  -- The elements of a packet's slot after the datagram: the decoded samples, or what they were.
  abbrev pub slot :
      HrzrParser floats → Kind → List ℕ → ℕ → Option (Complex Float) → Option (Complex Float)
  slot parser carrier bytes k old = some (sample floats parser (words16 (take packet_size bytes)) k)
  slot parser _ bytes k old = old

  slot_unchanged :
      (parser : HrzrParser floats) (c : Kind) (bytes : List ℕ) (k : ℕ)
      (old : Option (Complex Float))
      → c ≢ carrier
      → slot parser c bytes k old ≡ old
  slot_unchanged parser carrier bytes k old h = absurd (h refl)
  slot_unchanged parser _ bytes k old h = refl

  -- The datagram was consumed, and of the caller's array only the packet's slot is written, and
  -- only by a data packet.
  pub record IsReceived (packet_idx : ℕ) (bytes : List ℕ) (queue : List Arrival)
      (r : Receiving floats) (result : Result (Receiving floats × ℕ)) : Type 0 where
    pub out : Receiving floats
    pub returns : result ≡ ok (out, worth (kind bytes))
    pub consumed : out.queue ≡ queue
    pub same_parser : out.source.hrzr_parser ≡ r.source.hrzr_parser
    pub same_buffer : length out.source.buf ≡ length r.source.buf
    pub same_length : length out.samples ≡ length r.samples
    pub inside :
        (k : ℕ)
        → k < samples_per_packet
        → get_elem? out.samples (packet_idx * samples_per_packet + k)
          ≡ slot r.source.hrzr_parser
              (kind bytes)
              bytes
              k
              (get_elem? r.samples (packet_idx * samples_per_packet + k))
    pub outside :
        (j : ℕ)
        → (j < packet_idx * samples_per_packet)
          ⊎ (packet_idx * samples_per_packet + samples_per_packet ≤ j)
        → get_elem? out.samples j ≡ get_elem? r.samples j

  module _ (packet_idx : ℕ) (bytes : List ℕ) (queue : List Arrival) (r : Receiving floats)
      (next : r.queue ≡ datagram bytes ∷ queue) (size : length r.source.buf ≡ packet_size) where
    receive_short :
        kind bytes ≡ too_short → receive_packet floats packet_idx r ≡ ok (after bytes queue r, 0)
    unfolding receive_packet recv received
    receive_short h = rw (next, short) refl
      where
        short : (length (take packet_size bytes) == packet_size) ≡ false
        short = ground (arith, length-take packet_size bytes)

    receive_full :
        kind bytes ≢ too_short
        → receive_packet floats packet_idx r ≡ handle_packet floats packet_idx (after bytes queue r)
    unfolding receive_packet recv received
    receive_full h = rw (next, full) refl
      where
        full : (length (take packet_size bytes) == packet_size) ≡ true
        full = ground (arith, length-take packet_size bytes)

    buffer_full : kind bytes ≢ too_short → received bytes r.source.buf ≡ take packet_size bytes
    unfolding received
    buffer_full h = overwrite_full packet_size bytes r.source.buf size (ground arith)

    control_of_buffer :
        kind bytes ≢ too_short
        → get_control_from_header (le_word (take 8 (received bytes r.source.buf)))
          ≡ control_type (control_nibble (get_or bytes 0 0 % 256))
    control_of_buffer h =
        let full : packet_size ≤ length bytes = ground arith in
        rw (buffer_full h) (
          get_control_lem _
          ∙ ap (λ (b : ℕ). control_type (control_nibble b)) (first_byte bytes full))

    receive_other :
        kind bytes ≡ other → receive_packet floats packet_idx r ≡ ok (after bytes queue r, 0)
    unfolding handle_packet
    receive_other h =
        receive_full (λ e. cc)
        ∙ rw (control_of_buffer (λ e. cc))
            (not_data _ _ (get_or bytes 0 0 % 256) (omega arith) (ground arith))

    receive_malformed :
        kind bytes ≡ malformed → receive_packet floats packet_idx r ≡ err invalid_hrzr_header
    unfolding handle_packet
    receive_malformed h =
        receive_full (λ e. cc)
        ∙ rw (control_of_buffer (λ e. cc)) (throws _ _ (get_or bytes 0 0 % 256) (ground arith))

    receive_carrier :
        kind bytes ≡ carrier
        → receive_packet floats packet_idx r ≡ (
            parse_payload_samples floats r.source.hrzr_parser packet_idx
              (words16 (take packet_size bytes))
              r.samples
            >>= λ parsed. ok (record (after bytes queue r) { samples = parsed.0 }, parsed.1))
    unfolding handle_packet
    receive_carrier h =
        receive_full (λ e. cc)
        ∙ rw (control_of_buffer (λ e. cc)) (is_data_lem _ _ (get_or bytes 0 0 % 256) (ground arith))
        ∙ ap
            (λ (buf : List ℕ).
              parse_payload_samples floats r.source.hrzr_parser packet_idx (words16 buf) r.samples
              >>= λ parsed. ok (record (after bytes queue r) { samples = parsed.0 }, parsed.1))
            (buffer_full (λ e. cc))

    same_size : length (received bytes r.source.buf) ≡ length r.source.buf
    unfolding received
    same_size = length-overwrite packet_size bytes r.source.buf size ∙ sym size

    unchanged :
        kind bytes ≢ carrier
        → receive_packet floats packet_idx r ≡ ok (after bytes queue r, 0)
        → IsReceived packet_idx bytes queue r (receive_packet floats packet_idx r)
    unchanged w e = record {
      out = after bytes queue r;
      returns = e ∙ rw (worthless (kind bytes) w) refl;
      consumed = refl;
      same_parser = refl;
      same_buffer = same_size;
      same_length = refl;
      inside = λ k h. sym (slot_unchanged _ (kind bytes) bytes k _ w);
      outside = λ j h. refl;
    }

    -- The words of a full packet's buffer suffice for a packet of samples.
    enough_words :
        kind bytes ≢ too_short → samples_per_packet * 2 ≤ length (words16 (take packet_size bytes))
    enough_words h =
        let full : packet_size ≤ length bytes = ground arith in
        omega (arith, length-words16 (take packet_size bytes), length-take packet_size bytes)

    written :
        kind bytes ≡ carrier
        → packet_idx * samples_per_packet + samples_per_packet ≤ length r.samples
        → packet_idx * samples_per_packet + samples_per_packet ≤ 2 ^ 31
        → IsReceived packet_idx bytes queue r (receive_packet floats packet_idx r)
    written h fits small =
        let parsed =
          parse_payload_samples-IsParsed floats r.source.hrzr_parser packet_idx
            (words16 (take packet_size bytes)) r.samples (enough_words (λ e. cc)) fits small in
        record {
          out = record (after bytes queue r) { samples = parsed.out };
          returns = receive_carrier h ∙ rw (parsed.returns, h) refl;
          consumed = refl;
          same_parser = refl;
          same_buffer = same_size;
          same_length = parsed.same_length;
          inside = λ k p. rw h (parsed.inside k (omega arith) p);
          outside = λ j p. parsed.outside j (ground arith);
        }

    by_kind :
        (c : Kind)
        → kind bytes ≡ c
        → c ≢ malformed
        → packet_idx * samples_per_packet + samples_per_packet ≤ length r.samples
        → (c ≡ carrier → packet_idx * samples_per_packet + samples_per_packet ≤ 2 ^ 31)
        → IsReceived packet_idx bytes queue r (receive_packet floats packet_idx r)
    by_kind too_short e h fits small = unchanged (λ f. cc) (receive_short e)
    by_kind carrier e h fits small = written e fits (small refl)
    by_kind other e h fits small = unchanged (λ f. cc) (receive_other e)
    by_kind malformed e h fits small = absurd (h refl)

    -- A datagram whose control bits the parser knows, with room for the packet's slot, whose
    -- indices fit an `int` where it is written: the body of the loop of UdpSource::getSamples consumes it. A datagram of at least 1472 bytes with the
    -- control bits of data counts 366 samples, and the slot holds the samples decoded from the
    -- first 1464 of its bytes; a shorter one or one of another type counts none and leaves the
    -- slot. All other elements of the caller's array are as before.
    pub receive_packet-IsReceived :
        kind bytes ≢ malformed
        → packet_idx * samples_per_packet + samples_per_packet ≤ length r.samples
        → (kind bytes ≡ carrier → packet_idx * samples_per_packet + samples_per_packet ≤ 2 ^ 31)
        → IsReceived packet_idx bytes queue r (receive_packet floats packet_idx r)
    receive_packet-IsReceived h fits small = by_kind (kind bytes) refl h fits small

    pub receive_packet_overflow :
        kind bytes ≡ carrier
        → (length r.samples < packet_idx * samples_per_packet + samples_per_packet)
          ⊎ (2 ^ 31 < packet_idx * samples_per_packet + samples_per_packet)
        → receive_packet floats packet_idx r ≡ err undefined
    receive_packet_overflow h past =
        receive_carrier h
        ∙ rw
            (parse_payload_samples_overflow floats r.source.hrzr_parser packet_idx
              (words16 (take packet_size bytes)) r.samples (enough_words (λ e. cc)) past)
            refl
