-- ===== src/Dpdk/Dump/Readback.antt =====
-- A reader of the file that dumpThread writes: sixteen digits of the header, then eight for each
-- word that a packet of the header's type has.
use rs_jerry_driver.Common.{
  ℕ, zero, suc, ◌+◌, ◌-◌, ◌*◌, ◌/◌, ◌%◌, ◌^◌, ◌<◌, ◌≡◌, refl, ap, ap₂, sym, ◌∙◌, true, List, [],
  ◌∷◌, ◌++◌, map, ◌⊎◌, Result, ok, err, ◌>>=◌, length, take, words32, ltb, if◌then◌else◌, arith,
}
use mathlib.Core.List.{append-nil, append_assoc}
use rs_jerry_driver.Definitions.{samples_per_packet}
use rs_jerry_driver.Header.{
  PacketType, data_packet, data_end_of_burst, flow_control, command, command_response,
  command_response_error, metadata, get_control_from_header,
}
use rs_jerry_driver.Dpdk.{Mbuf, is_valid_packet_type}
use rs_jerry_driver.Dpdk.Dump.{hex_digit, hex, hex_words, is_metadata, write_lines}
use rs_jerry_driver.Dpdk.Dump.Lines.{
  IsTracked, AreTracked, control_of, samples_of, words_of, line_of, headers, payloads, metas, lines,
  write_all, samples_length, words_length,
}

abbrev pub digit_value : ℕ → ℕ
digit_value c = if ltb c b'a' then c - b'0' else c - 87

-- A number of so many digits, behind those that were read.
abbrev pub read_number : ℕ → ℕ → List ℕ → ℕ × List ℕ
read_number zero n cs = (n, cs)
read_number (suc width) n [] = (n, [])
read_number (suc width) n (c ∷ cs) = read_number width (n * 16 + digit_value c) cs

abbrev pub read_columns : ℕ → List ℕ → List ℕ
read_columns zero cs = []
read_columns (suc n) cs = let (x, rest) = read_number 8 0 cs in x ∷ read_columns n rest

-- Words of 32 bits.
abbrev pub AreWords : List ℕ → Type 0
AreWords [] = Unit {0}
AreWords (x ∷ xs) = (x < 16 ^ 8) × AreWords xs

-- How many words a packet has in its line.
abbrev pub columns : Result PacketType → ℕ
columns (err e) = 0
columns (ok t) = if is_metadata t then 10 else samples_per_packet

abbrev pub read_line : List ℕ → ℕ × List ℕ
read_line cs =
    let (header, rest) = read_number 16 0 cs in
    (header, read_columns (columns (get_control_from_header header)) rest)

digit_value-hex_digit : (d : ℕ) → d < 16 → digit_value (hex_digit d) ≡ d
unfolding hex_digit
digit_value-hex_digit d h = ground arith

shifted : (acc x q r y n : ℕ) → n ≡ q * 16 + r → y ≡ x * 16 → (acc * x + q) * 16 + r ≡ acc * y + n
shifted acc x q r y n split scaled = rw (scaled, split) (grind arith)

read_number-hex :
    (width k total acc n : ℕ) (rest : List ℕ)
    → total ≡ width + k
    → n < 16 ^ width
    → read_number total acc (hex width n ++ rest) ≡ read_number k (acc * 16 ^ width + n) rest
unfolding hex
read_number-hex zero k total acc n rest split h =
    let width_eq : total ≡ k = omega (arith, split) in
    let value : acc ≡ acc * 16 ^ 0 + n = omega (arith, h) in
    ap₂ (λ w m. read_number w m rest) width_eq value
read_number-hex (suc width) k total acc n rest split h =
    ap (read_number total acc) (append_assoc (hex width (n / 16)) (hex_digit (n % 16) ∷ []) rest)
    ∙ (read_number-hex width (suc k) total acc (n / 16) (hex_digit (n % 16) ∷ rest)
          (omega (arith, split)) (less h)
        ∙ ap (λ m. read_number k m rest) value)
  where
    less : n < 16 ^ (suc width) → n / 16 < 16 ^ width
    less h = omega (arith, h)

    value :
        (acc * 16 ^ width + n / 16) * 16 + digit_value (hex_digit (n % 16))
        ≡ acc * 16 ^ (suc width) + n
    value =
        shifted acc (16 ^ width) (n / 16) (digit_value (hex_digit (n % 16))) (16 ^ (suc width)) n
          (omega (arith, digit_value-hex_digit (n % 16) (omega arith))) (omega arith)

pub read_number_lem :
    (width n : ℕ) (rest : List ℕ)
    → n < 16 ^ width
    → read_number width 0 (hex width n ++ rest) ≡ (n, rest)
read_number_lem width n rest h =
    let all : width ≡ width + 0 = omega arith in
    let value : 0 * 16 ^ width + n ≡ n = omega arith in
    read_number-hex width 0 width 0 n rest all h ∙ ap (λ m. (m, rest)) value

read_columns-hex_words : (xs : List ℕ) → AreWords xs → read_columns (length xs) (hex_words xs) ≡ xs
unfolding hex_words
read_columns-hex_words [] h = refl
read_columns-hex_words (x ∷ xs) h =
    ap (λ (p : ℕ × List ℕ). p.0 ∷ read_columns (length xs) p.1)
      (read_number_lem 8 x (hex_words xs) h.0)
    ∙ ap (λ t. x ∷ t) (read_columns-hex_words xs h.1)

AreWords-words32 : (n : ℕ) (bs : List ℕ) → AreWords (take n (words32 bs))
unfolding take
AreWords-words32 zero bs = tt
AreWords-words32 (suc n) [] = tt
AreWords-words32 (suc n) (a ∷ []) = tt
AreWords-words32 (suc n) (a ∷ b ∷ []) = tt
AreWords-words32 (suc n) (a ∷ b ∷ c ∷ []) = tt
AreWords-words32 (suc n) (a ∷ b ∷ c ∷ d ∷ bs) = (omega arith, AreWords-words32 n bs)

-- What a line is to give back: the header and the packet's words.
abbrev pub parts : Mbuf → ℕ × List ℕ
parts m = (m.hrzr, samples_of (control_of m) m ++ words_of (control_of m) m)

-- Packets whose header has 64 bits.
abbrev pub Are64 : List Mbuf → Type 0
Are64 [] = Unit {0}
Are64 (m ∷ ms) = (m.hrzr < 2 ^ 64) × Are64 ms

read_line_lem :
    (header : ℕ) (ws : List ℕ)
    → header < 2 ^ 64
    → AreWords ws
    → columns (get_control_from_header header) ≡ length ws
    → read_line (hex 16 header ++ hex_words ws) ≡ (header, ws)
read_line_lem header ws h w many =
    ap (λ (p : ℕ × List ℕ). (p.0, read_columns (columns (get_control_from_header p.0)) p.1))
      (read_number_lem 16 header (hex_words ws) h)
    ∙ ap {A = List ℕ} (λ (cs : List ℕ). (header, cs))
        (ap (λ (n : ℕ). read_columns n (hex_words ws)) many ∙ read_columns-hex_words ws w)

hex_words-append : (xs ys : List ℕ) → hex_words (xs ++ ys) ≡ hex_words xs ++ hex_words ys
unfolding hex_words
hex_words-append [] ys = refl
hex_words-append (x ∷ xs) ys =
    ap (λ t. hex 8 x ++ t) (hex_words-append xs ys)
    ∙ sym (append_assoc (hex 8 x) (hex_words xs) (hex_words ys))

-- The packet's words are as many as the header's type asks for.
abbrev HasColumns : Result PacketType → Mbuf → Type 0
HasColumns r m =
    (columns r ≡ length (samples_of r m ++ words_of r m))
    × AreWords (samples_of r m ++ words_of r m)

IsTracked-HasColumns : (m : Mbuf) → IsTracked m → HasColumns (control_of m) m
unfolding is_metadata is_valid_packet_type
IsTracked-HasColumns m t = go t.type_of t.known t.dumped
  where
    samples : (n : ℕ) → List ℕ
    samples n = take n (words32 m.payload)

    go :
        (type_of : PacketType)
        → control_of m ≡ ok type_of
        → (is_valid_packet_type type_of ≡ true) ⊎ (type_of ≡ metadata)
        → HasColumns (control_of m) m
    go data_packet known d =
        rw (known, append-nil (samples samples_per_packet))
          (sym (samples_length m t.full), AreWords-words32 samples_per_packet m.payload)
    go data_end_of_burst known d =
        rw (known, append-nil (samples samples_per_packet))
          (sym (samples_length m t.full), AreWords-words32 samples_per_packet m.payload)
    go metadata known d = rw known (sym (words_length m t.full), AreWords-words32 10 m.payload)
    go flow_control known d = ground arith
    go command known d = ground arith
    go command_response known d = ground arith
    go command_response_error known d = ground arith

read_line-line_of : (m : Mbuf) → IsTracked m → m.hrzr < 2 ^ 64 → read_line (line_of m) ≡ parts m
read_line-line_of m t h =
    let samples = samples_of (control_of m) m in
    let words = words_of (control_of m) m in
    let (many, fit) = IsTracked-HasColumns m t in
    ap (λ cs. read_line (hex 16 m.hrzr ++ cs)) (sym (hex_words-append samples words))
    ∙ read_line_lem m.hrzr (samples ++ words) h fit many

read_lines : (ms : List Mbuf) → AreTracked ms → Are64 ms → map read_line (lines ms) ≡ map parts ms
read_lines [] t h = refl
read_lines (m ∷ ms) t h = rw (read_line-line_of m t.0 h.0, read_lines ms t.1 h.1) refl

-- The file can be read back: for packets of data or metadata with full payloads and 64-bit headers,
-- a reader that takes sixteen digits as the header and then as many columns of eight as the
-- header's type asks for gets the header and the words of each packet from its line.
pub write_lines-read_line :
    (ms : List Mbuf)
    → AreTracked ms
    → Are64 ms
    → (write_lines (headers ms) (payloads ms) (metas ms) >>= λ written.
        ok (map read_line written.0))
      ≡ ok (map parts ms)
write_lines-read_line ms t h = rw (write_all ms t) (ap ok (read_lines ms t h))
