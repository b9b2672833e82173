-- ===== src/Parser/Loop.antt =====
-- The loop of `parsePayloadSamples` writes in place, so its result is described index by index.
use rs_jerry_driver.Common.{
  ℕ, zero, suc, ◌+◌, ◌*◌, ◌^◌, ◌≤◌, ◌<◌, ◌≡◌, refl, ap, ◌∙◌, ◌⊎◌, inl, inr, List, some, Result, ok,
  err, undefined, checked_int_fits, checked_int_overflow, int16, length, get_elem?, get_or, set,
  length-set, get_elem?-set_self, get_elem?-set_ne, get_elem?-eq-get_or, get_elem?-some,
  get_elem?-none, set-set, arith, dec_lt,
}
use rs_jerry_driver.Definitions.{samples_per_packet}
use rs_jerry_driver.Floats.{FloatOps, Complex}
use rs_jerry_driver.Parser.{HrzrParser, parse_sample, parse_from, parse_payload_samples}

module _ (floats : FloatOps) (parser : HrzrParser floats) (payload : List ℕ) where
  open floats use {Float, of_int16, divide}

  -- The number at an index of the payload, divided by the norm.
  abbrev pub component : ℕ → Float
  component i = divide (of_int16 (int16 (get_or payload i 0))) parser.norm

  -- The sample at an index of the packet: I first, then Q.
  abbrev pub sample : ℕ → Complex Float
  sample k = record { real = component (k * 2); imag = component (k * 2 + 1) }

module _ (floats : FloatOps) (parser : HrzrParser floats) (packet_idx : ℕ) (payload : List ℕ) where
  open floats use {Float}

  abbrev sample_at : ℕ → Complex Float
  sample_at = sample floats parser payload

  abbrev base : ℕ
  base = packet_idx * samples_per_packet

  -- `result` returned after it wrote the packet's samples `lo` to `hi` to their places and
  -- nothing else.
  pub record IsParsed (lo hi total : ℕ) (samples : List (Complex Float))
      (result : Result (List (Complex Float) × ℕ)) : Type 0 where
    pub out : List (Complex Float)
    pub returns : result ≡ ok (out, total)
    pub same_length : length out ≡ length samples
    pub inside :
        (k : ℕ)
        → lo ≤ k
        → k < hi
        → get_elem? out (packet_idx * samples_per_packet + k)
          ≡ some (sample floats parser payload k)
    pub outside :
        (j : ℕ)
        → (j < packet_idx * samples_per_packet + lo) ⊎ (packet_idx * samples_per_packet + hi ≤ j)
        → get_elem? out j ≡ get_elem? samples j

  parse_sample_lem :
      (k : ℕ) (samples : List (Complex Float))
      → k * 2 + 1 < length payload
      → base + k < length samples
      → base + k < 2 ^ 31
      → parse_sample floats parser packet_idx payload k samples
        ≡ ok (set samples (base + k) (sample_at k))
  unfolding parse_sample
  parse_sample_lem k samples hp hs hi =
      let (c, hc) = get_elem?-some samples (base + k) hs in
      rw
        (
          get_elem?-eq-get_or payload (k * 2) 0 (omega arith),
          checked_int_fits (base + k) hi,
          hc,
          get_elem?-eq-get_or payload (k * 2 + 1) 0 hp,
          get_elem?-set_self samples (base + k) _ hs,
          set-set,
        )
        refl

  IsParsed-set :
      {k hi total : ℕ} {samples : List (Complex Float)} {result : Result (List (Complex Float) × ℕ)}
      → k < hi
      → base + k < length samples
      → IsParsed (k + 1) hi total (set samples (base + k) (sample_at k)) result
      → IsParsed k hi total samples result
  IsParsed-set {k} {samples} below fits rest = record {
    out = rest.out;
    returns = rest.returns;
    same_length = rest.same_length ∙ length-set samples (base + k) (sample_at k);
    inside = λ j p q. ground (
      arith,
      rest.inside j,
      rest.outside (base + j),
      get_elem?-set_self samples (base + k) (sample_at k) fits,
    );
    outside =
        λ j p. ground (arith, rest.outside j, get_elem?-set_ne samples (base + k) j (sample_at k));
  }

  parse_from-suc :
      (left k total : ℕ) (samples : List (Complex Float))
      → k * 2 + 1 < length payload
      → base + k < length samples
      → base + k < 2 ^ 31
      → parse_from floats parser packet_idx payload (suc left) k total samples
        ≡ parse_from floats parser packet_idx payload left
            (k + 1)
            (total + 1)
            (set samples (base + k) (sample_at k))
  unfolding parse_from
  parse_from-suc left k total samples hp hs hi = rw (parse_sample_lem k samples hp hs hi) refl

  parse_from-IsParsed :
      (left k hi total : ℕ) (samples : List (Complex Float))
      → k + left ≡ hi
      → hi * 2 ≤ length payload
      → base + hi ≤ length samples
      → base + hi ≤ 2 ^ 31
      → IsParsed k hi
          (total + left)
          samples
          (parse_from floats parser packet_idx payload left k total samples)
  parse_from-IsParsed zero k hi total samples e hp hs small = record {
    out = samples;
    returns = unfold parse_from in ap (λ (n : ℕ). ok (samples, n)) (omega arith);
    same_length = refl;
    inside = λ j p q. absurd (omega arith);
    outside = λ j p. refl;
  }
  parse_from-IsParsed (suc left) k hi total samples e hp hs small =
      let fits : base + k < length samples = omega arith in
      let place = base + k in
      let samples' = set samples place (sample_at k) in
      let count : total + 1 + left ≡ total + suc left = omega arith in
      let rest : IsParsed (k + 1) hi (total + suc left) samples'
          (parse_from floats parser packet_idx payload left (k + 1) (total + 1) samples') =
        rw (← count) (
          parse_from-IsParsed left (k + 1) hi (total + 1) samples' (omega arith) hp
            (rw length-set hs) small) in
      rw (parse_from-suc left k total samples (omega arith) fits (omega arith))
        (IsParsed-set (omega arith) fits rest)

  -- `parsePayloadSamples` with a payload of at least 732 numbers and an array that reaches to the
  -- end of the packet's slot, all whose indices fit an `int`, returns 366 and writes the slot: the sample at `k` of the slot is the
  -- pair of the payload's numbers `2k` and `2k + 1`, each divided by the norm; every other element
  -- of the array, and its length, is as before.
  pub parse_payload_samples-IsParsed :
      (samples : List (Complex Float))
      → samples_per_packet * 2 ≤ length payload
      → packet_idx * samples_per_packet + samples_per_packet ≤ length samples
      → packet_idx * samples_per_packet + samples_per_packet ≤ 2 ^ 31
      → IsParsed 0 samples_per_packet samples_per_packet samples
          (parse_payload_samples floats parser packet_idx payload samples)
  unfolding parse_payload_samples
  parse_payload_samples-IsParsed samples hp hs small =
      parse_from-IsParsed samples_per_packet 0 samples_per_packet 0 samples refl hp hs small

  parse_sample_undefined :
      (k : ℕ) (samples : List (Complex Float))
      → k * 2 + 1 < length payload
      → (length samples ≤ base + k) ⊎ (2 ^ 31 ≤ base + k)
      → parse_sample floats parser packet_idx payload k samples ≡ err undefined
  unfolding parse_sample
  parse_sample_undefined k samples hp hs =
      let re = get_elem?-eq-get_or payload (k * 2) 0 (omega arith) in
      elim (dec_lt (base + k) (2 ^ 31)) [
        | yes small ↦
            rw
              (
                re,
                checked_int_fits (base + k) small,
                get_elem?-none samples (base + k) (omega arith),
              )
              refl
        | no large ↦ rw (re, checked_int_overflow (base + k) (omega arith)) refl
      ]

  parse_from_undefined :
      (left k total : ℕ) (samples : List (Complex Float))
      → (k + left) * 2 ≤ length payload
      → (length samples < base + (k + left)) ⊎ (2 ^ 31 < base + (k + left))
      → ((base + k ≤ length samples) × (base + k ≤ 2 ^ 31)) ⊎ (0 < left)
      → parse_from floats parser packet_idx payload left k total samples ≡ err undefined
  parse_from_undefined zero k total samples hp hs (inl h) = absurd (omega arith)
  parse_from_undefined zero k total samples hp hs (inr h) = absurd (omega arith)
  parse_from_undefined (suc left) k total samples hp hs h =
      let stops : (length samples ≤ base + k) ⊎ (2 ^ 31 ≤ base + k)
          → parse_from floats parser packet_idx payload (suc left) k total samples ≡ err undefined =
        λ past.
          unfold parse_from in rw (parse_sample_undefined k samples (omega arith) past) refl in
      elim (dec_lt (base + k) (length samples)) [
        | no past ↦ stops (inl (omega arith))
        | yes fits ↦ elim (dec_lt (base + k) (2 ^ 31)) [
          | no large ↦ stops (inr (omega arith))
          | yes small ↦ rw (parse_from-suc left k total samples (omega arith) fits small) (
              parse_from_undefined left (k + 1) (total + 1) (set samples (base + k) (sample_at k))
                (omega arith) (rw length-set (omega arith))
                (inl (rw length-set (omega arith, omega arith))))
        ]
      ]

  -- With an array that ends before the packet's slot does, or a slot whose indices do not fit an
  -- `int`, `parsePayloadSamples` is undefined for every payload of at least 732 numbers.
  pub parse_payload_samples_overflow :
      (samples : List (Complex Float))
      → samples_per_packet * 2 ≤ length payload
      → (length samples < packet_idx * samples_per_packet + samples_per_packet)
        ⊎ (2 ^ 31 < packet_idx * samples_per_packet + samples_per_packet)
      → parse_payload_samples floats parser packet_idx payload samples ≡ err undefined
  unfolding parse_payload_samples
  parse_payload_samples_overflow samples hp hs =
      parse_from_undefined samples_per_packet 0 0 samples hp hs (inr (omega arith))
