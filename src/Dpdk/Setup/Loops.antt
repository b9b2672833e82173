-- ===== src/Dpdk/Setup/Loops.antt =====
-- A loop over the streams whose rounds each change one stream and make some calls.
use rs_jerry_driver.Common.{
  ℕ, zero, suc, ◌+◌, ◌≤◌, ◌<◌, ◌≡◌, ◌≢◌, refl, subst, ap, sym, ◌∙◌, ◌⊎◌, inl, List, [], ◌++◌,
  Option, none, some, ok, get_elem?, dec_lt, arith,
}
use mathlib.Core.List.{append_assoc}
use rs_jerry_driver.Common.Run.{Run, continue-eq-ok}
use rs_jerry_driver.Floats.{FloatOps}
use rs_jerry_driver.Dpdk.{RingOps, StreamAttr, DpdkSource}
use rs_jerry_driver.Dpdk.Setup.{DpdkCall, SetupState, for_streams}

-- The calls for one stream, none where there is no such stream.
abbrev pub calls_for {ℓ} : {S : Type ℓ} → (ℕ → S → List DpdkCall) → ℕ → Option S → List DpdkCall
calls_for calls i none = []
calls_for calls i (some s) = calls i s

abbrev pub calls_at {ℓ} : {S : Type ℓ} → (ℕ → S → List DpdkCall) → List S → ℕ → List DpdkCall
calls_at calls streams i = calls_for calls i (get_elem? streams i)

-- Those for the streams from an index on, the newest first.
abbrev pub calls_from {ℓ} : {S : Type ℓ} → (ℕ → S → List DpdkCall) → List S → ℕ → ℕ → List DpdkCall
calls_from calls streams zero i = []
calls_from calls streams (suc left) i =
    calls_from calls streams left (i + 1) ++ calls_at calls streams i

-- Two arrays whose calls agree at every index of a range.
pub calls_from_cong {ℓ} :
    {S : Type ℓ} (f g : ℕ → S → List DpdkCall) (ss ts : List S) (left i : ℕ)
    → ((j : ℕ) → i ≤ j → j < i + left → calls_at f ss j ≡ calls_at g ts j)
    → calls_from f ss left i ≡ calls_from g ts left i
calls_from_cong f g ss ts zero i same = refl
calls_from_cong f g ss ts (suc left) i same =
    rw
      (
        calls_from_cong f g ss ts left (i + 1) (λ j ge lt. same j (omega arith) (omega arith)),
        same i (omega arith) (omega arith),
      )
      refl

module _ (floats : FloatOps) (rings : RingOps)
    (change : ℕ → StreamAttr floats rings → StreamAttr floats rings)
    (calls : ℕ → StreamAttr floats rings → List DpdkCall) where
  -- The streams from `i` on, `left` many, were changed, and their calls made.
  pub record Touched (left i : ℕ) (st st' : SetupState floats rings) : Type 0 where
    pub log : st'.log ≡ calls_from calls st.source.streams left i ++ st.log
    pub streams : List (StreamAttr floats rings)
    pub source : st'.source ≡ record st.source { streams = streams }
    pub inside :
        (j : ℕ)
        → i ≤ j
        → j < i + left
        → (s : StreamAttr floats rings) × (get_elem? st.source.streams j ≡ some s)
          × (get_elem? streams j ≡ some (change j s))
    pub outside :
        (j : ℕ) → (j < i) ⊎ (i + left ≤ j) → get_elem? streams j ≡ get_elem? st.source.streams j

  -- The streams of the new state.
  pub Touched-inside :
      (left i : ℕ) (st st' : SetupState floats rings)
      → Touched left i st st'
      → (j : ℕ) → i ≤ j
      → j < i + left
      → (s : StreamAttr floats rings) × (get_elem? st.source.streams j ≡ some s)
        × (get_elem? st'.source.streams j ≡ some (change j s))
  Touched-inside left i st st' t j ge lt =
      let (s, found, changed) = t.inside j ge lt in
      (s, found, ap (λ o. get_elem? o.streams j) t.source ∙ changed)

  -- The stream `i` was changed, and its calls made.
  pub record Changed (i : ℕ) (st st' : SetupState floats rings) : Type 0 where
    pub s : StreamAttr floats rings
    pub found : get_elem? st.source.streams i ≡ some s
    pub log : st'.log ≡ calls i s ++ st.log
    pub streams : List (StreamAttr floats rings)
    pub source : st'.source ≡ record st.source { streams = streams }
    pub here : get_elem? streams i ≡ some (change i s)
    pub others : (j : ℕ) → j ≢ i → get_elem? streams j ≡ get_elem? st.source.streams j

  Touched-suc :
      (left i : ℕ) (st mid st' : SetupState floats rings)
      → Changed i st mid
      → Touched left (i + 1) mid st'
      → Touched (suc left) i st st'
  Touched-suc left i st mid st' c t =
      let moved = λ (j : ℕ). ap (λ o. get_elem? o.streams j) c.source in
      let later : calls_from calls mid.source.streams left (i + 1)
          ≡ calls_from calls st.source.streams left (i + 1) =
        calls_from_cong calls calls mid.source.streams st.source.streams left (i + 1)
          (λ j ge lt. ap (calls_for calls j) (moved j ∙ c.others j (λ e. omega arith))) in
      let first : calls_at calls st.source.streams i ≡ calls i c.s =
        ap (calls_for calls i) c.found in
      record {
        log = t.log ∙ rw (later, c.log, first) (sym (append_assoc _ (calls i c.s) st.log));
        streams = t.streams;
        source =
            t.source
            ∙ ap (λ (o : DpdkSource floats rings). record o { streams = t.streams }) c.source;
        inside = λ j ge lt. elim (dec_lt i j) [
          | yes past ↦
              let (s, found, changed) = t.inside j (omega arith) (omega arith) in
              (s, sym (moved j ∙ c.others j (λ e. omega arith)) ∙ found, changed)
          | no here ↦
              let e : j ≡ i = omega arith in
              rw e (c.s, c.found, t.outside i (inl (omega arith)) ∙ moved i ∙ c.here)
        ];
        outside = λ j h. t.outside j (omega arith) ∙ moved j ∙ c.others j (λ e. omega arith);
      }

  -- A round that, where it returns, changes its stream.
  abbrev pub IsRound : (ℕ → Run (SetupState floats rings) (Unit {0})) → Type 0
  IsRound body =
      (i : ℕ) (st st' : SetupState floats rings) → body i st ≡ (ok tt, st') → Changed i st st'

  pub for_streams-Touched :
      (body : ℕ → Run (SetupState floats rings) (Unit {0}))
      → IsRound body
      → (left i : ℕ) (st st' : SetupState floats rings)
      → for_streams floats rings left i body st ≡ (ok tt, st')
      → Touched left i st st'
  unfolding for_streams
  for_streams-Touched body round zero i st st' run =
      subst (λ (last : SetupState floats rings). Touched 0 i st last) (ap (λ r. r.1) run)
        (record {
          log = refl;
          streams = st.source.streams;
          source = refl;
          inside = λ j ge lt. absurd (omega arith);
          outside = λ j h. refl;
        })
  for_streams-Touched body round (suc left) i st st' run =
      let (u, mid, first, rest) =
        continue-eq-ok (body i st) (λ v. for_streams floats rings left (i + 1) body) run in
      Touched-suc left i st mid st' (round i st mid first)
        (for_streams-Touched body round left (i + 1) mid st' rest)

-- Every round of a loop that returned has returned.
pub for_streams-each :
    (floats : FloatOps) (rings : RingOps) (body : ℕ → Run (SetupState floats rings) (Unit {0}))
    (left i : ℕ) (st st' : SetupState floats rings)
    → for_streams floats rings left i body st ≡ (ok tt, st')
    → (j : ℕ) → i ≤ j
    → j < i + left
    → (before : SetupState floats rings) × (after : SetupState floats rings) × (body j before
        ≡ (ok tt, after))
unfolding for_streams
for_streams-each floats rings body zero i st st' run j ge lt = absurd (omega arith)
for_streams-each floats rings body (suc left) i st st' run j ge lt =
    let (u, mid, first, rest) =
      continue-eq-ok (body i st) (λ v. for_streams floats rings left (i + 1) body) run in
    elim (dec_lt i j) [
      | yes past ↦
          for_streams-each floats rings body left (i + 1) mid st' rest j (omega arith) (omega arith)
      | no here ↦ let e : j ≡ i = omega arith in rw e (st, mid, first)
    ]
