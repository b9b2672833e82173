-- ===== src/Dpdk/Rx/Shutdown.antt =====
-- The end of RXThread: when another thread sets `quit`.
use rs_jerry_driver.Common.{
  ℕ, ◌≡◌, refl, ap, sym, ◌∙◌, Bool, true, false, List, [], ◌∷◌, ◌++◌, Result, ok, err, ◌>>=◌, arith,
}
use rs_jerry_driver.Common.Results.{>>=-eq-ok, >>=_through}
use rs_jerry_driver.Floats.{FloatOps}
use rs_jerry_driver.Dpdk.{Mbuf, RingOps}
use rs_jerry_driver.Dpdk.Rx.{
  RxState, RxEvent, burst, stop, count_packet, enqueue_mbuf, dispose, rx_packet, rx_burst, rx_loop,
}

-- Bursts, and then what follows.
abbrev pub bursts : List (List Mbuf) → List RxEvent → List RxEvent
bursts [] events = events
bursts (mbufs ∷ more) events = burst mbufs ∷ bursts more events

abbrev pub joined : List (List Mbuf) → List Mbuf
joined [] = []
joined (mbufs ∷ more) = mbufs ++ joined more

module _ (floats : FloatOps) (rings : RingOps) where
  abbrev pub with_quit : RxState floats rings → RxState floats rings
  with_quit st = record st { source = record st.source { quit = true } }

  rx_packet-quit :
      (k : ℕ) (m : Mbuf) (st : RxState floats rings) {st' : RxState floats rings}
      → rx_packet floats rings k m st ≡ ok st'
      → st'.source.quit ≡ st.source.quit
  unfolding rx_packet dispose enqueue_mbuf count_packet
  rx_packet-quit k m st h = ground arith

  rx_burst-quit :
      (k : ℕ) (mbufs : List Mbuf) (st : RxState floats rings) {st' : RxState floats rings}
      → rx_burst floats rings k mbufs st ≡ ok st'
      → st'.source.quit ≡ st.source.quit
  unfolding rx_burst
  rx_burst-quit k [] st h = ground arith
  rx_burst-quit k (m ∷ mbufs) st h =
      let (mid, first, rest) = >>=-eq-ok (rx_packet floats rings k m st) _ h in
      rx_burst-quit k mbufs mid rest ∙ rx_packet-quit k m st first

  rx_burst-append :
      (k : ℕ) (xs ys : List Mbuf) (st : RxState floats rings)
      → rx_burst floats rings k (xs ++ ys) st
        ≡ (rx_burst floats rings k xs st >>= λ mid. rx_burst floats rings k ys mid)
  unfolding rx_burst
  rx_burst-append k [] ys st = refl
  rx_burst-append k (m ∷ xs) ys st =
      >>=_through (rx_packet floats rings k m st) (λ mid. rx_burst floats rings k (xs ++ ys) mid)
        (λ mid. rx_burst floats rings k xs mid) (λ last. rx_burst floats rings k ys last)
        (λ mid. rx_burst-append k xs ys mid)

  rx_loop_stopped :
      (k : ℕ) (events : List RxEvent) (st : RxState floats rings)
      → st.source.quit ≡ true
      → rx_loop floats rings k events st ≡ ok st
  unfolding rx_loop
  rx_loop_stopped k [] st h = rw h refl
  rx_loop_stopped k (stop ∷ events) st h =
      rx_loop_stopped k events (with_quit st) refl
      ∙ ap (λ (b : Bool). ok (record st { source = record st.source { quit = b } })) (sym h)
  rx_loop_stopped k (burst mbufs ∷ events) st h = rw h refl

  rx_loop-burst :
      (k : ℕ) (mbufs : List Mbuf) (events : List RxEvent) (st : RxState floats rings)
      → st.source.quit ≡ false
      → rx_loop floats rings k (burst mbufs ∷ events) st
        ≡ (rx_burst floats rings k mbufs st >>= λ mid. rx_loop floats rings k events mid)
  unfolding rx_loop
  rx_loop-burst k mbufs events st h =
      ap
        (λ (b : Bool). elim b as (λ _. Result (RxState floats rings)) [
          | true ↦ ok st
          | false ↦ rx_burst floats rings k mbufs st >>= λ mid. rx_loop floats rings k events mid
        ])
        h

  -- RXThread ends when it is told to: a thread that still runs goes through the packets of all
  -- bursts that arrive before `quit` is set, in order and as if they were one burst, and then
  -- returns with the flag set, whatever arrives afterwards; if a packet throws, so does the thread.
  pub rx_loop-stop :
      (k : ℕ) (batches : List (List Mbuf)) (events : List RxEvent) (st : RxState floats rings)
      → st.source.quit ≡ false
      → rx_loop floats rings k (bursts batches (stop ∷ events)) st
        ≡ (rx_burst floats rings k (joined batches) st >>= λ last. ok (with_quit last))
  unfolding rx_loop
  rx_loop-stop k [] events st h = unfold rx_burst in rx_loop_stopped k events (with_quit st) refl
  rx_loop-stop k (mbufs ∷ batches) events st h =
      rx_loop-burst k mbufs (bursts batches (stop ∷ events)) st h
      ∙ go (rx_burst floats rings k mbufs st) refl
          (λ mid e. rx_loop-stop k batches events mid (rx_burst-quit k mbufs st e ∙ h))
      ∙ ap (λ (r : Result (RxState floats rings)). r >>= λ last. ok (with_quit last))
          (sym (rx_burst-append k mbufs (joined batches) st))
    where
      go :
          (r : Result (RxState floats rings))
          → rx_burst floats rings k mbufs st ≡ r
          → ((mid : RxState floats rings)
              → rx_burst floats rings k mbufs st ≡ ok mid
              → rx_loop floats rings k (bursts batches (stop ∷ events)) mid
                ≡ (rx_burst floats rings k (joined batches) mid >>= λ last. ok (with_quit last)))
          → (r >>= λ mid. rx_loop floats rings k (bursts batches (stop ∷ events)) mid) ≡ (
              (r >>= λ mid. rx_burst floats rings k (joined batches) mid) >>= λ last.
              ok (with_quit last))
      go (ok mid) e ih = ih mid e
      go (err x) e ih = refl
