-- ===== src/Dpdk/Threads/Drain.antt =====
-- The threads come to an end when they are told to quit.
use rs_jerry_driver.Common.{
  ℕ, suc, ◌+◌, ◌≡◌, refl, ap, ◌∙◌, true, List, length, length-append, arith,
}
use rs_jerry_driver.Common.Family.{total, total-update}
use rs_jerry_driver.Floats.{FloatOps}
use rs_jerry_driver.Dpdk.{RingOps}
use rs_jerry_driver.Dpdk.Threads.{
  Access, Thread, System, Step, poll, advance, stop, Reach, start, later,
}
use rs_jerry_driver.Dpdk.Threads.Handing.{access-quit}

-- What a thread has still to do.
abbrev pub left : Thread → ℕ
left t = length t.program

module _ (floats : FloatOps) (rings : RingOps) where
  -- The number of steps of a run: the bursts that arrive, the accesses and the stops.
  abbrev pub steps :
      {n : ℕ} {s t : System floats rings} {trace : List (ℕ × Access)}
      → Reach floats rings n s trace t
      → ℕ
  steps start = 0
  steps (later r step) = suc (steps r)

  Step-left :
      (n : ℕ) (s t : System floats rings) (more : List (ℕ × Access))
      → s.source.quit ≡ true
      → Step floats rings n s more t
      → (t.source.quit ≡ true)
        × (length more ≡ 1)
        × (1 + total left n t.threads ≡ total left n s.threads)
  Step-left n s t more quits (poll i mbufs lt empty running) = absurd (ground arith)
  Step-left n s t more quits (stop running) = absurd (ground arith)
  Step-left n s t more quits (advance i a rest {t = thread} {source} lt next done) =
      let before : left (s.threads i) ≡ suc (length rest) = ap length next in
      (
        access-quit floats rings i a (s.threads i) thread s.source source done ∙ quits,
        refl,
        omega
            (arith, before, total-update left n i (record thread { program = rest }) s.threads lt),
      )

  -- When the flag is set, the threads come to an end: the flag stays, every further step of any
  -- thread is an access (no thread receives a burst again, a poll being a step without access), and
  -- with each step the accesses that are left in the programs of all threads get one fewer, so that
  -- no run is longer than what was left when the flag was set.
  pub Reach-left :
      (n : ℕ) (s t : System floats rings) (trace : List (ℕ × Access))
      → s.source.quit ≡ true
      → (r : Reach floats rings n s trace t)
      → (t.source.quit ≡ true)
        × (steps r ≡ length trace)
        × (steps r + total left n t.threads ≡ total left n s.threads)
  Reach-left n s t trace quits start = (quits, refl, omega arith)
  Reach-left n s t trace quits (later {trace = before} {more} {t = middle} r step) =
      let (still, counted, sum) = Reach-left n s middle before quits r in
      let (still', one, sum') = Step-left n middle t more still step in
      (still', omega (arith, counted, one, length-append more before), omega (arith, sum, sum'))
