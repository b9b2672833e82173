-- ===== src/Iq/Sources/Exclusive.antt =====
-- A second source over the kernel's sockets: the first one keeps the address.
use rs_jerry_driver.Common.{
  ℕ, ◌≡◌, ◌≢◌, refl, ap, sym, subst, Bool, true, false, List, [], ◌∷◌, ◌++◌, Option, none, some,
  Result, ok, err, htons, exit_process, if◌then◌else◌,
}
use mathlib.Core.List.{Mem, mem-cons_self}
use rs_jerry_driver.Common.Results.{>>=-eq-ok}
use rs_jerry_driver.Common.Run.{continue-eq-ok}
use rs_jerry_driver.Floats.{FloatOps}
use rs_jerry_driver.Net.{SockAddr, af_inet}
use rs_jerry_driver.Parser.{new_hrzr_parser}
use rs_jerry_driver.Udp.{UdpSource, new_udp_source, connect, exit_unless, server, port_number}
use rs_jerry_driver.Dpdk.{RingOps}
use rs_jerry_driver.Dpdk.Setup.{DpdkOps}
use rs_jerry_driver.Iq.Sources.{Network, sockets_of, udp_made, setup_udp_source}
use rs_jerry_driver.Iq.Sources.Calls.{
  SourceCall, begin_udp, World, KeepsAddresses, perform, perform_all, perform-Effect,
}

-- What the documentation of `bind` says: an address that an open socket is bound to is refused.
pub record IsExclusive (network : Network) : Type 0 where
  pub refuses :
      (in_use : List SockAddr) (s : ℕ) (a : SockAddr)
      → Mem a in_use
      → network.bind in_use s a ≡ false

-- The address that every source binds its socket to.
abbrev pub address : ℕ → SockAddr
address addr = record { family = af_inet; port = htons port_number; addr = addr }

exit_unless-eq-ok : (o : Option ℕ) (a : ℕ) → exit_unless o ≡ ok a → o ≡ some a
unfolding exit_unless
exit_unless-eq-ok none a h = absurd (cc)
exit_unless-eq-ok (some b) a h = cc

module _ (floats : FloatOps) (rings : RingOps) (network : Network) (ops : DpdkOps rings) where
  unless_exit :
      (test : Bool) (made source : UdpSource floats)
      → (if test then ok made else err exit_process) ≡ ok source
      → (test ≡ true) × (made ≡ source)
  unless_exit true made source h = (refl, cc)
  unless_exit false made source h = absurd (cc)

  -- A source that was made is bound to the address, which was free.
  new_udp_source_bound :
      (in_use : List SockAddr) (memory source : UdpSource floats) (norm : floats.Float)
      → new_udp_source floats (sockets_of network in_use) memory norm ≡ ok source
      → (s addr : ℕ) × (source.si_other ≡ address addr)
        × (network.inet_pton server ≡ some addr)
        × (network.bind in_use s (address addr) ≡ true)
  unfolding new_udp_source connect
  new_udp_source_bound in_use memory source norm h =
      let (parser, made, h0) = >>=-eq-ok (new_hrzr_parser floats norm) _ h in
      let (s, opened, h1) = >>=-eq-ok (exit_unless network.socket) _ h0 in
      let (addr, known, h2) = >>=-eq-ok (exit_unless (network.inet_pton server)) _ h1 in
      let (free, here) = unless_exit (network.bind in_use s (address addr)) _ source h2 in
      (
        s,
        addr,
        ap (λ (x : UdpSource floats). x.si_other) (sym here),
        exit_unless-eq-ok (network.inet_pton server) addr known,
        free,
      )

  setup_udp_address :
      (memory : UdpSource floats) (w w' : World floats rings)
      → setup_udp_source floats rings network memory w ≡ (ok tt, w')
      → (s addr : ℕ) × (network.inet_pton server ≡ some addr)
        × (network.bind w.in_use s (address addr) ≡ true)
        × Mem (address addr) w'.in_use
  unfolding setup_udp_source
  setup_udp_address memory w w' h =
      go (new_udp_source floats (sockets_of network w.in_use) memory w.client.norm) refl h
    where
      go :
          (r : Result (UdpSource floats))
          → new_udp_source floats (sockets_of network w.in_use) memory w.client.norm ≡ r
          → udp_made floats rings r w ≡ (ok tt, w')
          → (s addr : ℕ) × (network.inet_pton server ≡ some addr)
            × (network.bind w.in_use s (address addr) ≡ true)
            × Mem (address addr) w'.in_use
      go (ok source) made run =
          let (s, addr, here, known, free) =
            new_udp_source_bound w.in_use memory source w.client.norm made in
          (
            s,
            addr,
            known,
            free,
            subst (Mem (address addr)) (ap (λ r. r.1.in_use) run) (
                subst (λ (a : SockAddr). Mem (address addr) (a ∷ w.in_use)) (sym here)
                  mem-cons_self),
          )
      go (err e) made run = absurd (cc)

  -- A run goes through what stands before the rest, and no address gets free.
  perform_all_keeps :
      (calls rest : List (SourceCall floats rings)) (w w' : World floats rings)
      → perform_all floats rings network ops (calls ++ rest) w ≡ (ok tt, w')
      → (mid : World floats rings) × KeepsAddresses floats rings w mid
        × (perform_all floats rings network ops rest mid ≡ (ok tt, w'))
  perform_all_keeps [] rest w w' h = (w, record { keeps = λ a m. m }, h)
  perform_all_keeps (call ∷ calls) rest w w' h =
      let (u, mid, first, more) = continue-eq-ok (perform floats rings network ops call w) _ h in
      let (last, kept, end) = perform_all_keeps calls rest mid w' more in
      let now = (perform-Effect floats rings network ops call w mid first).1 in
      (last, record { keeps = λ a m. kept.keeps a (now.keeps a m) }, end)

  -- The address is never given back: where `bind` refuses an address that is in use, no run returns
  -- that sets a source up over the kernel's sockets twice, whatever calls stand between the two, a
  -- tear-down included.
  pub perform_all_exclusive :
      IsExclusive network
      → (memory memory' : UdpSource floats) (calls rest : List (SourceCall floats rings))
        (w w' : World floats rings)
      → perform_all floats rings network ops
          (begin_udp memory ∷ (calls ++ begin_udp memory' ∷ rest))
          w
        ≢ (ok tt, w')
  perform_all_exclusive exclusive memory memory' calls rest w w' h =
      let (u, mid, first, more) =
        continue-eq-ok (setup_udp_source floats rings network memory w) _ h in
      let (s, addr, known, free, used) = setup_udp_address memory w mid first in
      let (mid', kept, more') = perform_all_keeps calls (begin_udp memory' ∷ rest) mid w' more in
      let (u', last, second, end) =
        continue-eq-ok (setup_udp_source floats rings network memory' mid') _ more' in
      let (s', addr', known', free', used') = setup_udp_address memory' mid' last second in
      let same : addr ≡ addr' = cc in
      let refused =
        exclusive.refuses mid'.in_use s' (address addr')
          (subst (λ (a : ℕ). Mem (address a) mid'.in_use) same (kept.keeps (address addr) used)) in
      absurd (cc)
