-- ===== src/Tcp/Run/Closed.antt =====
-- The state in which `TcpScanner::run` returns.
use netscan.Base.{
  Bool-cases, Bytes, List, [], ap, arith, count_if, eqb_ℤ_iff, false, inl, inr, length, refl, subst,
  to_ℕ, ℕ, ℤ, ◌∷◌, ◌≡◌, ◌≤◌,
}
use netscan.Base.{Bytes}
use netscan.Sys.{returns, returns_injective, pending-ne-returns, >>=-eq-returns}
use netscan.Tcp.State.{ProbeInfo, Setup, Scan, start}
use netscan.Tcp.Connect.{initiate_connections}
use netscan.Tcp.Run.{Round, is_unfinished, turn, run_loop, run}
use netscan.Tcp.Invariant.{
  IsSetup, TableInv, ScanInv, start-ScanInv, Found, is_active, holds, count_fd,
}
use netscan.Tcp.Initiate.{initiate-ScanInv}
use netscan.Tcp.Keeps.{poll-ScanInv, reap-ScanInv}

pub none_open : (opened : List ℤ) → ((fd : ℤ) → count_fd fd opened ≡ 0) → opened ≡ []
none_open [] h = refl
none_open (x ∷ xs) h = absurd (omega (arith, h x, ap to_ℕ ((eqb_ℤ_iff x x).1 refl)))

holds-le-active : (fd : ℤ) (ps : List ProbeInfo) → count_if (holds fd) ps ≤ count_if is_active ps
holds-le-active fd [] = omega arith
holds-le-active fd (p ∷ ps) = elim (Bool-cases p.active) [
  | inl a ↦ rw a (ground (arith, holds-le-active fd ps))
  | inr i ↦ rw i (omega (arith, holds-le-active fd ps))
]

-- Without a probe in flight no socket is open.
idle_closed :
    (c : Setup) (ps : List ProbeInfo) (n : ℕ) (opened : List ℤ)
    → TableInv c ps n opened
    → n ≡ 0
    → opened ≡ []
idle_closed c ps n opened v z =
    none_open opened (λ fd. omega (arith, v.owned fd, holds-le-active fd ps, v.counted))

module _ (c : Setup) (inet_ntop : Bytes → Bytes) (u : IsSetup c) where
  turn-ScanInv :
      (r : Round) (s : Scan) {s' : Scan}
      → ScanInv c s
      → turn c inet_ntop r s ≡ returns s'
      → ScanInv c s'
  unfolding turn
  turn-ScanInv r s v h =
      let (m, e, q) = >>=-eq-returns (initiate_connections c r.connects s) _ h in
      subst (ScanInv c) (returns_injective _ _ q) (
        reap-ScanInv c r.reap_time _
          (poll-ScanInv c inet_ntop r.events m (initiate-ScanInv c u r.connects s v e)))

  run_loop_ends :
      (rounds : List Round) (s : Scan) {s' : Scan}
      → ScanInv c s
      → run_loop c inet_ntop rounds s ≡ returns s'
      → ScanInv c s' × (is_unfinished c s' ≡ false)
  unfolding run_loop
  run_loop_ends [] s {s'} v h = elim (Bool-cases (is_unfinished c s)) [
    | inl more ↦ absurd (pending-ne-returns (rw (more, run_loop) at h))
    | inr done ↦
        let e = returns_injective _ _ (rw (done, run_loop) at h) in
        (subst (ScanInv c) e v, subst (λ (x : Scan). is_unfinished c x ≡ false) e done)
  ]
  run_loop_ends (r ∷ rs) s v h = elim (Bool-cases (is_unfinished c s)) [
    | inr done ↦
        let e = returns_injective _ _ (rw (done, run_loop) at h) in
        (subst (ScanInv c) e v, subst (λ (x : Scan). is_unfinished c x ≡ false) e done)
    | inl more ↦
        let (m, e, q) = >>=-eq-returns (turn c inet_ntop r s) _ (rw (more, run_loop) at h) in
        run_loop_ends rs m (turn-ScanInv r s v e) q
  ]

  -- Whatever the system calls answer: when a scan returns, every socket it opened is closed, no probe
  -- is in flight, all hosts were handed out, and the hosts found are distinct, lie in the range, are
  -- neither the network nor the broadcast address of a local network, and are as many as
  -- `hosts_found`.
  pub run_closed :
      (rounds : List Round) {s : Scan}
      → run c inet_ntop rounds ≡ returns s
      → (s.opened ≡ [])
        × (s.active_probes ≡ 0)
        × (c.total_hosts ≤ s.next_host_idx)
        × Found c s.scan_results
        × (s.hosts_found ≡ length s.scan_results)
  unfolding run
  run_closed rounds {s} h =
      let (v, done) = run_loop_ends rounds (start c) (start-ScanInv c) h in
      let idle : s.active_probes ≡ 0 = ground (arith, done) in
      (
        idle_closed c s.probe_table s.active_probes s.opened v.table idle,
        idle,
        ground (arith, done),
        v.found,
        v.found_count,
      )
