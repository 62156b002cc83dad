-- ===== src/Tcp/Run/Stall.antt =====
-- `run` under configurations with no room for a probe.
use netscan.Base.{
  Bytes, List, [], ap, arith, false, inl, inr, length, refl, suc, sym, true, zero, ℕ, ◌+◌, ◌<◌, ◌∙◌,
  ◌∷◌, ◌≡◌, ◌⊎◌,
}
use netscan.Sys.{Timespec, returns, returns_injective, pending-ne-returns, >>=-eq-returns}
use netscan.Utils.{NetworkInterface, safe_batch_size}
use netscan.Tcp.State.{TcpScannerConfig, Setup, make_setup, Scan, start}
use netscan.Tcp.Connect.{ConnectAnswers, may_initiate, initiate_loop, initiate_connections}
use netscan.Tcp.Reap.{close_probe, reap_slot, reap_from, reap_timed_out_probes}
use netscan.Tcp.Poll.{Event, record_open, poll_event, poll_connections}
use netscan.Tcp.Run.{Round, is_unfinished, turn, run_loop, run}

-- No probe may be started: there is no slot, or no room in a batch.
abbrev NoRoom : Setup → Type 0
NoRoom c = (c.max_probes ≡ 0) ⊎ (c.batch_size ≡ 0)

poll_position :
    (c : Setup) (inet_ntop : Bytes → Bytes) (es : List Event) (s : Scan)
    → (poll_connections c inet_ntop es s).next_host_idx ≡ s.next_host_idx
unfolding poll_connections poll_event record_open close_probe
poll_position c inet_ntop [] s = refl
poll_position c inet_ntop (e ∷ es) s =
    poll_position c inet_ntop es (poll_event c inet_ntop e s) ∙ ground arith

reap_position :
    (c : Setup) (now : Timespec) (n i : ℕ) (s : Scan)
    → (reap_from c now n i s).next_host_idx ≡ s.next_host_idx
unfolding reap_from reap_slot close_probe
reap_position c now zero i s = refl
reap_position c now (suc n) i s = reap_position c now n (i + 1) (reap_slot c now i s) ∙ ground arith

module _ (c : Setup) (inet_ntop : Bytes → Bytes) (closed : NoRoom c)
    (hosts : 0 < c.total_hosts) where
  never_initiates : (s : Scan) → may_initiate c 0 s ≡ false
  never_initiates s = ground (arith, closed)

  initiates_nothing :
      (answers : List ConnectAnswers) (s : Scan) → initiate_connections c answers s ≡ returns s
  unfolding initiate_connections initiate_loop
  initiates_nothing [] s = rw (never_initiates s, initiate_loop)
  initiates_nothing (a ∷ rest) s = rw (never_initiates s, initiate_loop)

  turn_position :
      (r : Round) (s : Scan) {s' : Scan}
      → turn c inet_ntop r s ≡ returns s'
      → s'.next_host_idx ≡ s.next_host_idx
  unfolding turn reap_timed_out_probes
  turn_position r s h =
      let after = poll_connections c inet_ntop r.events s in
      let e =
        returns_injective _ _
          (rw (initiates_nothing r.connects s, turn, reap_timed_out_probes) at h) in
      ap (λ (x : Scan). x.next_host_idx) (sym e)
      ∙ reap_position c r.reap_time (length after.probe_table) 0 after
      ∙ poll_position c inet_ntop r.events s

  unfinished : (s : Scan) → s.next_host_idx ≡ 0 → is_unfinished c s ≡ true
  unfinished s z = ground (arith, z, hosts)

  never_returns :
      (rounds : List Round) (s s' : Scan)
      → s.next_host_idx ≡ 0
      → ¬ (run_loop c inet_ntop rounds s ≡ returns s')
  unfolding run_loop
  never_returns [] s s' z h = pending-ne-returns (rw (unfinished s z, run_loop) at h)
  never_returns (r ∷ rounds) s s' z h =
      let (m, e, q) =
        >>=-eq-returns (turn c inet_ntop r s) (run_loop c inet_ntop rounds)
          (rw (unfinished s z, run_loop) at h) in
      never_returns rounds m s' (turn_position r s e ∙ z) q

-- With `--probes 0` or `--send-batch 0` a TCP scan of a range that is not empty never returns,
-- whatever the network does.
pub tcp_run_stalls :
    (config : TcpScannerConfig) (interface : NetworkInterface) (inet_ntop : Bytes → Bytes)
    (rounds : List Round) (s : Scan)
    → (config.max_probes ≡ 0) ⊎ (config.batch_size ≡ 0)
    → 0 < config.total_hosts
    → ¬ (run (make_setup config interface) inet_ntop rounds ≡ returns s)
unfolding run make_setup safe_batch_size start
tcp_run_stalls config interface inet_ntop rounds s closed hosts h =
    let c = make_setup config interface in
    let room : NoRoom c = elim closed [ inl e ↦ inl (omega arith) | inr e ↦ inr (omega arith) ] in
    never_returns c inet_ntop room hosts rounds (start c) s refl h
