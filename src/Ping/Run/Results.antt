-- ===== src/Ping/Run/Results.antt =====
-- What `run` returns: the invariant over all rounds, and how the loop can end.
use netscan.Base.{
  Bool, Bool-cases, List, [], ap, arith, false, inl, inr, ltb-false→le, or_eq_false, refl, subst,
  sym, true, ◌==◌, ◌∷◌, ◌≡◌, ◌⊎◌,
}
use mathlib.Core.List.{Memᴰ}
use netscan.Sys.{
  Timespec, Outcome, returns, ◌>>=◌, returns_injective, pending-ne-returns, >>=-eq-returns,
}
use netscan.Ping.State.{Setup, Batch, Scan, PingHostResult, start}
use netscan.Ping.Packet.{Host}
use netscan.Ping.Send.{SendAnswer, populate_batch_entries, send_batch}
use netscan.Ping.Send.Populate.Loop.{populate-ScanInv, populate_fits}
use netscan.Ping.Send.Flush.{flush-ScanInv}
use netscan.Ping.Receive.{receive_responses}
use netscan.Ping.Receive.Keeps.{receive-ScanInv}
use netscan.Ping.Reap.Keeps.{reap-ScanInv}
use netscan.Ping.Run.{Round, is_unfinished, finish_round, run_loop, PingScanResult, run}
use netscan.Ping.Table.{IsSetup}
use netscan.Ping.Invariant.{
  Distinct, AllInRange, ips, ScanInv, Shrinks-refl, shrink-ScanInv, start-ScanInv,
}

-- The scan with an empty batch.
abbrev pub cleared : Scan → Scan
cleared s = record s { batch = record (s.batch) { batch_count = 0 } }

pub cleared-ScanInv : (c : Setup) (s : Scan) → ScanInv c s → ScanInv c (cleared s)
cleared-ScanInv c s v =
    shrink-ScanInv c s (cleared s) v (Shrinks-refl c s.table v.table) refl refl v.position

module _ (c : Setup) (o : Host) (u : IsSetup c) where
  pub send_batch-ScanInv :
      (ts : Timespec) (answers : List SendAnswer) (s : Scan) {r : Bool × Scan}
      → ScanInv c s
      → send_batch c o ts answers s ≡ returns r
      → ScanInv c r.1
  unfolding send_batch
  send_batch-ScanInv ts answers s {r} v h =
      let s' = populate_batch_entries c o ts (cleared s) in
      let v' = populate-ScanInv c o ts u (cleared s) (cleared-ScanInv c s v) in
      elim (Bool-cases (s'.batch.batch_count == 0)) [
        | inl none_new ↦
            subst (ScanInv c)
              (ap (λ (x : Bool × Scan). x.1)
                (returns_injective _ _ (rw (none_new, send_batch) at h)))
              v'
        | inr some_new ↦
            flush-ScanInv c answers s' u v'
              (populate_fits c o ts u (cleared s) (cleared-ScanInv c s v) refl).0
              (rw (some_new, send_batch) at h)
      ]

  pub finish_round-ScanInv :
      (r : Round) (s : Scan) {s' : Scan}
      → ScanInv c s
      → finish_round c o r s ≡ returns s'
      → ScanInv c s'
  unfolding finish_round
  finish_round-ScanInv r s v h =
      let (m, e, q) = >>=-eq-returns (receive_responses c o true r.readable r.receipts s) _ h in
      subst (ScanInv c) (returns_injective _ _ q)
        (reap-ScanInv c r.reap_time m u (receive-ScanInv c o true r.readable r.receipts s u v e))

  -- The loop has ended by its test, or in a round whose sending failed.
  abbrev Ended : List Round → Scan → Type 0
  Ended rounds s =
      (is_unfinished c s ≡ false)
      ⊎ ((r : Round) × (s1 : Scan) × Memᴰ r rounds
          × (send_batch c o r.send_ts r.sends s1 ≡ returns (false, s)))

  Ended-later : (r : Round) (rounds : List Round) (s : Scan) → Ended rounds s → Ended (r ∷ rounds) s
  Ended-later r rounds s (inl e) = inl e
  Ended-later r rounds s (inr (q, s1, m, e)) = inr (q, s1, Memᴰ.tail m, e)

  -- What a round does after its sending, with the rest of the loop as `k`.
  abbrev onward : Round → (Scan → Outcome Scan) → Bool → Scan → Outcome Scan
  onward r k ok m = elim ok [ false ↦ returns m | true ↦ finish_round c o r m >>= λ s'. k s' ]

  abbrev Good : List Round → Scan → Type 0
  Good rounds s = ScanInv c s × Ended rounds s

  onward_ends :
      (r : Round) (rounds : List Round) (s m : Scan) (ok : Bool) {s' : Scan}
      → ((x : Scan) → ScanInv c x → run_loop c o rounds x ≡ returns s' → Good rounds s')
      → ScanInv c m
      → send_batch c o r.send_ts r.sends s ≡ returns (ok, m)
      → onward r (run_loop c o rounds) ok m ≡ returns s'
      → Good (r ∷ rounds) s'
  onward_ends r rounds s m false {s'} ih v e q =
      subst (Good (r ∷ rounds)) (returns_injective _ _ q) (v, inr (r, s, Memᴰ.head refl, e))
  onward_ends r rounds s m true {s'} ih v e q =
      let (x, f, g) = >>=-eq-returns (finish_round c o r m) (run_loop c o rounds) q in
      let (w, d) = ih x (finish_round-ScanInv r m v f) g in (w, Ended-later r rounds s' d)

  pub run_loop_ends :
      (rounds : List Round) (s : Scan) {s' : Scan}
      → ScanInv c s
      → run_loop c o rounds s ≡ returns s'
      → Good rounds s'
  unfolding run_loop
  run_loop_ends [] s {s'} v h = elim (Bool-cases (is_unfinished c s)) [
    | inl more ↦ absurd (pending-ne-returns (rw (more, run_loop) at h))
    | inr done ↦ subst (Good []) (returns_injective _ _ (rw (done, run_loop) at h)) (v, inl done)
  ]
  run_loop_ends (r ∷ rounds) s {s'} v h = elim (Bool-cases (is_unfinished c s)) [
    | inr done ↦
        subst (Good (r ∷ rounds)) (returns_injective _ _ (rw (done, run_loop) at h)) (v, inl done)
    | inl more ↦
        let (a, e, q) =
          >>=-eq-returns (send_batch c o r.send_ts r.sends s)
            (λ x. onward r (run_loop c o rounds) x.0 x.1) (rw (more, run_loop) at h) in
        onward_ends r rounds s a.1 a.0 (λ x w g. run_loop_ends rounds x w g)
          (send_batch-ScanInv r.send_ts r.sends s v e) e q
  ]

  -- Every host of the result lies in the range that was asked for, and none stands there twice.
  pub run_results :
      (buffers : Batch) (rounds : List Round) {r : PingScanResult}
      → run c o buffers rounds ≡ returns r
      → Distinct (ips r.hosts) × AllInRange c (ips r.hosts)
  unfolding run
  run_results buffers rounds {r} h =
      let (s, e, q) = >>=-eq-returns (run_loop c o rounds (start c buffers)) _ h in
      let (v, _) = run_loop_ends rounds (start c buffers) (start-ScanInv c buffers) e in
      let hosts : s.finds.scan_results ≡ r.hosts =
        ap (λ (x : PingScanResult). x.hosts) (returns_injective _ _ q) in
      subst (λ (xs : List PingHostResult). Distinct (ips xs) × AllInRange c (ips xs)) hosts
        (
          subst Distinct (sym v.finds.cached) v.finds.distinct,
          subst (AllInRange c) (sym v.finds.cached) v.finds.ranged,
        )

  -- When the loop returns, every host was handed out and no probe is in flight, unless the sending of
  -- some round had failed: then the scan stops where that round left it.
  pub run_loop_complete :
      (buffers : Batch) (rounds : List Round) {s : Scan}
      → run_loop c o rounds (start c buffers) ≡ returns s
      → ((s.next_host_idx ≡ c.total_hosts) × (s.table.active_probes ≡ 0))
        ⊎ ((r : Round) × (s1 : Scan) × Memᴰ r rounds
            × (send_batch c o r.send_ts r.sends s1 ≡ returns (false, s)))
  run_loop_complete buffers rounds {s} h =
      let (v, d) = run_loop_ends rounds (start c buffers) (start-ScanInv c buffers) h in
      elim d [
        | inl e ↦
            let (a, b) = or_eq_false _ _ e in
            inl (
              omega (arith, v.position, ltb-false→le s.next_host_idx c.total_hosts a),
              omega (arith, ltb-false→le 0 s.table.active_probes b),
            )
        | inr f ↦ inr f
      ]
