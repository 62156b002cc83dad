-- ===== src/Tcp/Refines/Runs.antt =====
-- Whole scans as sequences of steps of the specification.
use netscan.Base.{
  Bool-cases, Bytes, List, [], and_eq_true, arith, count_if, count_if-replicate, eqb_ℤ, eqb_ℤ_iff,
  false, get_or, if◌then◌else◌, inl, inr, is_neg, not, pos, refl, subst, sym, true, ℕ, ◌∷◌, ◌≡◌,
}
use netscan.Sys.{returns, returns_injective, pending-ne-returns, >>=-eq-returns}
use netscan.Tcp.State.{Setup, Scan, start}
use netscan.Tcp.Connect.{initiate_connections}
use netscan.Tcp.Poll.{poll_connections}
use netscan.Tcp.Run.{Round, is_unfinished, turn, run_loop, run}
use netscan.Tcp.Invariant.{IsSetup, ScanInv, start-ScanInv}
use netscan.Tcp.Initiate.{initiate-ScanInv}
use netscan.Tcp.Keeps.{poll-ScanInv, reap-ScanInv}
use netscan.Tcp.Refines.{Tracks, probes_ip, ips}
use mathlib.Core.List.{Memᴰ}
use netscan.Tcp.Poll.{Event, is_connected}
use netscan.Tcp.State.{no_probe}
use netscan.Tcp.Spec.{Progress, initial, Reach, here, Once, initial-Once, Reach-Once}
use netscan.Tcp.Refines.Connects.{initiate-Tracks}
use netscan.Tcp.Refines.Events.{poll-Tracks, reap-Tracks}

-- A progress that is what the scan amounts to: the position, the probes in flight for each address,
-- and the addresses found, all of which were reported if there is a callback.
pub record Matches (c : Setup) (a : Progress) (s : Scan) : Type 0 where
  pub same_next : a.next ≡ s.next_host_idx
  pub same_live : (ip : ℕ) → a.live ip ≡ count_if (probes_ip ip) s.probe_table
  pub same_found : a.found ≡ ips s.scan_results
  pub told : s.reported ≡ (if c.has_callback then s.scan_results else [])

-- An event of the round says that the connection to the host succeeded: `getsockopt` worked, SO_ERROR
-- is 0, and the host is the one that the table has in the slot of the event when polling starts.
abbrev pub Answered : Round → Scan → ℕ → Type 0
Answered r s host =
    (e : Event) × Memᴰ e r.events
    × (is_neg e.getsockopt.value ≡ false)
    × (e.sock_err ≡ pos 0)
    × ((get_or s.probe_table e.slot no_probe).dest_ip ≡ host)

-- Every turn of the loop that leads from one scan to the other is some steps of the specification,
-- which finds hosts only by events of that turn.
pub data Simulated (c : Setup) (inet_ntop : Bytes → Bytes)
    : List Round → Scan → Progress → Scan → Progress → Type 0 where
  stop : {rounds : List Round} {s : Scan} {a : Progress} → Simulated c inet_ntop rounds s a s a
  onward :
      {r : Round} {rounds : List Round} {s p m s' : Scan} {a b d : Progress}
      → turn c inet_ntop r s ≡ returns m
      → initiate_connections c r.connects s ≡ returns p
      → Reach c (Answered r p) a b
      → Matches c b m
      → Simulated c inet_ntop rounds m b s' d
      → Simulated c inet_ntop (r ∷ rounds) s a s' d

module _ (c : Setup) (inet_ntop : Bytes → Bytes) (u : IsSetup c) where
  start-Matches : Matches c initial (start c)
  unfolding start
  start-Matches = record {
    same_next = refl;
    same_live = λ ip. sym (count_if-replicate (probes_ip ip) c.max_probes no_probe refl);
    same_found = refl;
    told = ground arith;
  }

  Tracks-Matches :
      {Open : ℕ → Type 0} {a : Progress} {s : Scan} (t : Tracks c Open a s) → Matches c t.progress s
  Tracks-Matches t = record {
    same_next = t.same_next;
    same_live = t.same_live;
    same_found = t.same_found;
    told = t.told;
  }

  succeeded :
      (r : Round) (s : Scan) (e : Event)
      → Memᴰ e r.events
      → is_connected e ≡ true
      → Answered r s (get_or s.probe_table e.slot no_probe).dest_ip
  succeeded r s e m h =
      let (g, q) = and_eq_true (not (is_neg e.getsockopt.value)) (eqb_ℤ e.sock_err (pos 0)) h in
      (e, m, ground (arith, g), (eqb_ℤ_iff e.sock_err (pos 0)).0 q, refl)

  turn-Tracks :
      (r : Round) (s : Scan) (a : Progress) {s' : Scan}
      → ScanInv c s
      → Once c a
      → Matches c a s
      → turn c inet_ntop r s ≡ returns s'
      → ScanInv c s'
        × (p : Scan) × (initiate_connections c r.connects s ≡ returns p)
        × Tracks c (Answered r p) a s'
  unfolding turn
  turn-Tracks r s a v o w h =
      let (m, e, q) = >>=-eq-returns (initiate_connections c r.connects s) _ h in
      let p = poll_connections c inet_ntop r.events m in
      let t : Tracks c (Answered r m) a s = record {
        sound = o;
        progress = a;
        reached = here;
        same_next = w.same_next;
        same_live = w.same_live;
        same_found = w.same_found;
        told = w.told;
      } in
      let same = returns_injective _ _ q in
      (
        subst (ScanInv c) same (
            reap-ScanInv c r.reap_time p
              (poll-ScanInv c inet_ntop r.events m (initiate-ScanInv c u r.connects s v e))),
        m,
        e,
        subst (Tracks c (Answered r m) a) same (
            reap-Tracks c (Answered r m) a r.reap_time p (
              poll-Tracks c (Answered r m) a inet_ntop r.events m (succeeded r m)
                (initiate-Tracks c (Answered r m) a u r.connects s v t e))),
      )

  abbrev Run : List Round → Scan → Progress → Scan → Type 0
  Run rounds s a s' = (b : Progress) × Simulated c inet_ntop rounds s a s' b × Matches c b s'

  stopped : (rounds : List Round) (s : Scan) (a : Progress) → Matches c a s → Run rounds s a s
  stopped rounds s a w = (a, stop, w)

  run_loop-Simulated :
      (rounds : List Round) (s : Scan) (a : Progress) {s' : Scan}
      → ScanInv c s
      → Once c a
      → Matches c a s
      → run_loop c inet_ntop rounds s ≡ returns s'
      → Run rounds s a s'
  unfolding run_loop
  run_loop-Simulated [] s a v o w h = elim (Bool-cases (is_unfinished c s)) [
    | inl more ↦ absurd (pending-ne-returns (rw (more, run_loop) at h))
    | inr done ↦
        subst (Run [] s a) (returns_injective _ _ (rw (done, run_loop) at h)) (stopped [] s a w)
  ]
  run_loop-Simulated (r ∷ rs) s a v o w h = elim (Bool-cases (is_unfinished c s)) [
    | inr done ↦
        subst (Run (r ∷ rs) s a) (returns_injective _ _ (rw (done, run_loop) at h))
          (stopped (r ∷ rs) s a w)
    | inl more ↦
        let (m, e, q) = >>=-eq-returns (turn c inet_ntop r s) _ (rw (more, run_loop) at h) in
        let (v', p, i, t) = turn-Tracks r s a v o w e in
        let (d, x, y) =
          run_loop-Simulated rs m t.progress v' (Reach-Once c (Answered r p) a o t.reached)
            (Tracks-Matches t) q in
        (d, onward e i t.reached (Tracks-Matches t) x, y)
  ]

  -- A scan that `run` returns is simulated turn by turn. Every turn of its loop is a sequence of steps
  -- of the specification, and the progress they lead to has the position, the probes in flight for
  -- each address, and the addresses found, in their order, of the scan behind that turn; its hosts
  -- found were reported to the callback, if there is one. A host is found only in a turn with an event
  -- whose `getsockopt` worked, whose SO_ERROR is 0, and in whose slot the table has that host.
  pub run-Simulated :
      (rounds : List Round) {s : Scan}
      → run c inet_ntop rounds ≡ returns s
      → (a : Progress) × Simulated c inet_ntop rounds (start c) initial s a × Matches c a s
  unfolding run
  run-Simulated rounds h =
      run_loop-Simulated rounds (start c) initial (start-ScanInv c) (initial-Once c) start-Matches h
