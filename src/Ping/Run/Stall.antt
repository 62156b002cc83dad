-- ===== src/Ping/Run/Stall.antt =====
-- `run` under configurations with no room for a probe.
use netscan.Base.{
  List, [], ap, arith, false, inl, inr, refl, suc, sym, true, zero, ℕ, ◌-◌, ◌<◌, ◌∙◌, ◌∷◌, ◌≡◌, ◌⊎◌,
}
use netscan.Sys.{Timespec, returns, returns_injective, pending-ne-returns, >>=-eq-returns}
use netscan.Utils.{NetworkInterface, safe_batch_size}
use netscan.Ping.State.{PingScannerConfig, Setup, make_setup, Batch, Scan, start}
use netscan.Ping.Packet.{Host}
use netscan.Ping.Send.{SendAnswer, may_populate, populate_loop, populate_batch_entries, send_batch}
use netscan.Ping.Receive.{receive_responses}
use netscan.Ping.Receive.Keeps.{receive-ScanInv, receive_position}
use netscan.Ping.Reap.Keeps.{reap_clears}
use netscan.Ping.Run.{Round, is_unfinished, finish_round, run_loop, PingScanResult, run}
use netscan.Ping.Run.Results.{cleared, cleared-ScanInv, finish_round-ScanInv}
use netscan.Ping.Table.{IsSetup}
use netscan.Ping.Invariant.{ScanInv, start-ScanInv}

-- No probe may be sent: there is no slot, or no room in a batch.
abbrev NoRoom : Setup → Type 0
NoRoom c = (c.max_probes ≡ 0) ⊎ (c.send_batch_size ≡ 0)

module _ (c : Setup) (o : Host) (u : IsSetup c) (closed : NoRoom c)
    (hosts : 0 < c.total_hosts) where
  never_populates : (s : Scan) → may_populate c s ≡ false
  never_populates s = ground (arith, closed)

  populate_nothing : (ts : Timespec) (fuel : ℕ) (s : Scan) → populate_loop c o ts fuel s ≡ s
  unfolding populate_loop
  populate_nothing ts zero s = refl
  populate_nothing ts (suc fuel) s = rw (never_populates s, populate_loop)

  sends_nothing :
      (ts : Timespec) (answers : List SendAnswer) (s : Scan)
      → send_batch c o ts answers s ≡ returns (true, cleared s)
  unfolding send_batch populate_batch_entries
  sends_nothing ts answers s =
      simp (populate_nothing ts (c.total_hosts - s.next_host_idx) (cleared s))

  finish_position :
      (r : Round) (s : Scan) {s' : Scan}
      → ScanInv c s
      → finish_round c o r s ≡ returns s'
      → s'.next_host_idx ≡ s.next_host_idx
  unfolding finish_round
  finish_position r s v h =
      let (m, e, q) = >>=-eq-returns (receive_responses c o true r.readable r.receipts s) _ h in
      ap (λ (x : Scan). x.next_host_idx) (sym (returns_injective _ _ q))
      ∙ ap (λ (x : Scan). x.next_host_idx)
          (reap_clears c r.reap_time m u (receive-ScanInv c o true r.readable r.receipts s u v e)).4
      ∙ receive_position c o true r.readable r.receipts s e

  never_returns :
      (rounds : List Round) (s s' : Scan)
      → ScanInv c s
      → s.next_host_idx ≡ 0
      → ¬ (run_loop c o rounds s ≡ returns s')
  unfolding run_loop
  never_returns [] s s' v z h = pending-ne-returns (rw (unfinished s z, run_loop) at h)
    where
      unfinished : (x : Scan) → x.next_host_idx ≡ 0 → is_unfinished c x ≡ true
      unfinished x e = ground (arith, e, hosts)
  never_returns (r ∷ rounds) s s' v z h =
      let first = rw (unfinished s z, run_loop, sends_nothing r.send_ts r.sends s) at h in
      let (x, f, g) = >>=-eq-returns (finish_round c o r (cleared s)) (run_loop c o rounds) first in
      never_returns rounds x s' (finish_round-ScanInv c o u r (cleared s) (cleared-ScanInv c s v) f)
        (finish_position r (cleared s) (cleared-ScanInv c s v) f ∙ z) g
    where
      unfinished : (y : Scan) → y.next_host_idx ≡ 0 → is_unfinished c y ≡ true
      unfinished y e = ground (arith, e, hosts)

-- With `--probes 0` or `--send-batch 0` a scan of a range that is not empty never returns, whatever
-- the network does.
pub run_stalls :
    (config : PingScannerConfig) (interface : NetworkInterface) (o : Host) (buffers : Batch)
    (rounds : List Round) (r : PingScanResult)
    → IsSetup (make_setup config interface)
    → (config.max_probes ≡ 0) ⊎ (config.send_batch_size ≡ 0)
    → 0 < config.total_hosts
    → ¬ (run (make_setup config interface) o buffers rounds ≡ returns r)
unfolding run make_setup safe_batch_size start
run_stalls config interface o buffers rounds r u closed hosts h =
    let c = make_setup config interface in
    let room : NoRoom c = elim closed [ inl e ↦ inl (omega arith) | inr e ↦ inr (omega arith) ] in
    let (s, e, q) = >>=-eq-returns (run_loop c o rounds (start c buffers)) _ h in
    never_returns c o u room hosts rounds (start c buffers) s (start-ScanInv c buffers) refl e
