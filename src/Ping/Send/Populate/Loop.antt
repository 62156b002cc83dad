-- ===== src/Ping/Send/Populate/Loop.antt =====
-- The loop of `populate_batch_entries`: the invariant, where it ends, and which hosts it passes.
use netscan.Base.{
  Bool-cases, Option, Option-cases, and_eq_true, ap, arith, count_if, false, get_elem?, inl, inr,
  length, le→ltb-false, ltb→lt, none, pos, some, subst, suc, sym, true, zero, ℕ, ◌+◌, ◌-◌, ◌<◌,
  ◌||◌, ◌≡◌, ◌≤◌, ◌⊎◌,
}
use mathlib.Core.Option.{some-injective as some_injective}
use netscan.Sys.{Timespec}
use netscan.Ping.State.{Setup, ProbeInfo, Scan}
use netscan.Ping.Packet.{Host, prepare_single_packet}
use netscan.Ping.Send.{
  is_reserved, is_settled, target_of, skip, launch, populate_entry, may_populate, populate_loop,
  populate_batch_entries,
}
use netscan.Ping.Send.Populate.{
  Entry, stops, passes, launches, populate_entry-Entry, launch-ScanInv,
}
use netscan.Ping.Table.{IsSetup, is_active, TableInv}
use netscan.Ping.Invariant.{ScanInv}

-- A rule for the loop: what every round keeps, the loop keeps.
module _ {ℓ} (c : Setup) (h : Host) (ts : Timespec) (u : IsSetup c) (P : Scan → Type ℓ)
    (keep : (s s' : Scan)
      → P s
      → may_populate c s ≡ true
      → populate_entry c h ts s ≡ some s'
      → P s') where
  pub populate_loop_keeps : (fuel : ℕ) (s : Scan) → P s → P (populate_loop c h ts fuel s)
  unfolding populate_loop
  populate_loop_keeps zero s p = p
  populate_loop_keeps (suc fuel) s p = elim (Bool-cases (may_populate c s)) [
    | inr stop ↦ rw (stop, populate_loop) p
    | inl more ↦ elim (Option-cases (populate_entry c h ts s)) [
      | inl e ↦ rw (more, populate_loop, e) p
      | inr (s', e) ↦ rw (more, populate_loop, e) (populate_loop_keeps fuel s' (keep s s' p more e))
    ]
  ]

abbrev pub Passed : Setup → Scan → Scan → Type 0
Passed c s s' = ((is_reserved c (target_of c s) || is_settled c s) ≡ true) × (s' ≡ skip s)

abbrev pub Launched : Setup → Host → Timespec → Scan → Scan → Type 0
Launched c h ts s s' =
    (k : ℕ) × (p : ProbeInfo) × (get_elem? s.table.probe_table k ≡ some p)
    × (p.active ≡ false)
    × ((is_reserved c (target_of c s) || is_settled c s) ≡ false)
    × (s' ≡ launch c h ts s (pos k))

pub may_populate_lt :
    (c : Setup) (s : Scan) → may_populate c s ≡ true → s.next_host_idx < c.total_hosts
may_populate_lt c s m = ltb→lt _ _ (and_eq_true _ _ m).0

may_populate_active :
    (c : Setup) (s : Scan) → may_populate c s ≡ true → s.table.active_probes < c.max_probes
may_populate_active c s m = ltb→lt _ _ (and_eq_true _ _ (and_eq_true _ _ m).1).0

pub may_populate_room :
    (c : Setup) (s : Scan) → may_populate c s ≡ true → s.batch.batch_count < c.send_batch_size
may_populate_room c s m = ltb→lt _ _ (and_eq_true _ _ (and_eq_true _ _ m).1).1

-- A round that goes on passes the host over or launches a probe of it.
pub entry_cases :
    (c : Setup) (h : Host) (ts : Timespec) (s s' : Scan)
    → IsSetup c
    → TableInv c s.table
    → populate_entry c h ts s ≡ some s'
    → Passed c s s' ⊎ Launched c h ts s s'
entry_cases c h ts s s' u v e = go (populate_entry-Entry c h ts s u v) e
  where
    go : {o : Option Scan} → Entry c h ts s o → o ≡ some s' → Passed c s s' ⊎ Launched c h ts s s'
    go (stops _) q = cc
    go (passes b) q = inl (b, sym (some_injective _ _ q))
    go (launches k p a i b) q = inr (k, p, a, i, b, sym (some_injective _ _ q))

-- A round that breaks has found every slot in use.
entry_stops :
    (c : Setup) (h : Host) (ts : Timespec) (s : Scan)
    → IsSetup c
    → TableInv c s.table
    → populate_entry c h ts s ≡ none
    → count_if is_active s.table.probe_table ≡ length s.table.probe_table
entry_stops c h ts s u v e = go (populate_entry-Entry c h ts s u v) e
  where
    go :
        {o : Option Scan}
        → Entry c h ts s o
        → o ≡ none
        → count_if is_active s.table.probe_table ≡ length s.table.probe_table
    go (stops f) q = f
    go (passes b) q = cc
    go (launches k p a i b) q = cc

skip-ScanInv :
    (c : Setup) (s : Scan) → s.next_host_idx < c.total_hosts → ScanInv c s → ScanInv c (skip s)
skip-ScanInv c s lt v = record {
  table = v.table;
  finds = v.finds;
  fresh = v.fresh;
  unreserved = v.unreserved;
  seq_pos = v.seq_pos;
  seq_lt = v.seq_lt;
  position = omega arith;
}

module _ (c : Setup) (h : Host) (ts : Timespec) (u : IsSetup c) where
  pub entry-ScanInv :
      (s s' : Scan)
      → ScanInv c s
      → may_populate c s ≡ true
      → populate_entry c h ts s ≡ some s'
      → ScanInv c s'
  entry-ScanInv s s' v m e = elim (entry_cases c h ts s s' u v.table e) [
    | inl (_, q) ↦ subst (ScanInv c) (sym q) (skip-ScanInv c s (may_populate_lt c s m) v)
    | inr (k, p, a, i, b, q) ↦
        subst (ScanInv c) (sym q) (launch-ScanInv c h ts s u (may_populate_lt c s m) k p a i b v)
  ]

  -- The invariant of the scan is kept.
  pub populate-ScanInv : (s : Scan) → ScanInv c s → ScanInv c (populate_batch_entries c h ts s)
  unfolding populate_batch_entries
  populate-ScanInv s v = populate_loop_keeps c h ts u (ScanInv c) entry-ScanInv _ s v

  entry_advances :
      (s s' : Scan)
      → ScanInv c s
      → populate_entry c h ts s ≡ some s'
      → s'.next_host_idx ≡ s.next_host_idx + 1
  unfolding launch
  entry_advances s s' v e = elim (entry_cases c h ts s s' u v.table e) [
    | inl (_, q) ↦ ap (λ (x : Scan). x.next_host_idx) q
    | inr (k, p, a, i, b, q) ↦ ap (λ (x : Scan). x.next_host_idx) q
  ]

  populate_loop_ends :
      (fuel : ℕ) (s : Scan)
      → c.total_hosts - s.next_host_idx ≤ fuel
      → ScanInv c s
      → may_populate c (populate_loop c h ts fuel s) ≡ false
  unfolding populate_loop
  populate_loop_ends zero s le v = simp (le→ltb-false s.next_host_idx c.total_hosts (omega arith))
  populate_loop_ends (suc fuel) s le v = elim (Bool-cases (may_populate c s)) [
    | inr stop ↦ rw (stop, populate_loop) stop
    | inl more ↦ elim (Option-cases (populate_entry c h ts s)) [
      | inl e ↦ absurd (
          omega (
            arith,
            may_populate_active c s more,
            entry_stops c h ts s u v.table e,
            v.table.counted,
            v.table.slots,
          ))
      | inr (s', e) ↦
          rw (more, populate_loop, e)
            (populate_loop_ends fuel s'
              (omega (arith, entry_advances s s' v e, may_populate_lt c s more))
              (entry-ScanInv s s' v more e))
    ]
  ]

  -- The loop ends only when every host was handed out, `max_probes` are in flight, or the batch is
  -- full: the fuel given is enough, and the table cannot fill up before.
  pub populate_ends :
      (s : Scan) → ScanInv c s → may_populate c (populate_batch_entries c h ts s) ≡ false
  unfolding populate_batch_entries
  populate_ends s v = populate_loop_ends (c.total_hosts - s.next_host_idx) s (omega arith) v

module _ (c : Setup) (h : Host) (ts : Timespec) (u : IsSetup c) where
  record Batched (s : Scan) : Type 0 where
    inv : ScanInv c s
    room : s.batch.batch_count ≤ s.next_host_idx
    fits : s.batch.batch_count ≤ c.send_batch_size

  entry-Batched :
      (s s' : Scan)
      → Batched s
      → may_populate c s ≡ true
      → populate_entry c h ts s ≡ some s'
      → Batched s'
  unfolding launch prepare_single_packet
  entry-Batched s s' v m e =
      let kept = entry-ScanInv c h ts u s s' v.inv m e in
      let space = may_populate_room c s m in
      elim (entry_cases c h ts s s' u v.inv.table e) [
        | inl (_, q) ↦ subst Batched (sym q) (record {
          inv = skip-ScanInv c s (may_populate_lt c s m) v.inv;
          room = omega (arith, v.room);
          fits = v.fits;
        })
        | inr (k, p, a, i, b, q) ↦ subst Batched (sym q) (record {
          inv = subst (ScanInv c) q kept;
          room = omega (arith, v.room);
          fits = omega (arith, space);
        })
      ]

  -- The batch never holds more than `send_batch_size` packets, nor more than hosts were passed.
  pub populate_fits :
      (s : Scan)
      → ScanInv c s
      → s.batch.batch_count ≡ 0
      → let s' = populate_batch_entries c h ts s in
        (s'.batch.batch_count ≤ s'.next_host_idx) × (s'.batch.batch_count ≤ c.send_batch_size)
  unfolding populate_batch_entries
  populate_fits s v z =
      let r =
        populate_loop_keeps c h ts u Batched entry-Batched _ s
          (record { inv = v; room = omega arith; fits = omega arith }) in
      (r.room, r.fits)
