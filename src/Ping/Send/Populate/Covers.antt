-- ===== src/Ping/Send/Populate/Covers.antt =====
-- Which hosts `populate_batch_entries` passes.
use netscan.Base.{
  Bool-cases, ap, arith, false, get_elem?, get_elem?-get_or, get_elem?-set_self, get_elem?-some_lt,
  inl, inr, is_neg, ltb, ltb-false→le, ltb→lt, minus_one, negsuc, not_eq_true, or_eq_true, pos,
  refl, some, subst, sym, true, ℕ, ℤ, ◌+◌, ◌<◌, ◌||◌, ◌∙◌, ◌≡◌, ◌≤◌, ◌⊎◌,
}
use netscan.Sys.{Timespec}
use netscan.Ping.State.{Setup, ProbeInfo, Table, Scan}
use netscan.Ping.Packet.{Host}
use netscan.Ping.Slots.{is_host_found}
use netscan.Ping.Send.{
  is_reserved, is_settled, target_of, launch, occupy, populate_entry, may_populate,
  populate_batch_entries,
}
use netscan.Ping.Send.Populate.{target_of_eq, is_settled_eq, launch-table, launched}
use netscan.Ping.Send.Populate.Loop.{
  entry_cases, entry-ScanInv, may_populate_lt, populate_loop_keeps,
}
use netscan.Ping.Table.{IsSetup, Probes, occupied, Probes-occupied_old}
use netscan.Ping.Invariant.{ScanInv}

-- Host `i` is an address not to probe, was found, or is being probed.
abbrev pub Handled : Setup → Scan → ℕ → Type 0
Handled c s i =
    (is_reserved c (c.base_ip + i) ≡ true)
    ⊎ (is_host_found s.finds.found_ips_cache (c.base_ip + i) ≡ true)
    ⊎ ((slot : ℕ) × Probes c s.table slot i)

nonneg_pos : (z : ℤ) → is_neg z ≡ false → (n : ℕ) × (z ≡ pos n)
nonneg_pos (pos n) h = (n, refl)
nonneg_pos (negsuc n) h = cc

module _ (c : Setup) (s : Scan) (u : IsSetup c) (v : ScanInv c s)
    (lt : s.next_host_idx < c.total_hosts) where
  settled-Handled : is_settled c s ≡ true → Handled c s s.next_host_idx
  settled-Handled e = elim (or_eq_true _ _ (rw (is_settled_eq c s u lt) at e)) [
    | inl found ↦ inr (inl found)
    | inr probed ↦
        let (slot, z) = nonneg_pos _ (not_eq_true _ probed) in
        let at_host =
          get_elem?-get_or s.table.host_to_probe s.next_host_idx minus_one
            (omega (arith, v.table.hosts)) in
        inr (inr (slot, v.table.held s.next_host_idx slot (at_host ∙ ap some z)))
  ]

  passed-Handled :
      (is_reserved c (target_of c s) || is_settled c s) ≡ true → Handled c s s.next_host_idx
  passed-Handled b = elim (or_eq_true _ _ b) [
    | inl r ↦ inl (subst (λ (n : ℕ). is_reserved c n ≡ true) (target_of_eq c s u lt) r)
    | inr e ↦ settled-Handled e
  ]

module _ (c : Setup) (h : Host) (ts : Timespec) (s : Scan) (u : IsSetup c)
    (lt : s.next_host_idx < c.total_hosts) (k : ℕ) (p : ProbeInfo)
    (at_slot : get_elem? s.table.probe_table k ≡ some p) (idle : p.active ≡ false)
    (open_host : (is_reserved c (target_of c s) || is_settled c s) ≡ false) where
  launched_table :
      (launch c h ts s (pos k)).table
      ≡ occupied c s.table k s.next_host_idx (launched c h ts s u lt k p at_slot idle open_host)
  launched_table = launch-table c h ts s u lt k p at_slot idle open_host

  launch-Probes : Probes c (launch c h ts s (pos k)).table k s.next_host_idx
  unfolding occupy
  launch-Probes =
      subst (λ (t : Table). Probes c t k s.next_host_idx) (sym launched_table)
        (record {
          probe = launched c h ts s u lt k p at_slot idle open_host;
          at_slot =
              get_elem?-set_self s.table.probe_table k _
                (get_elem?-some_lt s.table.probe_table k at_slot);
          running = refl;
          target = target_of_eq c s u lt;
        })

  launch-Handled : (i : ℕ) → Handled c s i → Handled c (launch c h ts s (pos k)) i
  unfolding launch
  launch-Handled i (inl r) = inl r
  launch-Handled i (inr (inl f)) = inr (inl f)
  launch-Handled i (inr (inr (j, w))) = inr (
      inr (
        j,
        subst (λ (t : Table). Probes c t j i) (sym launched_table)
            (Probes-occupied_old c s.table k s.next_host_idx _ p j i at_slot idle w),
      ))

module _ (c : Setup) (h : Host) (ts : Timespec) (u : IsSetup c) (from : ℕ) where
  record Covers (s : Scan) : Type 0 where
    inv : ScanInv c s
    handled : (i : ℕ) → from ≤ i → i < s.next_host_idx → Handled c s i

  upto :
      (P : ℕ → Type 0) (n i : ℕ)
      → from ≤ i
      → i < n + 1
      → ((j : ℕ) → from ≤ j → j < n → P j)
      → P n
      → P i
  upto P n i le lt below here = elim (Bool-cases (ltb i n)) [
    | inl b ↦ below i le (ltb→lt _ _ b)
    | inr b ↦ let same : n ≡ i = omega (arith, ltb-false→le i n b) in subst P same here
  ]

  entry-Covers :
      (s s' : Scan)
      → Covers s
      → may_populate c s ≡ true
      → populate_entry c h ts s ≡ some s'
      → Covers s'
  unfolding launch
  entry-Covers s s' v m e = record {
    inv = entry-ScanInv c h ts u s s' v.inv m e;
    handled = λ i le lt. elim (entry_cases c h ts s s' u v.inv.table e) [
      | inl (b, q) ↦
          subst (λ (x : Scan). Handled c x i) (sym q)
            (upto (Handled c s) s.next_host_idx i le
              (subst (λ (x : Scan). i < x.next_host_idx) q lt) v.handled
              (passed-Handled c s u v.inv (may_populate_lt c s m) b))
      | inr (k, p, a, d, b, q) ↦
          let w = may_populate_lt c s m in
          subst (λ (x : Scan). Handled c x i) (sym q)
            (upto (Handled c (launch c h ts s (pos k))) s.next_host_idx i le
              (subst (λ (x : Scan). i < x.next_host_idx) q lt)
              (λ j l g. launch-Handled c h ts s u w k p a d b j (v.handled j l g))
              (inr (inr (k, launch-Probes c h ts s u w k p a d b))))
    ];
  }

-- Every host that `next_host_idx` passes is an address not to probe, was found, or is being probed.
pub populate_covers :
    (c : Setup) (h : Host) (ts : Timespec) (s : Scan) (i : ℕ)
    → IsSetup c
    → ScanInv c s
    → s.next_host_idx ≤ i
    → i < (populate_batch_entries c h ts s).next_host_idx
    → Handled c (populate_batch_entries c h ts s) i
unfolding populate_batch_entries
populate_covers c h ts s i u v le lt =
    (populate_loop_keeps c h ts u (Covers c h ts u s.next_host_idx)
        (entry-Covers c h ts u s.next_host_idx) _ s
        (record { inv = v; handled = λ j l g. absurd (omega arith) })).handled
      i le lt
