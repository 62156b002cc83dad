-- ===== src/Ping/Send/Populate.antt =====
-- `populate_batch_entries`, one round of its loop.
pub mod Loop
pub mod Covers
pub mod Packets
use netscan.Base.{
  Bool-cases, Option, arith, count_if, false, get_elem?, get_elem?-get_or, get_or, inl, inr, is_neg,
  length, minus_one, none, not, not_eq_false, or_eq_false, pos, refl, some, subst, sym, true, ℕ, ℤ,
  ◌+◌, ◌<◌, ◌||◌, ◌≡◌, ◌⊎◌,
}
use mathlib.Core.Option.{some-injective as some_injective}
use netscan.Sys.{Timespec}
use netscan.Ping.State.{Setup, ProbeInfo, Table, Scan}
use netscan.Ping.Packet.{Host}
use netscan.Ping.Slots.{
  find_available_probe_slot, host_index_for_ip, is_host_found, allocate_sequence,
}
use netscan.Ping.Slots.Find.{
  FirstFree, free, full, find_free_from-FirstFree, host_index_for_ip_inside,
  allocate_sequence_bounds,
}
use netscan.Ping.Send.{
  is_reserved, is_settled, target_of, skip, launch, populate_entry, may_populate, populate_loop,
}
use netscan.Ping.Table.{
  IsSetup, is_active, Probes, TableInv, IsFree, occupied, occupied-TableInv, Probes-occupied,
}
use netscan.Ping.Invariant.{ScanInv}

module _ (c : Setup) (s : Scan) (u : IsSetup c) (lt : s.next_host_idx < c.total_hosts) where
  pub target_of_eq : target_of c s ≡ c.base_ip + s.next_host_idx
  target_of_eq = omega (arith, u.in_range)

  pub host_index_of_target : host_index_for_ip c (target_of c s) ≡ pos s.next_host_idx
  host_index_of_target = rw target_of_eq (host_index_for_ip_inside c s.next_host_idx u lt)

pub is_settled_eq :
    (c : Setup) (s : Scan)
    → IsSetup c
    → s.next_host_idx < c.total_hosts
    → is_settled c s ≡ (
        is_host_found s.finds.found_ips_cache (c.base_ip + s.next_host_idx)
        || not (is_neg (get_or s.table.host_to_probe s.next_host_idx minus_one)))
unfolding is_settled
is_settled_eq c s u lt =
    simp (target_of_eq c s u lt, host_index_for_ip_inside c s.next_host_idx u lt)

-- What one round does: it stops at a full table, passes a host over, or launches a probe in a free
-- slot.
pub data Entry (c : Setup) (h : Host) (ts : Timespec) (s : Scan) : Option Scan → Type 0 where
  stops : count_if is_active s.table.probe_table ≡ length s.table.probe_table → Entry c h ts s none
  passes : (is_reserved c (target_of c s) || is_settled c s) ≡ true → Entry c h ts s (some (skip s))
  launches :
      (k : ℕ) (p : ProbeInfo)
      → get_elem? s.table.probe_table k ≡ some p
      → p.active ≡ false
      → (is_reserved c (target_of c s) || is_settled c s) ≡ false
      → Entry c h ts s (some (launch c h ts s (pos k)))

module _ (c : Setup) (h : Host) (ts : Timespec) (s : Scan) where
  pub populate_entry-Entry :
      IsSetup c → TableInv c s.table → Entry c h ts s (populate_entry c h ts s)
  unfolding populate_entry find_available_probe_slot
  populate_entry-Entry u v =
      go
        (find_free_from-FirstFree 0 s.table.probe_table
          (omega (arith, u.int_range, u.probes_range, v.slots)))
        refl
    where
      go :
          {z : ℤ}
          → FirstFree 0 s.table.probe_table z
          → z ≡ find_available_probe_slot s.table
          → Entry c h ts s (populate_entry c h ts s)
      go (full e) q = simp (sym q) (stops e)
      go (free k p e a _) q = elim (Bool-cases (is_reserved c (target_of c s) || is_settled c s)) [
        | inl b ↦ simp (sym q, b) (passes b)
        | inr b ↦
            simp (sym q, b)
              (subst (λ (n : ℕ). Entry c h ts s (some (launch c h ts s (pos n)))) (omega arith)
                (launches k p e a b))
      ]

module _ (c : Setup) (h : Host) (ts : Timespec) (s : Scan) (u : IsSetup c)
    (lt : s.next_host_idx < c.total_hosts) (k : ℕ) (p : ProbeInfo)
    (at_slot : get_elem? s.table.probe_table k ≡ some p) (idle : p.active ≡ false)
    (open_host : (is_reserved c (target_of c s) || is_settled c s) ≡ false) where
  abbrev pub launched : ProbeInfo
  launched = record {
    active = true;
    dest_ip = target_of c s;
    seq = (allocate_sequence s.next_seq).0;
    send_time = ts;
  }

  pub launch-table : (launch c h ts s (pos k)).table ≡ occupied c s.table k s.next_host_idx launched
  unfolding launch
  launch-table = rw (host_index_of_target c s u lt)

  open_tests :
      (is_reserved c (c.base_ip + s.next_host_idx) ≡ false)
      × (is_host_found s.finds.found_ips_cache (c.base_ip + s.next_host_idx) ≡ false)
      × (is_neg (get_or s.table.host_to_probe s.next_host_idx minus_one) ≡ true)
  open_tests =
      let (r, q) =
        or_eq_false _ _ (rw (target_of_eq c s u lt, is_settled_eq c s u lt) at open_host) in
      let (f, n) = or_eq_false _ _ q in (r, f, not_eq_false _ n)

  module _ (v : ScanInv c s) where
    open_slot : IsFree c s.table k s.next_host_idx launched
    open_slot = record {
      old = p;
      at_slot = at_slot;
      idle = idle;
      entry = get_or s.table.host_to_probe s.next_host_idx minus_one;
      at_host =
          get_elem?-get_or s.table.host_to_probe s.next_host_idx minus_one
            (omega (arith, v.table.hosts));
      unprobed = open_tests.2;
    }

    abbrev Was : ℕ → ℕ → Type 0
    Was j i = (i ≡ s.next_host_idx) ⊎ Probes c s.table j i

    launched_or_old : (j i : ℕ) → Probes c (launch c h ts s (pos k)).table j i → Was j i
    launched_or_old j i w =
        Probes-occupied c s.table k s.next_host_idx launched j i (target_of_eq c s u lt)
          (subst (λ (t : Table). Probes c t j i) launch-table w)

    pub launch-ScanInv : ScanInv c (launch c h ts s (pos k))
    unfolding launch
    launch-ScanInv = record {
      table = subst (TableInv c) (sym launch-table) (
          occupied-TableInv c s.table k s.next_host_idx launched v.table open_slot refl
            (target_of_eq c s u lt));
      finds = v.finds;
      fresh = λ j i w. elim (launched_or_old j i w) [
        | inl e ↦ rw e open_tests.1
        | inr o ↦ v.fresh j i o
      ];
      unreserved = λ j i w. elim (launched_or_old j i w) [
        | inl e ↦ rw e open_tests.0
        | inr o ↦ v.unreserved j i o
      ];
      seq_pos = (allocate_sequence_bounds s.next_seq v.seq_lt).2;
      seq_lt = (allocate_sequence_bounds s.next_seq v.seq_lt).3;
      position = omega arith;
    }
