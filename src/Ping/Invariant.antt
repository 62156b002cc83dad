-- ===== src/Ping/Invariant.antt =====
-- The invariant of a scan: the table, the hosts found, the sequence numbers and the position.
use netscan.Base.{
  List, [], arith, count_if-le-length, count_if-replicate, false, get_elem?, get_elem?-replicate,
  if◌then◌else◌, length, length-replicate, map, minus_one, pos, refl, replicate, some, subst, sym,
  true, ℕ, ◌+◌, ◌<◌, ◌∷◌, ◌≡◌, ◌≤◌,
}
use netscan.Ping.State.{
  Setup, ProbeInfo, no_probe, Table, Finds, PingHostResult, Batch, Scan, start,
}
use netscan.Ping.Slots.{is_host_found}
use netscan.Ping.Send.{is_reserved}
use netscan.Ping.Table.{is_active, Probes, TableInv}

-- No address stands twice in the list.
abbrev pub Distinct : List ℕ → Type 0
Distinct [] = Unit {0}
Distinct (x ∷ xs) = (is_host_found xs x ≡ false) × Distinct xs

abbrev pub AllInRange : Setup → List ℕ → Type 0
AllInRange c [] = Unit {0}
AllInRange c (x ∷ xs) = (c.base_ip ≤ x) × (x < c.base_ip + c.total_hosts) × AllInRange c xs

abbrev pub ips : List PingHostResult → List ℕ
ips = map (λ r. r.ip)

pub record FindsInv (c : Setup) (f : Finds) : Type 0 where
  pub ranged : AllInRange c f.found_ips_cache
  pub distinct : Distinct f.found_ips_cache
  pub cached : ips f.scan_results ≡ f.found_ips_cache
  pub counted : f.hosts_found ≡ length f.scan_results
  pub told : f.reported ≡ (if c.has_callback then f.scan_results else [])

pub record ScanInv (c : Setup) (s : Scan) : Type 0 where
  pub table : TableInv c s.table
  pub finds : FindsInv c s.finds
  -- A host that was found is not being probed.
  pub fresh :
      (slot h : ℕ)
      → Probes c s.table slot h
      → is_host_found s.finds.found_ips_cache (c.base_ip + h) ≡ false
  -- The network and the broadcast address of a local network are never probed.
  pub unreserved : (slot h : ℕ) → Probes c s.table slot h → is_reserved c (c.base_ip + h) ≡ false
  pub seq_pos : 0 < s.next_seq
  pub seq_lt : s.next_seq < 65536
  pub position : s.next_host_idx ≤ c.total_hosts

no_probe_idle :
    (n slot : ℕ) (p : ProbeInfo)
    → get_elem? (replicate n no_probe) slot ≡ some p
    → p.active ≡ true
    → ⊥
no_probe_idle n slot p e a = ground (arith, get_elem?-replicate n slot no_probe e)

no_slot : (n h slot : ℕ) → get_elem? (replicate n minus_one) h ≡ some (pos slot) → ⊥
no_slot n h slot e = ground (arith, get_elem?-replicate n h minus_one e)

-- A scan starts within the invariant, whatever the buffers hold.
pub start-ScanInv : (c : Setup) (b : Batch) → ScanInv c (start c b)
unfolding start
start-ScanInv c b = record {
  table = record {
    slots = length-replicate c.max_probes no_probe;
    hosts = length-replicate c.total_hosts minus_one;
    counted = sym (count_if-replicate is_active c.max_probes no_probe refl);
    linked = λ slot p e a. absurd (no_probe_idle c.max_probes slot p e a);
    held = λ h slot e. absurd (no_slot c.total_hosts h slot e);
  };
  finds = record { ranged = tt; distinct = tt; cached = refl; counted = refl; told = ground arith };
  fresh = λ slot h w. absurd (no_probe_idle c.max_probes slot w.probe w.at_slot w.running);
  unreserved = λ slot h w. absurd (no_probe_idle c.max_probes slot w.probe w.at_slot w.running);
  seq_pos = omega arith;
  seq_lt = omega arith;
  position = omega arith;
}

-- At most `max_probes` probes are in flight.
pub active_probes-le : (c : Setup) (t : Table) → TableInv c t → t.active_probes ≤ c.max_probes
active_probes-le c t v =
    omega (arith, v.counted, v.slots, count_if-le-length is_active t.probe_table)

-- A table with fewer probes keeps the invariant of the scan.
pub record Shrinks (c : Setup) (t t' : Table) : Type 0 where
  pub inv : TableInv c t'
  pub old : (slot h : ℕ) → Probes c t' slot h → Probes c t slot h

pub Shrinks-refl : (c : Setup) (t : Table) → TableInv c t → Shrinks c t t
Shrinks-refl c t v = record { inv = v; old = λ slot h w. w }

pub Shrinks-trans : (c : Setup) (t u w : Table) → Shrinks c t u → Shrinks c u w → Shrinks c t w
Shrinks-trans c t u w a b = record { inv = b.inv; old = λ slot h p. a.old slot h (b.old slot h p) }

pub shrink-ScanInv :
    (c : Setup) (s s' : Scan)
    → ScanInv c s
    → Shrinks c s.table s'.table
    → s'.finds ≡ s.finds
    → s'.next_seq ≡ s.next_seq
    → s'.next_host_idx ≤ c.total_hosts
    → ScanInv c s'
shrink-ScanInv c s s' v w f q n = record {
  table = w.inv;
  finds = subst (FindsInv c) (sym f) v.finds;
  fresh = λ slot h p.
      subst (λ (x : Finds). is_host_found x.found_ips_cache (c.base_ip + h) ≡ false) (sym f)
        (v.fresh slot h (w.old slot h p));
  unreserved = λ slot h p. v.unreserved slot h (w.old slot h p);
  seq_pos = omega (arith, v.seq_pos);
  seq_lt = omega (arith, v.seq_lt);
  position = n;
}
