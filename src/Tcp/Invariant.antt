-- ===== src/Tcp/Invariant.antt =====
-- The invariant of a TCP scan: the open sockets are those of the active probes, and the hosts found
-- are distinct hosts of the range.
use netscan.Base.{
  Bool, List, [], arith, count_if, count_if-replicate, eqb_ℤ, false, get_elem?, get_elem?-replicate,
  is_neg, length, length-replicate, refl, replicate, some, sym, true, ℕ, ℤ, ◌&&◌, ◌+◌, ◌<◌, ◌^◌,
  ◌∷◌, ◌≡◌, ◌≤◌,
}
use netscan.Tcp.State.{TcpHostResult, ProbeInfo, no_probe, Setup, Scan, start}
use netscan.Tcp.Connect.{is_reserved}
use netscan.Tcp.Poll.{has_result}

-- The range lies in the addresses, and slots fit an `int`.
pub record IsSetup (c : Setup) : Type 0 where
  pub in_range : c.base_ip + c.total_hosts ≤ 2 ^ 32
  pub int_range : c.max_probes ≤ 2 ^ 31

-- An address that may be probed.
pub record IsTarget (c : Setup) (ip : ℕ) : Type 0 where
  pub from : c.base_ip ≤ ip
  pub below : ip < c.base_ip + c.total_hosts
  pub unreserved : is_reserved c ip ≡ false

abbrev pub is_active : ProbeInfo → Bool
is_active p = p.active

abbrev pub holds : ℤ → ProbeInfo → Bool
holds fd p = p.active && eqb_ℤ p.sock fd

abbrev pub count_fd : ℤ → List ℤ → ℕ
count_fd fd = count_if (λ x. eqb_ℤ x fd)

pub record TableInv (c : Setup) (ps : List ProbeInfo) (active : ℕ) (opened : List ℤ) : Type 0 where
  pub slots : length ps ≡ c.max_probes
  pub counted : active ≡ count_if is_active ps
  pub owned : (fd : ℤ) → count_fd fd opened ≡ count_if (holds fd) ps
  pub probes :
      (j : ℕ) (p : ProbeInfo)
      → get_elem? ps j ≡ some p
      → p.active ≡ true
      → (is_neg p.sock ≡ false) × IsTarget c p.dest_ip

-- Distinct hosts that may be probed.
abbrev pub Found : Setup → List TcpHostResult → Type 0
Found c [] = Unit {0}
Found c (r ∷ rs) = (has_result rs r.ip ≡ false) × IsTarget c r.ip × Found c rs

pub record ScanInv (c : Setup) (s : Scan) : Type 0 where
  pub table : TableInv c s.probe_table s.active_probes s.opened
  pub found : Found c s.scan_results
  pub found_count : s.hosts_found ≡ length s.scan_results

idle : (n j : ℕ) (p : ProbeInfo) → get_elem? (replicate n no_probe) j ≡ some p → p.active ≡ false
idle n j p e = ground (arith, get_elem?-replicate n j no_probe e)

pub start-ScanInv : (c : Setup) → ScanInv c (start c)
unfolding start
start-ScanInv c = record {
  table = record {
    slots = length-replicate c.max_probes no_probe;
    counted = sym (count_if-replicate is_active c.max_probes no_probe refl);
    owned = λ fd. sym (count_if-replicate (holds fd) c.max_probes no_probe refl);
    probes = λ j p e a. absurd (ground (arith, idle c.max_probes j p e, a));
  };
  found = tt;
  found_count = refl;
}
