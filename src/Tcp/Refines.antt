-- ===== src/Tcp/Refines.antt =====
-- A scan and its abstract progress: the steps of `Spec` that stand for closing a probe and for
-- recording a host.
pub mod Connects
pub mod Events
pub mod Runs
use mathlib.Core.List.{map-append}
use netscan.Base.{
  ==_refl, Bool, List, [], ap, ap₂, arith, count_if, count_if-set, false, get_elem?,
  get_elem?-get_or, get_or, if◌then◌else◌, length, map, refl, set, some, subst, sym, to_ℕ, true, ℕ,
  ◌&&◌, ◌++◌, ◌+◌, ◌<◌, ◌==◌, ◌∙◌, ◌∷◌, ◌≡◌,
}
use netscan.Tcp.State.{TcpHostResult, ProbeInfo, no_probe, Setup, Scan, start}
use netscan.Tcp.Poll.{has_result, record_open}
use netscan.Tcp.Reap.{close_probe}
use netscan.Tcp.Spec.{
  Progress, Step, pass, launch, answer, lose, Reach, after, Once, count, Reach-Once,
}

-- The probe is in flight for `ip`.
abbrev pub probes_ip : ℕ → ProbeInfo → Bool
probes_ip ip p = p.active && p.dest_ip == ip

abbrev pub ips : List TcpHostResult → List ℕ
ips = map (λ r. r.ip)

-- A progress that steps of the specification lead to, and that is what the scan amounts to.
pub record Tracks (c : Setup) (Open : ℕ → Type 0) (origin : Progress) (s : Scan) : Type 0 where
  pub sound : Once c origin
  pub progress : Progress
  pub reached : Reach c Open origin progress
  pub same_next : progress.next ≡ s.next_host_idx
  pub same_live : (ip : ℕ) → progress.live ip ≡ count_if (probes_ip ip) s.probe_table
  pub same_found : progress.found ≡ ips s.scan_results
  pub told : s.reported ≡ (if c.has_callback then s.scan_results else [])

has_result-count :
    (rs : List TcpHostResult) (ip : ℕ) → count ip (ips rs) ≡ 0 → has_result rs ip ≡ false
unfolding has_result
has_result-count [] ip h = refl
has_result-count (r ∷ rs) ip h = ground (arith, h, has_result-count rs ip)

probes_active :
    (ip : ℕ) (p : ProbeInfo) → p.active ≡ true → to_ℕ (probes_ip ip p) ≡ to_ℕ (p.dest_ip == ip)
probes_active ip p a = ap (λ (b : Bool). to_ℕ (b && p.dest_ip == ip)) a

module _ (c : Setup) (Open : ℕ → Type 0) (origin : Progress) (s : Scan) (slot : ℕ) (p : ProbeInfo)
    (t : Tracks c Open origin s) (at_slot : get_elem? s.probe_table slot ≡ some p)
    (running : p.active ≡ true) where
  closed_table : List ProbeInfo
  closed_table = set s.probe_table slot (record p { active = false })

  live_closed :
      (ip : ℕ) → count_if (probes_ip ip) closed_table + to_ℕ (p.dest_ip == ip) ≡ t.progress.live ip
  unfolding closed_table
  live_closed ip = omega (
    arith,
    t.same_live ip,
    count_if-set (probes_ip ip) s.probe_table slot (record p { active = false }) at_slot,
    probes_active ip p running,
  )

  some_live : 0 < t.progress.live p.dest_ip
  some_live = omega (arith, live_closed p.dest_ip, ap to_ℕ (==_refl p.dest_ip))

  new_host : has_result s.scan_results p.dest_ip ≡ false
  new_host = has_result-count s.scan_results p.dest_ip (
      omega (
        arith,
        (Reach-Once c Open origin t.sound t.reached).once p.dest_ip,
        some_live,
        ap (count p.dest_ip) t.same_found,
      ))

module _ (c : Setup) (Open : ℕ → Type 0) (origin : Progress) (s : Scan) (slot : ℕ)
    (t : Tracks c Open origin s) (lt : slot < length s.probe_table)
    (running : (get_or s.probe_table slot no_probe).active ≡ true) where
  abbrev probe_of : ProbeInfo
  probe_of = get_or s.probe_table slot no_probe

  at_slot : get_elem? s.probe_table slot ≡ some probe_of
  at_slot = get_elem?-get_or s.probe_table slot no_probe lt

  abbrev without : ℕ → ℕ
  without ip =
      count_if (probes_ip ip) (closed_table c Open origin s slot probe_of t at_slot running)

  -- The probe ends with its host not open, or with a time-out.
  pub lose-Tracks : Tracks c Open origin (close_probe slot s)
  unfolding close_probe closed_table
  lose-Tracks = record {
    sound = t.sound;
    progress = record (t.progress) { live = without };
    reached = after t.reached (
        lose probe_of.dest_ip (some_live c Open origin s slot probe_of t at_slot running) refl
          (live_closed c Open origin s slot probe_of t at_slot running) refl);
    same_next = t.same_next;
    same_live = λ ip. refl;
    same_found = t.same_found;
    told = t.told;
  }

  -- The probe ends with its host open: it was not found before, so that it is recorded.
  pub answer-Tracks :
      (r : TcpHostResult)
      → Open probe_of.dest_ip
      → r.ip ≡ probe_of.dest_ip
      → Tracks c Open origin (record_open c r (close_probe slot s))
  unfolding close_probe closed_table record_open
  answer-Tracks r is_open e =
      let new =
        subst (λ (x : ℕ). has_result s.scan_results x ≡ false) (sym e)
          (new_host c Open origin s slot probe_of t at_slot running) in
      simp new (record {
        sound = t.sound;
        progress = record (t.progress) {
          live = without;
          found = t.progress.found ++ (probe_of.dest_ip ∷ []);
        };
        reached = after t.reached (
            answer probe_of.dest_ip is_open
              (some_live c Open origin s slot probe_of t at_slot running) refl
              (live_closed c Open origin s slot probe_of t at_slot running) refl);
        same_next = t.same_next;
        same_live = λ ip. refl;
        same_found =
            ap₂ (λ (xs : List ℕ) (x : ℕ). xs ++ (x ∷ [])) t.same_found (sym e)
            ∙ sym (map-append (λ (x : TcpHostResult). x.ip) s.scan_results (r ∷ []));
        told = ground (arith, t.told);
      })
