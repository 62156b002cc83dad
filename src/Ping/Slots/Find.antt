-- ===== src/Ping/Slots/Find.antt =====
-- What the searches of `Slots` find: a free slot, the index of a host, a found address, a sequence
-- number.
use netscan.Base.{
  Bool-cases, List, [], ap, arith, count_if, count_if-le-length, false, get_elem?, inl, inr, leb,
  length, ltb, ltb→lt, minus_one, pos, refl, some, subst, suc, sym, to_int_small, true, ℕ, ℤ, ◌+◌,
  ◌-◌, ◌<◌, ◌^◌, ◌∷◌, ◌≡◌, ◌≢◌, ◌≤◌, ◌⊎◌,
}
use netscan.Ping.State.{Setup, ProbeInfo}
use netscan.Ping.Table.{IsSetup, is_active}
use netscan.Ping.Slots.{find_free_from, host_index_for_ip, allocate_sequence}

-- A free slot of the list, counted from `i`, or -1 if all are active.
pub data FirstFree (i : ℕ) (ps : List ProbeInfo) : ℤ → Type 0 where
  free :
      (k : ℕ) (p : ProbeInfo)
      → get_elem? ps k ≡ some p
      → p.active ≡ false
      → count_if is_active ps < length ps
      → FirstFree i ps (pos (i + k))
  full : count_if is_active ps ≡ length ps → FirstFree i ps minus_one

shift :
    (i : ℕ) (p : ProbeInfo) (ps : List ProbeInfo) {z : ℤ}
    → p.active ≡ true
    → FirstFree (i + 1) ps z
    → FirstFree i (p ∷ ps) z
shift i p ps a (free k q e idle lt) =
    let e' : i + 1 + k ≡ i + suc k = omega arith in
    subst (λ (n : ℕ). FirstFree i (p ∷ ps) (pos n)) (sym e')
      (free (suc k) q e idle (rw a (omega arith)))
shift i p ps a (full e) = full (rw a (omega arith))

pub find_free_from-FirstFree :
    (i : ℕ) (ps : List ProbeInfo) → i + length ps ≤ 2 ^ 31 → FirstFree i ps (find_free_from i ps)
unfolding find_free_from
find_free_from-FirstFree i [] h = full refl
find_free_from-FirstFree i (p ∷ ps) h = elim (Bool-cases p.active) [
  | inl a ↦ simp a (shift i p ps a (find_free_from-FirstFree (i + 1) ps (omega arith)))
  | inr a ↦
      simp (a, to_int_small i (omega arith))
        (let e : i ≡ i + 0 = omega arith in
          subst (λ (n : ℕ). FirstFree i (p ∷ ps) (pos n)) (sym e)
            (free 0 p refl a (simp a (omega (arith, count_if-le-length is_active ps)))))
]

-- `host_index_for_ip` and the range of the scan.
pub data HostIndex (c : Setup) (ip : ℕ) : ℤ → Type 0 where
  inside : (h : ℕ) → h < c.total_hosts → ip ≡ c.base_ip + h → HostIndex c ip (pos h)
  outside : (ip < c.base_ip) ⊎ (c.base_ip + c.total_hosts ≤ ip) → HostIndex c ip minus_one

-- In a scan whose range fits, the index of an address is its offset inside the range and -1 outside.
pub host_index_for_ip-HostIndex :
    (c : Setup) (ip : ℕ) → IsSetup c → HostIndex c ip (host_index_for_ip c ip)
unfolding host_index_for_ip
host_index_for_ip-HostIndex c ip v = elim (Bool-cases (ltb ip c.base_ip)) [
  | inl below ↦ rw below (outside (inl (ltb→lt _ _ below)))
  | inr above ↦ elim (Bool-cases (leb c.total_hosts (ip - c.base_ip))) [
    | inl far ↦ rw (above, far) (outside (inr (ground arith)))
    | inr near ↦
        rw (above, near, to_int_small (ip - c.base_ip) (ground (arith, v.int_range)))
          (inside (ip - c.base_ip) (ground arith) (ground arith))
  ]
]

-- At an address of the range the index is the offset.
pub host_index_for_ip_inside :
    (c : Setup) (h : ℕ)
    → IsSetup c
    → h < c.total_hosts
    → host_index_for_ip c (c.base_ip + h) ≡ pos h
host_index_for_ip_inside c h v lt = go (host_index_for_ip-HostIndex c (c.base_ip + h) v)
  where
    go : {z : ℤ} → HostIndex c (c.base_ip + h) z → z ≡ pos h
    go (inside k _ e) = ap pos (omega arith)
    go (outside (inl b)) = absurd (omega arith)
    go (outside (inr b)) = absurd (omega arith)

-- A probe's number is never 0 and fits 16 bits, and so does the next one.
pub allocate_sequence_bounds :
    (n : ℕ)
    → n < 65536
    → let (candidate, next) = allocate_sequence n in
      (0 < candidate) × (candidate < 65536) × (0 < next) × (next < 65536) × (candidate ≢ next)
unfolding allocate_sequence
allocate_sequence_bounds n h = ground arith
