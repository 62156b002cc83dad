-- ===== src/Ping/Table.antt =====
-- The invariant of the probe table, and its two elementary changes: a slot is taken, a slot is given
-- back. `Slots`, `Send`, `Receive` and `Reap` change the table through these alone.
use netscan.Base.{
  Bool, Option, ap, arith, count_if, count_if-set, false, get_elem?, get_elem?-set_cases,
  get_elem?-set_ne, get_elem?-set_self, get_elem?-some_lt, get_or, inl, inr, is_neg, length,
  length-set, minus_one, negsuc, pos, set, some, subst, sym, true, ℕ, ℤ, ◌+◌, ◌^◌, ◌∙◌, ◌≡◌, ◌≢◌,
  ◌≤◌, ◌⊎◌,
}
use mathlib.Core.Option.{some-injective as some_injective}
use netscan.Ping.State.{Setup, ProbeInfo, no_probe, Table}
use netscan.Ping.Slots.{deactivate}
use netscan.Ping.Send.{occupy}

-- The addresses of the range do not wrap, and its indices fit an `int`.
pub record IsSetup (c : Setup) : Type 0 where
  pub in_range : c.base_ip + c.total_hosts ≤ 2 ^ 32
  pub int_range : c.total_hosts ≤ 2 ^ 31
  pub probes_range : c.max_probes ≤ c.total_hosts

abbrev pub is_active : ProbeInfo → Bool
is_active p = p.active

-- Slot `slot` probes host `h`.
pub record Probes (c : Setup) (t : Table) (slot h : ℕ) : Type 0 where
  pub probe : ProbeInfo
  pub at_slot : get_elem? t.probe_table slot ≡ some probe
  pub running : probe.active ≡ true
  pub target : probe.dest_ip ≡ c.base_ip + h

pub record TableInv (c : Setup) (t : Table) : Type 0 where
  pub slots : length t.probe_table ≡ c.max_probes
  pub hosts : length t.host_to_probe ≡ c.total_hosts
  pub counted : t.active_probes ≡ count_if is_active t.probe_table
  -- An active slot probes a host of the range whose entry leads back to the slot.
  pub linked :
      (slot : ℕ) (p : ProbeInfo)
      → get_elem? t.probe_table slot ≡ some p
      → p.active ≡ true
      → (h : ℕ) × (p.dest_ip ≡ c.base_ip + h) × (get_elem? t.host_to_probe h ≡ some (pos slot))
  -- An entry that is a slot leads to an active probe of its host.
  pub held : (h slot : ℕ) → get_elem? t.host_to_probe h ≡ some (pos slot) → Probes c t slot h

some_pos_injective : (a b : ℕ) {o : Option ℤ} → o ≡ some (pos a) → o ≡ some (pos b) → a ≡ b
some_pos_injective a b p q = ground arith

neg_apart : (z : ℤ) (j : ℕ) → is_neg z ≡ true → z ≢ pos j
neg_apart (pos n) j h = cc
neg_apart (negsuc n) j h = λ e. cc

idle_apart : (p q : ProbeInfo) → p.active ≡ false → q.active ≡ true → p ≢ q
idle_apart p q a b = λ e. ground (arith, e)

-- The entry of a probed host leads back to the slot.
pub Probes-entry :
    (c : Setup) (t : Table) (slot h : ℕ)
    → TableInv c t
    → Probes c t slot h
    → get_elem? t.host_to_probe h ≡ some (pos slot)
Probes-entry c t slot h v w =
    let (k, d, l) = v.linked slot w.probe w.at_slot w.running in
    let same : k ≡ h = omega (arith, w.target) in
    subst (λ (n : ℕ). get_elem? t.host_to_probe n ≡ some (pos slot)) same l

-- No two slots probe one host.
pub Probes-slot_unique :
    (c : Setup) (t : Table) (i j h : ℕ) → TableInv c t → Probes c t i h → Probes c t j h → i ≡ j
Probes-slot_unique c t i j h v w u =
    some_pos_injective i j (Probes-entry c t i h v w) (Probes-entry c t j h v u)

module _ (c : Setup) (t : Table) (slot h : ℕ) where
  -- Giving back the slot that probes host `h`.
  abbrev pub vacated : Table
  vacated = deactivate (record t { host_to_probe = set t.host_to_probe h minus_one }) slot

  module _ (v : TableInv c t) (w : Probes c t slot h) where
    vacated-linked :
        (j : ℕ) (p : ProbeInfo)
        → get_elem? vacated.probe_table j ≡ some p
        → p.active ≡ true
        → (k : ℕ) × (p.dest_ip ≡ c.base_ip + k) × (get_elem? vacated.host_to_probe k ≡ some (pos j))
    unfolding deactivate
    vacated-linked j p e a = elim (get_elem?-set_cases t.probe_table slot j _ e) [
      | inl (_, q) ↦ absurd (ground (arith, q))
      | inr (apart, q) ↦
          let (k, d, l) = v.linked j p q a in
          let other : h ≢ k = λ same. apart (
            some_pos_injective slot j (Probes-entry c t slot h v w)
              (subst (λ (n : ℕ). get_elem? t.host_to_probe n ≡ some (pos j)) (sym same) l)) in
          (k, d, get_elem?-set_ne t.host_to_probe h k _ other ∙ l)
    ]

    vacated-held :
        (k j : ℕ) → get_elem? vacated.host_to_probe k ≡ some (pos j) → Probes c vacated j k
    unfolding deactivate
    vacated-held k j e = elim (get_elem?-set_cases t.host_to_probe h k _ e) [
      | inl (_, q) ↦ absurd (ground (arith, q))
      | inr (apart, q) ↦
          let u = v.held k j q in
          let other : slot ≢ j = λ same. apart (
            omega (
              arith,
              w.target,
              u.target,
              ap (λ (p : ProbeInfo). p.dest_ip)
                  (some_injective _ _
                    (sym w.at_slot ∙ ap (get_elem? t.probe_table) same ∙ u.at_slot)),
            )) in
          record {
            probe = u.probe;
            at_slot = get_elem?-set_ne t.probe_table slot j _ other ∙ u.at_slot;
            running = u.running;
            target = u.target;
          }
    ]

    vacated-counted : vacated.active_probes ≡ count_if is_active vacated.probe_table
    unfolding deactivate
    vacated-counted = ground (
      arith,
      v.counted,
      w.running,
      count_if-set is_active t.probe_table slot
          (record (get_or t.probe_table slot no_probe) { active = false }) w.at_slot,
    )

    pub vacated-TableInv : TableInv c vacated
    unfolding deactivate
    vacated-TableInv = record {
      slots = length-set t.probe_table slot _ ∙ v.slots;
      hosts = length-set t.host_to_probe h _ ∙ v.hosts;
      counted = vacated-counted;
      linked = vacated-linked;
      held = vacated-held;
    }

module _ (c : Setup) (t : Table) (slot h : ℕ) (probe : ProbeInfo) where
  -- Taking a slot for host `h`.
  abbrev pub occupied : Table
  occupied = occupy t slot h (pos slot) probe

  -- The slot is free, and so is the host.
  pub record IsFree : Type 0 where
    pub old : ProbeInfo
    pub at_slot : get_elem? t.probe_table slot ≡ some old
    pub idle : old.active ≡ false
    pub entry : ℤ
    pub at_host : get_elem? t.host_to_probe h ≡ some entry
    pub unprobed : is_neg entry ≡ true

  module _ (v : TableInv c t) (f : IsFree) (a : probe.active ≡ true)
      (d : probe.dest_ip ≡ c.base_ip + h) where
    occupied-linked :
        (j : ℕ) (p : ProbeInfo)
        → get_elem? occupied.probe_table j ≡ some p
        → p.active ≡ true
        → (k : ℕ) × (p.dest_ip ≡ c.base_ip + k)
          × (get_elem? occupied.host_to_probe k ≡ some (pos j))
    unfolding occupy
    occupied-linked j p e b = elim (get_elem?-set_cases t.probe_table slot j _ e) [
      | inl (same, q) ↦ (
        h,
        ap (λ (r : ProbeInfo). r.dest_ip) q ∙ d,
        get_elem?-set_self t.host_to_probe h _ (get_elem?-some_lt t.host_to_probe h f.at_host)
            ∙ ap (λ (n : ℕ). some (pos n)) same,
      )
      | inr (apart, q) ↦
          let (k, g, l) = v.linked j p q b in
          let other : h ≢ k = λ same.
            neg_apart f.entry j f.unprobed
              (some_injective _ _ (sym f.at_host ∙ ap (get_elem? t.host_to_probe) same ∙ l)) in
          (k, g, get_elem?-set_ne t.host_to_probe h k _ other ∙ l)
    ]

    occupied-held :
        (k j : ℕ) → get_elem? occupied.host_to_probe k ≡ some (pos j) → Probes c occupied j k
    unfolding occupy
    occupied-held k j e = elim (get_elem?-set_cases t.host_to_probe h k _ e) [
      | inl (same, q) ↦ record {
        probe = probe;
        at_slot =
            ap (get_elem? (set t.probe_table slot probe)) (ground (arith, q))
            ∙ get_elem?-set_self t.probe_table slot probe
                (get_elem?-some_lt t.probe_table slot f.at_slot);
        running = a;
        target = d ∙ ap (λ (n : ℕ). c.base_ip + n) same;
      }
      | inr (apart, q) ↦
          let u = v.held k j q in
          let other : slot ≢ j = λ same.
            idle_apart f.old u.probe f.idle u.running (
              some_injective _ _ (sym f.at_slot ∙ ap (get_elem? t.probe_table) same ∙ u.at_slot)) in
          record {
            probe = u.probe;
            at_slot = get_elem?-set_ne t.probe_table slot j _ other ∙ u.at_slot;
            running = u.running;
            target = u.target;
          }
    ]

    pub occupied-TableInv : TableInv c occupied
    unfolding occupy
    occupied-TableInv = record {
      slots = length-set t.probe_table slot _ ∙ v.slots;
      hosts = length-set t.host_to_probe h _ ∙ v.hosts;
      counted =
          ground (
            arith,
            v.counted,
            f.idle,
            a,
            count_if-set is_active t.probe_table slot probe f.at_slot,
          );
      linked = occupied-linked;
      held = occupied-held;
    }

-- A probe of the changed table is the new one or was there before.
pub Probes-occupied :
    (c : Setup) (t : Table) (slot h : ℕ) (probe : ProbeInfo) (j i : ℕ)
    → probe.dest_ip ≡ c.base_ip + h
    → Probes c (occupied c t slot h probe) j i
    → (i ≡ h) ⊎ Probes c t j i
unfolding occupy
Probes-occupied c t slot h probe j i d w =
    elim (get_elem?-set_cases t.probe_table slot j probe w.at_slot) [
      | inl (_, q) ↦ inl (omega (arith, d, w.target, ap (λ (r : ProbeInfo). r.dest_ip) q))
      | inr (_, q) ↦
          inr (record { probe = w.probe; at_slot = q; running = w.running; target = w.target })
    ]

pub Probes-vacated :
    (c : Setup) (t : Table) (slot h j i : ℕ) → Probes c (vacated c t slot h) j i → Probes c t j i
unfolding deactivate
Probes-vacated c t slot h j i w = elim (get_elem?-set_cases t.probe_table slot j _ w.at_slot) [
  | inl (_, q) ↦ absurd (ground (arith, q, w.running))
  | inr (_, q) ↦ record { probe = w.probe; at_slot = q; running = w.running; target = w.target }
]

-- The probes of other slots stay.
pub Probes-occupied_old :
    (c : Setup) (t : Table) (slot h : ℕ) (probe old : ProbeInfo) (j i : ℕ)
    → get_elem? t.probe_table slot ≡ some old
    → old.active ≡ false
    → Probes c t j i
    → Probes c (occupied c t slot h probe) j i
unfolding occupy
Probes-occupied_old c t slot h probe old j i e a w = record {
  probe = w.probe;
  at_slot =
      get_elem?-set_ne t.probe_table slot j probe (λ same.
        idle_apart old w.probe a w.running
          (some_injective _ _ (sym e ∙ ap (get_elem? t.probe_table) same ∙ w.at_slot)))
      ∙ w.at_slot;
  running = w.running;
  target = w.target;
}

-- One probe fewer is in flight.
pub active-vacated :
    (c : Setup) (t : Table) (slot h : ℕ)
    → TableInv c t
    → Probes c t slot h
    → (vacated c t slot h).active_probes + 1 ≡ t.active_probes
unfolding deactivate
active-vacated c t slot h v w = ground (
  arith,
  v.counted,
  w.running,
  count_if-set is_active t.probe_table slot
      (record (get_or t.probe_table slot no_probe) { active = false }) w.at_slot,
)
