-- ===== src/Ping/Slots/Release.antt =====
-- `release_probe_slot` on a slot in use, a free slot and no slot.
use netscan.Base.{
  ==_refl, Bool-cases, ap, arith, false, get_elem?, get_elem?-get_or, get_elem?-some_lt, get_or,
  get_or_of_get_elem?, inl, inr, length, le→leb, ltb, ltb-false→le, ltb→lt, lt→leb-false, minus_one,
  negsuc, pos, set, some, subst, sym, ℕ, ℤ, ◌+◌, ◌<◌, ◌∙◌, ◌≡◌, ◌≤◌,
}
use netscan.Ping.State.{Setup, ProbeInfo, no_probe, Table}
use netscan.Ping.Table.{
  IsSetup, Probes, TableInv, Probes-entry, vacated, vacated-TableInv, Probes-vacated,
  active-vacated,
}
use netscan.Ping.Invariant.{Shrinks, Shrinks-refl}
use netscan.Ping.Slots.{unlink, deactivate, release_probe_slot}
use netscan.Ping.Slots.Find.{host_index_for_ip_inside}

-- The slots are in use, or free, or do not exist.
pub data SlotState (c : Setup) (t : Table) (slot : ℕ) : Type 0 where
  busy : (h : ℕ) → h < c.total_hosts → Probes c t slot h → SlotState c t slot
  idle :
      (p : ProbeInfo)
      → get_elem? t.probe_table slot ≡ some p
      → p.active ≡ false
      → SlotState c t slot
  missing : length t.probe_table ≤ slot → SlotState c t slot

pub slot_state : (c : Setup) (t : Table) (slot : ℕ) → TableInv c t → SlotState c t slot
slot_state c t slot v = elim (Bool-cases (ltb slot (length t.probe_table))) [
  | inr out ↦ missing (ltb-false→le _ _ out)
  | inl lt ↦
      let p = get_or t.probe_table slot no_probe in
      let e = get_elem?-get_or t.probe_table slot no_probe (ltb→lt _ _ lt) in
      elim (Bool-cases p.active) [
        | inr a ↦ idle p e a
        | inl a ↦
            let (h, d, l) = v.linked slot p e a in
            busy h (omega (arith, get_elem?-some_lt t.host_to_probe h l, v.hosts))
              (record { probe = p; at_slot = e; running = a; target = d })
      ]
]

-- The conditional unlinking of the source does unlink a probed host.
pub unlink-Probes :
    (c : Setup) (t : Table) (slot h : ℕ)
    → IsSetup c
    → TableInv c t
    → (w : Probes c t slot h) → h < c.total_hosts
    → unlink c t.host_to_probe w.probe.dest_ip (pos slot) ≡ set t.host_to_probe h minus_one
unfolding unlink
unlink-Probes c t slot h s v w lt = simp (
  w.target,
  host_index_for_ip_inside c h s lt,
  get_or_of_get_elem? t.host_to_probe h minus_one (Probes-entry c t slot h v w),
  ==_refl slot,
)

pub vacated-Shrinks :
    (c : Setup) (t : Table) (slot h : ℕ)
    → TableInv c t
    → Probes c t slot h
    → Shrinks c t (vacated c t slot h)
vacated-Shrinks c t slot h v w = record {
  inv = vacated-TableInv c t slot h v w;
  old = λ j i p. Probes-vacated c t slot h j i p;
}

pub release-Probes :
    (c : Setup) (t : Table) (slot h : ℕ)
    → IsSetup c
    → TableInv c t
    → Probes c t slot h
    → h < c.total_hosts
    → release_probe_slot c t (pos slot) ≡ vacated c t slot h
unfolding release_probe_slot
release-Probes c t slot h s v w lt = simp (
  get_or_of_get_elem? t.probe_table slot no_probe w.at_slot,
  w.running,
  lt→leb-false slot (length t.probe_table) (get_elem?-some_lt t.probe_table slot w.at_slot),
  unlink-Probes c t slot h s v w lt,
)

-- Releasing the slot of a probe marks the slot as free and leaves the other slots, sets the entry of the
-- probed host to -1 and leaves the other entries, and counts one probe less.
pub release_probe_slot_frees :
    (c : Setup) (t : Table) (slot h : ℕ)
    → IsSetup c
    → TableInv c t
    → (w : Probes c t slot h) → h < c.total_hosts
    → let t' = release_probe_slot c t (pos slot) in
      (t'.probe_table ≡ set t.probe_table slot (record (w.probe) { active = false }))
      × (t'.host_to_probe ≡ set t.host_to_probe h minus_one)
      × (t'.active_probes + 1 ≡ t.active_probes)
unfolding deactivate
release_probe_slot_frees c t slot h s v w lt =
    let e = release-Probes c t slot h s v w lt in
    (
      ap (λ (x : Table). x.probe_table) e
          ∙ ap (λ (p : ProbeInfo). set t.probe_table slot (record p { active = false }))
              (get_or_of_get_elem? t.probe_table slot no_probe w.at_slot),
      ap (λ (x : Table). x.host_to_probe) e,
      ap (λ (x : Table). x.active_probes + 1) e ∙ active-vacated c t slot h v w,
    )

-- Only a slot of the table that is in use is given back.
pub release-Shrinks :
    (c : Setup) (t : Table) (slot : ℤ)
    → IsSetup c
    → TableInv c t
    → Shrinks c t (release_probe_slot c t slot)
unfolding release_probe_slot
release-Shrinks c t (negsuc n) s v = Shrinks-refl c t v
release-Shrinks c t (pos slot) s v = elim (slot_state c t slot v) [
  | busy h lt w ↦
      subst (Shrinks c t) (sym (release-Probes c t slot h s v w lt))
        (vacated-Shrinks c t slot h v w)
  | idle p e a ↦
      simp
        (
          get_or_of_get_elem? t.probe_table slot no_probe e,
          a,
          lt→leb-false slot (length t.probe_table) (get_elem?-some_lt t.probe_table slot e),
        )
        (Shrinks-refl c t v)
  | missing le ↦ simp (le→leb (length t.probe_table) slot le) (Shrinks-refl c t v)
]
