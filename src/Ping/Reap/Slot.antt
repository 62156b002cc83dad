-- ===== src/Ping/Reap/Slot.antt =====
-- One slot of `reap_timed_out_probes`.
use netscan.Base.{
  Bool-cases, ap, arith, false, get_elem?, get_elem?-set_cases, get_elem?-set_ne, get_elem?-some_lt,
  get_or_missing, get_or_of_get_elem?, inl, inr, some, subst, sym, to_int_small, true, ℕ,
  ℕ_discrete, ◌∙◌, ◌≡◌, ◌≢◌, ◌⊎◌,
}
use mathlib.Core.Option.{some-injective as some_injective}
use netscan.Sys.{Timespec}
use netscan.Utils.{inc32}
use netscan.Ping.State.{Setup, ProbeInfo, no_probe, Table, Scan}
use netscan.Ping.Slots.{deactivate}
use netscan.Ping.Slots.Release.{slot_state, busy, idle, missing, unlink-Probes}
use netscan.Ping.Reap.{is_timed_out, reap_slot}
use netscan.Ping.Table.{IsSetup, Probes, TableInv, vacated}

module _ (c : Setup) (now : Timespec) where
  -- The slot holds no active probe that has timed out.
  abbrev pub Settled : Table → ℕ → Type 0
  Settled t j =
      (p : ProbeInfo)
      → get_elem? t.probe_table j ≡ some p
      → p.active ≡ true
      → is_timed_out c now p ≡ false

  -- The scan after a slot is reaped.
  abbrev pub reaped : Scan → ℕ → ℕ → Scan
  reaped s slot h = record s {
    table = vacated c s.table slot h;
    counters = record (s.counters) { probe_timeouts = inc32 s.counters.probe_timeouts };
  }

  abbrev pub Kept : Scan → ℕ → Type 0
  Kept s slot = (reap_slot c now slot s ≡ s) × Settled s.table slot

  abbrev pub Reaped : Scan → ℕ → Type 0
  Reaped s slot =
      (h : ℕ) × (w : Probes c s.table slot h) × (is_timed_out c now w.probe ≡ true)
      × (reap_slot c now slot s ≡ reaped s slot h)

  same_probe :
      (t : Table) (j : ℕ) (p q : ProbeInfo)
      → get_elem? t.probe_table j ≡ some p
      → get_elem? t.probe_table j ≡ some q
      → p ≡ q
  same_probe t j p q e f = some_injective _ _ (sym e ∙ f)

  pub reap_slot_cases :
      (s : Scan) (slot : ℕ) → IsSetup c → TableInv c s.table → Kept s slot ⊎ Reaped s slot
  unfolding reap_slot
  reap_slot_cases s slot u v = elim (slot_state c s.table slot v) [
    | missing le ↦ inl (
      simp (get_or_missing s.table.probe_table slot no_probe le),
      λ p e a. absurd (omega (arith, get_elem?-some_lt s.table.probe_table slot e)),
    )
    | idle q f i ↦ inl (
      simp (get_or_of_get_elem? s.table.probe_table slot no_probe f, i),
      λ p e a. absurd (ground (arith, same_probe s.table slot p q e f, i, a)),
    )
    | busy h lt w ↦ elim (Bool-cases (is_timed_out c now w.probe)) [
      | inr fine ↦ inl (
        simp (get_or_of_get_elem? s.table.probe_table slot no_probe w.at_slot, fine, w.running),
        λ p e a.
            subst (λ (x : ProbeInfo). is_timed_out c now x ≡ false)
              (same_probe s.table slot w.probe p w.at_slot e) fine,
      )
      | inl late ↦ inr (
        h,
        w,
        late,
        simp (
          get_or_of_get_elem? s.table.probe_table slot no_probe w.at_slot,
          late,
          w.running,
          to_int_small slot (
              omega (
                arith,
                u.int_range,
                u.probes_range,
                v.slots,
                get_elem?-some_lt s.table.probe_table slot w.at_slot,
              )),
          unlink-Probes c s.table slot h u v w lt,
        ),
      )
    ]
  ]

  -- The probes in flight that have not timed out are where they were.
  abbrev pub Spared : Table → Table → Type 0
  Spared t0 t =
      (j : ℕ) (p : ProbeInfo)
      → get_elem? t0.probe_table j ≡ some p
      → p.active ≡ true
      → is_timed_out c now p ≡ false
      → get_elem? t.probe_table j ≡ some p

  pub vacated-Spared :
      (t0 t : Table) (slot h : ℕ)
      → (w : Probes c t slot h) → is_timed_out c now w.probe ≡ true
      → Spared t0 t
      → Spared t0 (vacated c t slot h)
  unfolding deactivate
  vacated-Spared t0 t slot h w late old j p e a fine = elim (ℕ_discrete slot j) [
    | yes same ↦
        let q =
          same_probe t j w.probe p
            (subst (λ (n : ℕ). get_elem? t.probe_table n ≡ some w.probe) same w.at_slot)
            (old j p e a fine) in
        absurd (ground (arith, late, fine, ap (is_timed_out c now) q))
    | no apart ↦ get_elem?-set_ne t.probe_table slot j _ apart ∙ old j p e a fine
  ]

  pub vacated-Settled :
      (t : Table) (slot h j : ℕ) → (j ≢ slot → Settled t j) → Settled (vacated c t slot h) j
  unfolding deactivate
  vacated-Settled t slot h j old p e a = elim (get_elem?-set_cases t.probe_table slot j _ e) [
    | inl (_, q) ↦ absurd (ground (arith, q, a))
    | inr (apart, q) ↦ old (λ same. apart (sym same)) p q a
  ]
