-- ===== src/Ping/Receive/Settle.antt =====
-- The slot of a host that has answered: `settle_slot`.
use netscan.Base.{
  ==_refl, ap, arith, get_elem?, get_elem?-get_or, get_elem?-set_self, get_elem?-some_lt, get_or,
  get_or_of_get_elem?, inl, inr, is_neg, length, lt→ltb, minus_one, negsuc, pos, refl, some, subst,
  sym, true, ℕ, ℤ, ◌+◌, ◌<◌, ◌∙◌, ◌≡◌, ◌≢◌, ◌⊎◌,
}
use mathlib.Core.Option.{some-injective as some_injective}
use netscan.Ping.State.{Setup, no_probe, Table}
use netscan.Ping.Slots.{deactivate}
use netscan.Ping.Slots.Release.{vacated-Shrinks}
use netscan.Ping.Receive.{settle_slot}
use netscan.Ping.Table.{Probes, TableInv, Probes-entry, vacated, vacated-TableInv}
use netscan.Ping.Invariant.{Shrinks, Shrinks-refl}

entry_cases : (z : ℤ) → (is_neg z ≡ true) ⊎ ((n : ℕ) × (z ≡ pos n))
entry_cases (pos n) = inr (n, refl)
entry_cases (negsuc n) = inl refl

module _ (c : Setup) (t : Table) (h : ℕ) (v : TableInv c t) (lt : h < c.total_hosts) where
  abbrev entry : ℤ
  entry = get_or t.host_to_probe h minus_one

  entry_at : get_elem? t.host_to_probe h ≡ some entry
  entry_at = get_elem?-get_or t.host_to_probe h minus_one (omega (arith, v.hosts))

  settle-vacated :
      (slot : ℕ) → entry ≡ pos slot → settle_slot t h (c.base_ip + h) ≡ vacated c t slot h
  unfolding settle_slot deactivate
  settle-vacated slot e =
      let w = v.held h slot (entry_at ∙ ap some e) in
      simp (
        e,
        get_or_of_get_elem? t.probe_table slot no_probe w.at_slot,
        w.running,
        w.target,
        ==_refl (c.base_ip + h),
        lt→ltb slot (length t.probe_table) (get_elem?-some_lt t.probe_table slot w.at_slot),
      )

  settle_idle : is_neg entry ≡ true → settle_slot t h (c.base_ip + h) ≡ t
  unfolding settle_slot
  settle_idle e = simp e

  pub settle-Shrinks : Shrinks c t (settle_slot t h (c.base_ip + h))
  settle-Shrinks = elim (entry_cases entry) [
    | inl e ↦ subst (Shrinks c t) (sym (settle_idle e)) (Shrinks-refl c t v)
    | inr (slot, e) ↦
        subst (Shrinks c t) (sym (settle-vacated slot e))
          (vacated-Shrinks c t slot h v (v.held h slot (entry_at ∙ ap some e)))
  ]

  neg_apart : (z : ℤ) (j : ℕ) → is_neg z ≡ true → z ≢ pos j
  neg_apart (pos n) j g = cc
  neg_apart (negsuc n) j g = λ e. cc

  vacated_free : (slot j : ℕ) → Probes c t slot h → ¬ Probes c (vacated c t slot h) j h
  unfolding deactivate
  vacated_free slot j w p =
      let back = Probes-entry c (vacated c t slot h) j h (vacated-TableInv c t slot h v w) p in
      neg_apart minus_one j refl (
        some_injective _ _
          (sym (get_elem?-set_self t.host_to_probe h minus_one (omega (arith, v.hosts))) ∙ back))

  -- Afterwards nothing probes the host.
  pub settle_frees : (j : ℕ) → ¬ Probes c (settle_slot t h (c.base_ip + h)) j h
  settle_frees j w = elim (entry_cases entry) [
    | inl e ↦ neg_apart entry j e (
        some_injective _ _ (
          sym entry_at
          ∙ Probes-entry c t j h v (subst (λ (x : Table). Probes c x j h) (settle_idle e) w)))
    | inr (slot, e) ↦
        vacated_free slot j (v.held h slot (entry_at ∙ ap some e))
          (subst (λ (x : Table). Probes c x j h) (settle-vacated slot e) w)
  ]
