-- ===== src/Ping/Reap/Keeps.antt =====
-- `reap_timed_out_probes`: the invariant, what is reaped, and the count of it.
use netscan.Base.{
  ap, arith, get_elem?, get_elem?-some_lt, inl, inr, length, refl, some, subst, suc, sym, true,
  zero, ℕ, ℕ_discrete, ◌%◌, ◌+◌, ◌-◌, ◌<◌, ◌≡◌, ◌≤◌,
}
use netscan.Sys.{Timespec}
use netscan.Utils.{inc32, u32_mod}
use netscan.Base.{ap}
use netscan.Ping.Reap.Late.{Late, in_time, not-Late}
use netscan.Ping.Table.{vacated}
use netscan.Ping.State.{Table}
use netscan.Ping.State.{Setup, ProbeInfo, Scan}
use netscan.Ping.Slots.Release.{vacated-Shrinks}
use netscan.Ping.Reap.{reap_slot, reap_from, reap_timed_out_probes}
use netscan.Ping.Table.{IsSetup, active-vacated}
use netscan.Ping.Invariant.{ScanInv, Shrinks, Shrinks-refl, Shrinks-trans, shrink-ScanInv}
use netscan.Ping.Reap.Slot.{Settled, reap_slot_cases, Spared, vacated-Spared, vacated-Settled}

-- The scan with another table and another count of time-outs.
abbrev pub changed : Scan → Table → ℕ → Scan
changed s t timeouts = record s {
  table = t;
  counters = record (s.counters) { probe_timeouts = timeouts };
}

module _ (c : Setup) (now : Timespec) where
  record Reaping (s0 s : Scan) (slot : ℕ) : Type 0 where
    shrinks : Shrinks c s0.table s.table
    same_finds : s.finds ≡ s0.finds
    same_seq : s.next_seq ≡ s0.next_seq
    rest : s ≡ changed s0 s.table s.counters.probe_timeouts
    same_position : s.next_host_idx ≡ s0.next_host_idx
    settled : (j : ℕ) → j < slot → Settled c now s.table j
    spared : Spared c now s0.table s.table
    fewer : s.table.active_probes ≤ s0.table.active_probes
    counted :
        s.counters.probe_timeouts % u32_mod
        ≡ (s0.counters.probe_timeouts + (s0.table.active_probes - s.table.active_probes)) % u32_mod

  reap_slot-Reaping :
      (s0 s : Scan) (slot : ℕ)
      → IsSetup c
      → Reaping s0 s slot
      → Reaping s0 (reap_slot c now slot s) (slot + 1)
  reap_slot-Reaping s0 s slot u r = elim (reap_slot_cases c now s slot u r.shrinks.inv) [
    | inl (e, here) ↦
        subst (λ (x : Scan). Reaping s0 x (slot + 1)) (sym e)
          (record {
            shrinks = r.shrinks;
            same_finds = r.same_finds;
            same_seq = r.same_seq;
            rest = r.rest;
            same_position = r.same_position;
            settled = λ j lt. elim (ℕ_discrete j slot) [
              | yes same ↦ subst (Settled c now s.table) (sym same) here
              | no apart ↦ r.settled j (omega arith)
            ];
            spared = r.spared;
            fewer = r.fewer;
            counted = r.counted;
          })
    | inr (h, w, late, e) ↦
        subst (λ (x : Scan). Reaping s0 x (slot + 1)) (sym e)
          (record {
            shrinks =
                Shrinks-trans c s0.table s.table _ r.shrinks
                  (vacated-Shrinks c s.table slot h r.shrinks.inv w);
            same_finds = r.same_finds;
            same_seq = r.same_seq;
            rest =
                ap
                  (λ (x : Scan).
                    changed x (vacated c s.table slot h) (inc32 s.counters.probe_timeouts))
                  r.rest;
            same_position = r.same_position;
            settled =
                λ j lt. vacated-Settled c now s.table slot h j (λ apart. r.settled j (omega arith));
            spared = vacated-Spared c now s0.table s.table slot h w late r.spared;
            fewer = omega (arith, active-vacated c s.table slot h r.shrinks.inv w, r.fewer);
            counted =
                omega (arith, active-vacated c s.table slot h r.shrinks.inv w, r.fewer, r.counted);
          })
  ]

  reap_from-Reaping :
      (s0 s : Scan) (n slot end : ℕ)
      → IsSetup c
      → slot + n ≡ end
      → Reaping s0 s slot
      → Reaping s0 (reap_from c now n slot s) end
  unfolding reap_from
  reap_from-Reaping s0 s zero slot end u e r =
      let e' : slot ≡ end = omega arith in subst (Reaping s0 s) e' r
  reap_from-Reaping s0 s (suc n) slot end u e r =
      reap_from-Reaping s0 (reap_slot c now slot s) n (slot + 1) end u (omega arith)
        (reap_slot-Reaping s0 s slot u r)

  reap-Reaping :
      (s : Scan)
      → IsSetup c
      → ScanInv c s
      → Reaping s (reap_timed_out_probes c now s) (length s.table.probe_table)
  unfolding reap_timed_out_probes
  reap-Reaping s u v =
      reap_from-Reaping s s (length s.table.probe_table) 0 (length s.table.probe_table) u
        (omega arith)
        (record {
          shrinks = Shrinks-refl c s.table v.table;
          same_finds = refl;
          same_seq = refl;
          rest = refl;
          same_position = refl;
          settled = λ j lt. absurd (omega arith);
          spared = λ j p e a fine. e;
          fewer = omega arith;
          counted = omega arith;
        })

  -- Reaping keeps the invariant.
  pub reap-ScanInv :
      (s : Scan) → IsSetup c → ScanInv c s → ScanInv c (reap_timed_out_probes c now s)
  reap-ScanInv s u v =
      let r = reap-Reaping s u v in
      shrink-ScanInv c s (reap_timed_out_probes c now s) v r.shrinks r.same_finds r.same_seq
        (omega (arith, r.same_position, v.position))

  -- Afterwards no probe in flight was sent more than `timeout_ms` milliseconds ago, the probes that
  -- were not sent that long ago are still in their slots, and `probe_timeouts_` has grown, modulo
  -- 2 ^ 32, by the number of probes that were given up. Only the table and that counter change: the
  -- hosts found, the batch, the position and the other counters stay.
  pub reap_clears :
      (s : Scan)
      → IsSetup c
      → ScanInv c s
      → let t = reap_timed_out_probes c now s in
        ((slot : ℕ) (p : ProbeInfo)
          → get_elem? t.table.probe_table slot ≡ some p
          → p.active ≡ true
          → ¬ Late c now p)
        × ((slot : ℕ) (p : ProbeInfo)
            → get_elem? s.table.probe_table slot ≡ some p
            → p.active ≡ true
            → ¬ Late c now p
            → get_elem? t.table.probe_table slot ≡ some p)
        × (t.counters.probe_timeouts % u32_mod
            ≡ (s.counters.probe_timeouts + (s.table.active_probes - t.table.active_probes))
              % u32_mod)
        × (t.table.active_probes ≤ s.table.active_probes)
        × (t ≡ record s {
          table = t.table;
          counters = record (s.counters) { probe_timeouts = t.counters.probe_timeouts };
        })
  reap_clears s u v =
      let r = reap-Reaping s u v in
      (
        λ slot p e a. in_time c now p (
            r.settled slot
              (omega (
                arith,
                get_elem?-some_lt (reap_timed_out_probes c now s).table.probe_table slot e,
                r.shrinks.inv.slots,
                v.table.slots,
              ))
              p e a),
        λ slot p e a fine. r.spared slot p e a (not-Late c now p fine),
        r.counted,
        r.fewer,
        r.rest,
      )
