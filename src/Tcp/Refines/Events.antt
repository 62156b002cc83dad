-- ===== src/Tcp/Refines/Events.antt =====
-- `poll_connections` and `reap_timed_out_probes` as steps of the specification.
use netscan.Base.{
  Bool-cases, Bytes, List, [], ap, arith, get_or, get_or_missing, inl, inr, leb, length, ltb,
  ltb-false→le, ltb→lt, refl, set, subst, suc, sym, true, zero, ℕ, ◌+◌, ◌<◌, ◌∙◌, ◌∷◌, ◌≡◌,
}
use mathlib.Core.List.{Memᴰ}
use netscan.Tcp.Spec.{Progress}
use netscan.Sys.{Timespec}
use netscan.Tcp.State.{no_probe, ProbeInfo, TcpHostResult, Setup, Scan}
use netscan.Tcp.Poll.{
  Event, is_connected, make_result, has_result, record_open, poll_event, poll_connections,
}
use netscan.Tcp.Reap.{close_probe, is_timed_out, reap_slot, reap_from, reap_timed_out_probes}
use netscan.Tcp.Refines.{Tracks, lose-Tracks, answer-Tracks}

-- A probe that ends leaves its address in the slot.
set-dest_ip :
    (ps : List ProbeInfo) (slot k : ℕ) (q : ProbeInfo)
    → q.dest_ip ≡ (get_or ps slot no_probe).dest_ip
    → (get_or (set ps slot q) k no_probe).dest_ip ≡ (get_or ps k no_probe).dest_ip
set-dest_ip [] slot k q h = refl
set-dest_ip (p ∷ ps) zero zero q h = h
set-dest_ip (p ∷ ps) zero (suc k) q h = refl
set-dest_ip (p ∷ ps) (suc slot) zero q h = refl
set-dest_ip (p ∷ ps) (suc slot) (suc k) q h = set-dest_ip ps slot k q h

close_probe-dest_ip :
    (s : Scan) (slot k : ℕ)
    → (get_or (close_probe slot s).probe_table k no_probe).dest_ip
      ≡ (get_or s.probe_table k no_probe).dest_ip
unfolding close_probe
close_probe-dest_ip s slot k = set-dest_ip s.probe_table slot k _ refl

record_open-probe_table :
    (c : Setup) (r : TcpHostResult) (s : Scan) → (record_open c r s).probe_table ≡ s.probe_table
unfolding record_open
record_open-probe_table c r s = elim (Bool-cases (has_result s.scan_results r.ip)) [
  | inl e ↦ simp e refl
  | inr e ↦ simp e refl
]

poll_event-dest_ip :
    (c : Setup) (inet_ntop : Bytes → Bytes) (e : Event) (s : Scan) (k : ℕ)
    → (get_or (poll_event c inet_ntop e s).probe_table k no_probe).dest_ip
      ≡ (get_or s.probe_table k no_probe).dest_ip
unfolding poll_event
poll_event-dest_ip c f e s k = elim (Bool-cases (leb (length s.probe_table) e.slot)) [
  | inl out ↦ rw (out, poll_event) refl
  | inr inside ↦ elim (Bool-cases ((get_or s.probe_table e.slot no_probe).active)) [
    | inr i ↦ rw (inside, poll_event, i) refl
    | inl a ↦ elim (Bool-cases (is_connected e)) [
      | inl connected ↦
          rw (inside, poll_event, a, connected)
            (ap (λ (ps : List ProbeInfo). (get_or ps k no_probe).dest_ip)
                (record_open-probe_table c _ (close_probe e.slot s))
              ∙ close_probe-dest_ip s e.slot k)
      | inr failed ↦ rw (inside, poll_event, a, failed) (close_probe-dest_ip s e.slot k)
    ]
  ]
]

module _ (c : Setup) (Open : ℕ → Type 0) (origin : Progress) where
  in_table :
      (s : Scan) (slot : ℕ)
      → (get_or s.probe_table slot no_probe).active ≡ true
      → slot < length s.probe_table
  in_table s slot a = elim (Bool-cases (ltb slot (length s.probe_table))) [
    | inl lt ↦ ltb→lt _ _ lt
    | inr out ↦
        absurd
          (ground (arith, a, get_or_missing s.probe_table slot no_probe (ltb-false→le _ _ out)))
  ]

  reap_slot-Tracks :
      (now : Timespec) (slot : ℕ) (s : Scan)
      → Tracks c Open origin s
      → Tracks c Open origin (reap_slot c now slot s)
  unfolding reap_slot
  reap_slot-Tracks now slot s t = elim (Bool-cases ((get_or s.probe_table slot no_probe).active)) [
    | inr i ↦ rw (i, reap_slot) t
    | inl a ↦ elim (Bool-cases (is_timed_out c now (get_or s.probe_table slot no_probe))) [
      | inr fine ↦ rw (a, reap_slot, fine) t
      | inl late ↦
          rw (a, reap_slot, late) (lose-Tracks c Open origin s slot t (in_table s slot a) a)
    ]
  ]

  reap_from-Tracks :
      (now : Timespec) (n slot : ℕ) (s : Scan)
      → Tracks c Open origin s
      → Tracks c Open origin (reap_from c now n slot s)
  unfolding reap_from
  reap_from-Tracks now zero slot s t = t
  reap_from-Tracks now (suc n) slot s t =
      reap_from-Tracks now n (slot + 1) (reap_slot c now slot s) (reap_slot-Tracks now slot s t)

  pub reap-Tracks :
      (now : Timespec) (s : Scan)
      → Tracks c Open origin s
      → Tracks c Open origin (reap_timed_out_probes c now s)
  unfolding reap_timed_out_probes
  reap-Tracks now s t = reap_from-Tracks now (length s.probe_table) 0 s t

  poll_event-Tracks :
      (inet_ntop : Bytes → Bytes) (e : Event) (s : Scan)
      → (is_connected e ≡ true → Open (get_or s.probe_table e.slot no_probe).dest_ip)
      → Tracks c Open origin s
      → Tracks c Open origin (poll_event c inet_ntop e s)
  unfolding poll_event make_result
  poll_event-Tracks f e s open_event t = elim (Bool-cases (leb (length s.probe_table) e.slot)) [
    | inl out ↦ rw (out, poll_event) t
    | inr inside ↦ elim (Bool-cases ((get_or s.probe_table e.slot no_probe).active)) [
      | inr i ↦ rw (inside, poll_event, i) t
      | inl a ↦ elim (Bool-cases (is_connected e)) [
        | inl connected ↦
            rw (inside, poll_event, a, connected)
              (answer-Tracks c Open origin s e.slot t (in_table s e.slot a) a _
                (open_event connected) refl)
        | inr failed ↦
            rw (inside, poll_event, a, failed)
              (lose-Tracks c Open origin s e.slot t (in_table s e.slot a) a)
      ]
    ]
  ]

  pub poll-Tracks :
      (inet_ntop : Bytes → Bytes) (es : List Event) (s : Scan)
      → ((e : Event)
          → Memᴰ e es
          → is_connected e ≡ true
          → Open (get_or s.probe_table e.slot no_probe).dest_ip)
      → Tracks c Open origin s
      → Tracks c Open origin (poll_connections c inet_ntop es s)
  unfolding poll_connections
  poll-Tracks f [] s opens t = t
  poll-Tracks f (e ∷ es) s opens t =
      poll-Tracks f es (poll_event c f e s)
        (λ x m h. subst Open (sym (poll_event-dest_ip c f e s x.slot)) (opens x (Memᴰ.tail m) h))
        (poll_event-Tracks f e s (opens e (Memᴰ.head refl)) t)
