-- ===== src/Tcp/Keeps.antt =====
-- `poll_connections` and `reap_timed_out_probes` of the TCP scanner, and the invariant.
use netscan.Base.{
  Bool-cases, Bytes, List, [], arith, false, get_elem?-get_or, get_or, get_or_missing, inl, inr,
  leb, length, length-append, ltb, ltb-false→le, ltb→lt, refl, suc, true, zero, ℕ, ◌++◌, ◌+◌, ◌==◌,
  ◌||◌, ◌∷◌, ◌≡◌,
}
use netscan.Base.{Bytes}
use netscan.Sys.{Timespec}
use netscan.Tcp.State.{TcpHostResult, no_probe, Setup, Scan}
use netscan.Tcp.Reap.{close_probe, is_timed_out, reap_slot, reap_from, reap_timed_out_probes}
use netscan.Tcp.Poll.{
  Event, is_connected, has_result, make_result, record_open, poll_event, poll_connections,
}
use netscan.Tcp.Invariant.{IsTarget, ScanInv, Found}
use netscan.Tcp.Table.{closed-TableInv}

module _ (c : Setup) where
  close_probe-ScanInv :
      (slot : ℕ) (s : Scan)
      → ScanInv c s
      → (get_or s.probe_table slot no_probe).active ≡ true
      → ScanInv c (close_probe slot s)
  unfolding close_probe
  close_probe-ScanInv slot s v a = elim (Bool-cases (ltb slot (length s.probe_table))) [
    | inl lt ↦ record {
      table =
          closed-TableInv c s.probe_table s.active_probes s.opened slot
            (get_or s.probe_table slot no_probe) v.table
            (get_elem?-get_or s.probe_table slot no_probe (ltb→lt _ _ lt)) a;
      found = v.found;
      found_count = v.found_count;
    }
    | inr out ↦
        absurd
          (ground (arith, a, get_or_missing s.probe_table slot no_probe (ltb-false→le _ _ out)))
  ]

  reap_slot-ScanInv :
      (now : Timespec) (slot : ℕ) (s : Scan) → ScanInv c s → ScanInv c (reap_slot c now slot s)
  unfolding reap_slot
  reap_slot-ScanInv now slot s v = elim (Bool-cases ((get_or s.probe_table slot no_probe).active)) [
    | inr i ↦ rw (i, reap_slot) v
    | inl a ↦ elim (Bool-cases (is_timed_out c now (get_or s.probe_table slot no_probe))) [
      | inr fine ↦ rw (a, reap_slot, fine) v
      | inl late ↦ rw (a, reap_slot, late) (close_probe-ScanInv slot s v a)
    ]
  ]

  reap_from-ScanInv :
      (now : Timespec) (n slot : ℕ) (s : Scan) → ScanInv c s → ScanInv c (reap_from c now n slot s)
  unfolding reap_from
  reap_from-ScanInv now zero slot s v = v
  reap_from-ScanInv now (suc n) slot s v =
      reap_from-ScanInv now n (slot + 1) (reap_slot c now slot s) (reap_slot-ScanInv now slot s v)

  has_result-append :
      (rs : List TcpHostResult) (r : TcpHostResult) (ip : ℕ)
      → has_result (rs ++ (r ∷ [])) ip ≡ (has_result rs ip || (r.ip == ip))
  unfolding has_result
  has_result-append [] r ip = ground arith
  has_result-append (x ∷ xs) r ip = ground (arith, has_result-append xs r ip)

  Found-append :
      (rs : List TcpHostResult) (r : TcpHostResult)
      → Found c rs
      → has_result rs r.ip ≡ false
      → IsTarget c r.ip
      → Found c (rs ++ (r ∷ []))
  unfolding has_result
  Found-append [] r f new t = (refl, t, tt)
  Found-append (x ∷ xs) r f new t = (
    rw (has_result-append xs r x.ip) (ground (arith, f.0, new)),
    f.1,
    Found-append xs r f.2 (ground (arith, new)) t,
  )

  record_open-ScanInv :
      (r : TcpHostResult) (s : Scan) → ScanInv c s → IsTarget c r.ip → ScanInv c (record_open c r s)
  unfolding record_open
  record_open-ScanInv r s v t = elim (Bool-cases (has_result s.scan_results r.ip)) [
    | inl known ↦
        rw (known, record_open)
          (record { table = v.table; found = v.found; found_count = v.found_count })
    | inr new ↦
        rw (new, record_open)
          (record {
            table = v.table;
            found = Found-append s.scan_results r v.found new t;
            found_count = omega (arith, v.found_count, length-append s.scan_results (r ∷ []));
          })
  ]

  poll_event-ScanInv :
      (inet_ntop : Bytes → Bytes) (e : Event) (s : Scan)
      → ScanInv c s
      → ScanInv c (poll_event c inet_ntop e s)
  unfolding poll_event make_result
  poll_event-ScanInv f e s v = elim (Bool-cases (leb (length s.probe_table) e.slot)) [
    | inl out ↦ rw (out, poll_event) v
    | inr inside ↦ elim (Bool-cases ((get_or s.probe_table e.slot no_probe).active)) [
      | inr i ↦ rw (inside, poll_event, i) v
      | inl a ↦
          let (_, target) =
            v.table.probes e.slot (get_or s.probe_table e.slot no_probe)
              (get_elem?-get_or s.probe_table e.slot no_probe (ground arith)) a in
          let closed = close_probe-ScanInv e.slot s v a in
          elim (Bool-cases (is_connected e)) [
            | inl yes_open ↦
                rw (inside, poll_event, a, yes_open)
                  (record_open-ScanInv _ (close_probe e.slot s) closed target)
            | inr not_open ↦ rw (inside, poll_event, a, not_open) closed
          ]
    ]
  ]

  -- Whatever events `epoll_wait` reports, in what order and how often, polling keeps the invariant.
  pub poll-ScanInv :
      (inet_ntop : Bytes → Bytes) (es : List Event) (s : Scan)
      → ScanInv c s
      → ScanInv c (poll_connections c inet_ntop es s)
  unfolding poll_connections
  poll-ScanInv f [] s v = v
  poll-ScanInv f (e ∷ es) s v = poll-ScanInv f es (poll_event c f e s) (poll_event-ScanInv f e s v)

  pub reap-ScanInv :
      (now : Timespec) (s : Scan) → ScanInv c s → ScanInv c (reap_timed_out_probes c now s)
  unfolding reap_timed_out_probes
  reap-ScanInv now s v = reap_from-ScanInv now (length s.probe_table) 0 s v
