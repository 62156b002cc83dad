-- ===== src/Tcp/Initiate.antt =====
-- `initiate_connections` and the invariant, with every error exit.
use netscan.Base.{
  Bool-cases, List, [], arith, eqb_ℤ, false, get_elem?, inl, inr, is_neg, minus_one, pos_part, refl,
  some, subst, ℕ, ℤ, ◌+◌, ◌<◌, ◌∷◌, ◌≡◌,
}
use netscan.Sys.{returns, returns_injective, pending-ne-returns}
use netscan.Utils.{add32}
use netscan.Ping.Socket.Cleanup.{close_own}
use netscan.Tcp.State.{ProbeInfo, Setup, Scan}
use netscan.Tcp.Connect.{
  ConnectAnswers, is_reserved, find_slot, connect_slot, is_refused, advance, may_initiate,
  initiate_single_connection, initiate_loop, initiate_connections,
}
use netscan.Tcp.Invariant.{IsSetup, IsTarget, ScanInv}
use netscan.Tcp.Table.{opened-TableInv, SlotFound, free, full, find_slot-SlotFound}

module _ (c : Setup) where
  connect_slot-ScanInv :
      (a : ConnectAnswers) (slot target_ip : ℕ) (s : Scan) (p : ProbeInfo)
      → ScanInv c s
      → is_neg a.socket.value ≡ false
      → get_elem? s.probe_table slot ≡ some p
      → p.active ≡ false
      → IsTarget c target_ip
      → ScanInv c (connect_slot a slot target_ip s)
  unfolding connect_slot
  connect_slot-ScanInv a slot ip s p v valid e i t = elim (Bool-cases (is_refused a)) [
    | inl refused ↦
        rw (refused, connect_slot, close_own a.socket.value s.opened)
          (record { table = v.table; found = v.found; found_count = v.found_count })
    | inr fine ↦
        rw (fine, connect_slot)
          (record {
            table =
                opened-TableInv c s.probe_table s.active_probes s.opened slot p _ v.table e i refl
                  valid t;
            found = v.found;
            found_count = v.found_count;
          })
  ]

  advance-ScanInv : (s : Scan) → ScanInv c s → ScanInv c (advance s)
  advance-ScanInv s v = record { table = v.table; found = v.found; found_count = v.found_count }

  module _ (u : IsSetup c) where
    at_slot-ScanInv :
        (a : ConnectAnswers) (target_ip : ℕ) (s : Scan) {z : ℤ}
        → ScanInv c s
        → is_neg a.socket.value ≡ false
        → IsTarget c target_ip
        → SlotFound 0 s.probe_table z
        → eqb_ℤ z minus_one ≡ false
        → ScanInv c (connect_slot a (pos_part z) target_ip (advance s))
    at_slot-ScanInv a ip s v valid t (free k p e i) n =
        let same : k ≡ 0 + k = omega arith in
        connect_slot-ScanInv a (0 + k) ip (advance s) p (advance-ScanInv s v) valid
          (subst (λ (j : ℕ). get_elem? s.probe_table j ≡ some p) same e) i t
    at_slot-ScanInv a ip s v valid t (full e) n = absurd (ground (arith, n))

    pub single-ScanInv :
        (a : ConnectAnswers) (s : Scan)
        → ScanInv c s
        → s.next_host_idx < c.total_hosts
        → ScanInv c (initiate_single_connection c a s).1
    unfolding initiate_single_connection
    single-ScanInv a s v lt =
        let ip = add32 c.base_ip s.next_host_idx in
        elim (Bool-cases (is_reserved c ip)) [
          | inl skipped ↦ rw (skipped, initiate_single_connection) (advance-ScanInv s v)
          | inr open_host ↦ elim (Bool-cases (eqb_ℤ (find_slot 0 s.probe_table) minus_one)) [
            | inl no_slot ↦ rw (open_host, initiate_single_connection, no_slot) v
            | inr slot ↦ elim (Bool-cases (is_neg a.socket.value)) [
              | inl failed ↦
                  rw (open_host, initiate_single_connection, slot, failed) (advance-ScanInv s v)
              | inr valid ↦
                  rw (open_host, initiate_single_connection, slot, valid)
                    (at_slot-ScanInv a ip s v valid
                      (record {
                        from = omega (arith, u.in_range);
                        below = omega (arith, u.in_range);
                        unreserved = open_host;
                      })
                      (find_slot-SlotFound 0 s.probe_table
                        (omega (arith, v.table.slots, u.int_range)))
                      slot)
            ]
          ]
        ]

    initiate_loop-ScanInv :
        (answers : List ConnectAnswers) (n : ℕ) (s : Scan) {s' : Scan}
        → ScanInv c s
        → initiate_loop c answers n s ≡ returns s'
        → ScanInv c s'
    unfolding initiate_loop
    initiate_loop-ScanInv [] n s v h = elim (Bool-cases (may_initiate c n s)) [
      | inl more ↦ absurd (pending-ne-returns (rw (more, initiate_loop) at h))
      | inr done ↦ subst (ScanInv c) (returns_injective _ _ (rw (done, initiate_loop) at h)) v
    ]
    initiate_loop-ScanInv (a ∷ rest) n s v h = elim (Bool-cases (may_initiate c n s)) [
      | inr done ↦ subst (ScanInv c) (returns_injective _ _ (rw (done, initiate_loop) at h)) v
      | inl more ↦
          let v' = single-ScanInv a s v (ground (arith, more)) in
          elim (Bool-cases ((initiate_single_connection c a s).0)) [
            | inr stop ↦
                subst (ScanInv c) (returns_injective _ _ (rw (more, stop, initiate_loop) at h)) v'
            | inl onward ↦ initiate_loop-ScanInv rest _ _ v' (rw (more, onward, initiate_loop) at h)
          ]
    ]

    -- When `initiate_connections` returns, the open sockets are still those of the active probes, and
    -- the rest of the invariant holds, whichever calls failed.
    pub initiate-ScanInv :
        (answers : List ConnectAnswers) (s : Scan) {s' : Scan}
        → ScanInv c s
        → initiate_connections c answers s ≡ returns s'
        → ScanInv c s'
    unfolding initiate_connections
    initiate-ScanInv answers s v h = initiate_loop-ScanInv answers 0 s v h
