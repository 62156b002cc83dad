-- ===== src/Tcp/Refines/Connects.antt =====
-- `initiate_connections` as steps of the specification.
use netscan.Base.{
  Bool, Bool-cases, List, [], ap, arith, count_if, count_if-set, eqb_ℤ, false, get_elem?, inl, inr,
  is_neg, minus_one, pos_part, refl, set, some, subst, sym, to_ℕ, true, ℕ, ℤ, ◌&&◌, ◌+◌, ◌<◌, ◌==◌,
  ◌∷◌, ◌≡◌,
}
use netscan.Sys.{returns, returns_injective, pending-ne-returns}
use netscan.Utils.{add32}
use netscan.Tcp.State.{ProbeInfo, Setup, Scan}
use netscan.Tcp.Connect.{
  ConnectAnswers, is_reserved, find_slot, connect_slot, is_refused, advance, may_initiate,
  initiate_single_connection, initiate_loop, initiate_connections,
}
use netscan.Tcp.Invariant.{IsSetup, ScanInv}
use netscan.Tcp.Initiate.{single-ScanInv}
use netscan.Tcp.Spec.{Progress, pass, launch, after}
use netscan.Tcp.Table.{SlotFound, free, full, find_slot-SlotFound}
use netscan.Tcp.Refines.{Tracks, probes_ip}

module _ (c : Setup) (Open : ℕ → Type 0) (origin : Progress) (u : IsSetup c) where
  advance-Tracks :
      (s : Scan)
      → Tracks c Open origin s
      → s.next_host_idx < c.total_hosts
      → Tracks c Open origin (advance s)
  advance-Tracks s t lt = record {
    sound = t.sound;
    progress = record (t.progress) { next = s.next_host_idx + 1 };
    reached =
        after t.reached
          (pass (omega (arith, t.same_next)) (omega (arith, t.same_next)) (λ ip. refl) refl);
    same_next = refl;
    same_live = t.same_live;
    same_found = t.same_found;
    told = t.told;
  }

  connect_slot-Tracks :
      (a : ConnectAnswers) (slot : ℕ) (s : Scan) (p : ProbeInfo)
      → Tracks c Open origin s
      → s.next_host_idx < c.total_hosts
      → get_elem? s.probe_table slot ≡ some p
      → p.active ≡ false
      → is_reserved c (c.base_ip + s.next_host_idx) ≡ false
      → Tracks c Open origin (connect_slot a slot (c.base_ip + s.next_host_idx) (advance s))
  unfolding connect_slot
  connect_slot-Tracks a slot s p t lt e i open_host = elim (Bool-cases (is_refused a)) [
    | inl refused ↦
        let t' = advance-Tracks s t lt in
        rw (refused, connect_slot)
          (record {
            sound = t'.sound;
            progress = t'.progress;
            reached = t'.reached;
            same_next = t'.same_next;
            same_live = t'.same_live;
            same_found = t'.same_found;
            told = t'.told;
          })
    | inr fine ↦
        let q : ProbeInfo = record {
          active = true;
          sock = a.socket.value;
          dest_ip = c.base_ip + s.next_host_idx;
          send_time = a.now;
        } in
        rw (fine, connect_slot)
          (record {
            sound = t.sound;
            progress = record (t.progress) {
              next = s.next_host_idx + 1;
              live = λ ip. count_if (probes_ip ip) (set s.probe_table slot q);
            };
            reached = after t.reached (
                launch (omega (arith, t.same_next))
                  (subst (λ (n : ℕ). is_reserved c (c.base_ip + n) ≡ false) (sym t.same_next)
                    open_host)
                  (omega (arith, t.same_next)) (λ ip. launched ip q refl refl) refl);
            same_next = refl;
            same_live = λ ip. refl;
            same_found = t.same_found;
            told = t.told;
          })
  ]
    where
      launched :
          (ip : ℕ) (q : ProbeInfo)
          → q.active ≡ true
          → q.dest_ip ≡ c.base_ip + s.next_host_idx
          → count_if (probes_ip ip) (set s.probe_table slot q)
            ≡ t.progress.live ip + to_ℕ (c.base_ip + t.progress.next == ip)
      launched ip q a d = omega (
        arith,
        count_if-set (probes_ip ip) s.probe_table slot q e,
        t.same_live ip,
        ap (λ (b : Bool). to_ℕ (b && p.dest_ip == ip)) i,
        ap (λ (b : Bool). to_ℕ (b && q.dest_ip == ip)) a,
        ap (λ (n : ℕ). to_ℕ (n == ip)) d,
        ap (λ (n : ℕ). to_ℕ (c.base_ip + n == ip)) t.same_next,
      )

  at_slot-Tracks :
      (a : ConnectAnswers) (s : Scan) {z : ℤ}
      → Tracks c Open origin s
      → s.next_host_idx < c.total_hosts
      → is_reserved c (c.base_ip + s.next_host_idx) ≡ false
      → SlotFound 0 s.probe_table z
      → eqb_ℤ z minus_one ≡ false
      → Tracks c Open origin (connect_slot a (pos_part z) (c.base_ip + s.next_host_idx) (advance s))
  at_slot-Tracks a s t lt open_host (free k p e i) n =
      let same : k ≡ 0 + k = omega arith in
      connect_slot-Tracks a (0 + k) s p t lt
        (subst (λ (j : ℕ). get_elem? s.probe_table j ≡ some p) same e) i open_host
  at_slot-Tracks a s t lt open_host (full e) n = absurd (ground (arith, n))

  single-Tracks :
      (a : ConnectAnswers) (s : Scan)
      → ScanInv c s
      → Tracks c Open origin s
      → s.next_host_idx < c.total_hosts
      → Tracks c Open origin (initiate_single_connection c a s).1
  unfolding initiate_single_connection
  single-Tracks a s v t lt =
      let target : add32 c.base_ip s.next_host_idx ≡ c.base_ip + s.next_host_idx =
        omega (arith, u.in_range) in
      elim (Bool-cases (is_reserved c (c.base_ip + s.next_host_idx))) [
        | inl skipped ↦ rw (target, skipped, initiate_single_connection) (advance-Tracks s t lt)
        | inr open_host ↦ elim (Bool-cases (eqb_ℤ (find_slot 0 s.probe_table) minus_one)) [
          | inl no_slot ↦ rw (target, open_host, initiate_single_connection, no_slot) t
          | inr slot ↦ elim (Bool-cases (is_neg a.socket.value)) [
            | inl failed ↦
                rw (target, open_host, initiate_single_connection, slot, failed)
                  (advance-Tracks s t lt)
            | inr valid ↦
                rw (target, open_host, initiate_single_connection, slot, valid)
                  (at_slot-Tracks a s t lt open_host
                    (find_slot-SlotFound 0 s.probe_table
                      (omega (arith, v.table.slots, u.int_range)))
                    slot)
          ]
        ]
      ]

  initiate_loop-Tracks :
      (answers : List ConnectAnswers) (n : ℕ) (s : Scan) {s' : Scan}
      → ScanInv c s
      → Tracks c Open origin s
      → initiate_loop c answers n s ≡ returns s'
      → Tracks c Open origin s'
  unfolding initiate_loop
  initiate_loop-Tracks [] n s v t h = elim (Bool-cases (may_initiate c n s)) [
    | inl more ↦ absurd (pending-ne-returns (rw (more, initiate_loop) at h))
    | inr done ↦
        subst (Tracks c Open origin) (returns_injective _ _ (rw (done, initiate_loop) at h)) t
  ]
  initiate_loop-Tracks (a ∷ rest) n s v t h = elim (Bool-cases (may_initiate c n s)) [
    | inr done ↦
        subst (Tracks c Open origin) (returns_injective _ _ (rw (done, initiate_loop) at h)) t
    | inl more ↦
        let lt : s.next_host_idx < c.total_hosts = ground (arith, more) in
        let t' = single-Tracks a s v t lt in
        elim (Bool-cases ((initiate_single_connection c a s).0)) [
          | inr stop ↦
              subst (Tracks c Open origin)
                (returns_injective _ _ (rw (more, stop, initiate_loop) at h)) t'
          | inl onward ↦
              initiate_loop-Tracks rest _ _ (single-ScanInv c u a s v lt) t'
                (rw (more, onward, initiate_loop) at h)
        ]
  ]

  pub initiate-Tracks :
      (answers : List ConnectAnswers) (s : Scan) {s' : Scan}
      → ScanInv c s
      → Tracks c Open origin s
      → initiate_connections c answers s ≡ returns s'
      → Tracks c Open origin s'
  unfolding initiate_connections
  initiate-Tracks answers s v t h = initiate_loop-Tracks answers 0 s v t h
