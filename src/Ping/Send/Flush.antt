-- ===== src/Ping/Send/Flush.antt =====
-- `flush_send_queue`: what is kept on each way out, and what becomes of the entries not sent.
use netscan.Base.{
  Bool, Bool-cases, List, [], ap, arith, count_if, false, get_or, inl, inr, is_positive, ltb,
  ltb-false→le, ltb→lt, minus_one, negsuc, not, pos, pos_part, refl, subst, suc, sym, true, zero, ℕ,
  ℤ, ◌&&◌, ◌++◌, ◌+◌, ◌-◌, ◌<◌, ◌^◌, ◌∷◌, ◌≡◌, ◌≤◌, ◌⊎◌,
}
use netscan.Sys.{
  returns_injective, Outcome-cases, throws-ne-returns, pending-ne-returns, is_eagain, returns,
}
use netscan.Ping.State.{Setup, Table, Batch, Scan}
use netscan.Ping.Slots.{release_probe_slot}
use netscan.Ping.Slots.Release.{release-Shrinks}
use netscan.Ping.Socket.{wait_for_socket_writable}
use netscan.Ping.Send.{
  release_entries, give_up, all_sent, SendAnswer, count_drop, flush_loop, flush_send_queue,
}
use netscan.Ping.Table.{IsSetup, TableInv}
use netscan.Ping.Invariant.{ScanInv, Shrinks, Shrinks-refl, Shrinks-trans, shrink-ScanInv}

release_entries-Shrinks :
    (c : Setup) (n i : ℕ) (t : Table) (slots : List ℤ)
    → IsSetup c
    → TableInv c t
    → Shrinks c t (release_entries c n i t slots).0
unfolding release_entries
release_entries-Shrinks c zero i t slots u v = Shrinks-refl c t v
release_entries-Shrinks c (suc n) i t slots u v =
    let first = release-Shrinks c t (get_or slots i minus_one) u v in
    Shrinks-trans c t _ _ first (
      release_entries-Shrinks c n (i + 1) (release_probe_slot c t (get_or slots i minus_one)) _ u
        first.inv)

-- The position of the scan after giving up: the entries not sent, and no wrap-around.
pub give_up_position :
    (c : Setup) (sent : ℕ) (s : Scan)
    → s.batch.batch_count ≤ s.next_host_idx
    → s.next_host_idx < 2 ^ 64
    → (give_up c sent s).next_host_idx ≡ s.next_host_idx - (s.batch.batch_count - sent)
unfolding give_up
give_up_position c sent s le lt = omega arith

give_up-ScanInv :
    (c : Setup) (sent : ℕ) (s : Scan)
    → IsSetup c
    → ScanInv c s
    → s.batch.batch_count ≤ s.next_host_idx
    → ScanInv c (give_up c sent s)
unfolding give_up
give_up-ScanInv c sent s u v le =
    shrink-ScanInv c s (give_up c sent s) v
      (release_entries-Shrinks c _ sent s.table s.batch.send_probe_slots u v.table) refl refl
      (omega (arith, v.position, u.int_range))

-- `d` failed attempts counted in `tx_drops_`.
abbrev pub drops : ℕ → Scan → Scan
drops zero s = s
drops (suc d) s = drops d (count_drop s)

-- The packets that the calls have sent, and the attempts that found the socket full.
abbrev pub total_sent : List SendAnswer → ℕ
total_sent [] = 0
total_sent (a ∷ rest) = pos_part a.sent + total_sent rest

abbrev pub is_blocked : SendAnswer → Bool
is_blocked a = not (is_positive a.sent) && is_eagain a.errno

-- With `k` packets sent, after `d` attempts on a full socket: all is sent, or the entries from `k` on
-- are given up.
abbrev Way : Setup → Scan → ℕ → ℕ → Bool × Scan → Type 0
Way c s k d r =
    ((s.batch.batch_count ≤ k) × (r ≡ (true, all_sent (drops d s))))
    ⊎ ((k < s.batch.batch_count) × (r ≡ (false, give_up c k (drops d s))))

-- The calls that were made, and the way out that their answers lead to.
pub record Flushed (c : Setup) (answers : List SendAnswer) (sent : ℕ) (s : Scan) (r : Bool × Scan)
    : Type 0 where
  pub used : List SendAnswer
  pub rest : List SendAnswer
  pub split : answers ≡ used ++ rest
  pub way : Way c s (sent + total_sent used) (count_if is_blocked used) r

Flushed-more :
    (c : Setup) (a : SendAnswer) (answers : List SendAnswer) (sent : ℕ) (s : Scan) (r : Bool × Scan)
    → is_positive a.sent ≡ true
    → Flushed c answers (sent + pos_part a.sent) s r
    → Flushed c (a ∷ answers) sent s r
Flushed-more c a answers sent s r h w =
    let k : sent + pos_part a.sent + total_sent w.used ≡ sent + total_sent (a ∷ w.used) =
      omega arith in
    let d : count_if is_blocked w.used ≡ count_if is_blocked (a ∷ w.used) = ground (arith, h) in
    record {
      used = a ∷ w.used;
      rest = w.rest;
      split = ap (◌∷◌ a) w.split;
      way =
          subst (λ (n : ℕ). Way c s n (count_if is_blocked (a ∷ w.used)) r) k
            (subst (λ (n : ℕ). Way c s (sent + pos_part a.sent + total_sent w.used) n r) d w.way);
    }

none_sent : (z : ℤ) → is_positive z ≡ false → pos_part z ≡ 0
none_sent (pos n) h = ground arith
none_sent (negsuc n) h = refl

Flushed-blocked :
    (c : Setup) (a : SendAnswer) (answers : List SendAnswer) (sent : ℕ) (s : Scan) (r : Bool × Scan)
    → is_positive a.sent ≡ false
    → is_eagain a.errno ≡ true
    → Flushed c answers sent (count_drop s) r
    → Flushed c (a ∷ answers) sent s r
Flushed-blocked c a answers sent s r h b w =
    let k : sent + total_sent w.used ≡ sent + total_sent (a ∷ w.used) =
      omega (arith, none_sent a.sent h) in
    let d : suc (count_if is_blocked w.used) ≡ count_if is_blocked (a ∷ w.used) =
      ground (arith, h, b) in
    record {
      used = a ∷ w.used;
      rest = w.rest;
      split = ap (◌∷◌ a) w.split;
      way =
          subst (λ (n : ℕ). Way c s n (count_if is_blocked (a ∷ w.used)) r) k
            (subst (λ (n : ℕ). Way c s (sent + total_sent w.used) n r) d w.way);
    }

-- The loop leaves after its last call, which sent nothing.
Flushed-last :
    (c : Setup) (a : SendAnswer) (rest : List SendAnswer) (sent d : ℕ) (s : Scan) (r : Bool × Scan)
    → sent < s.batch.batch_count
    → is_positive a.sent ≡ false
    → count_if is_blocked (a ∷ []) ≡ d
    → (false, give_up c sent (drops d s)) ≡ r
    → Flushed c (a ∷ rest) sent s r
Flushed-last c a rest sent d s r lt h e q = record {
  used = a ∷ [];
  rest = rest;
  split = refl;
  way =
      let k : sent ≡ sent + total_sent (a ∷ []) = omega (arith, none_sent a.sent h) in
      subst (λ (n : ℕ). Way c s n (count_if is_blocked (a ∷ [])) r) k
        (subst (λ (n : ℕ). Way c s sent n r) (sym e) (inr (lt, sym q)));
}

Flushed-done :
    (c : Setup) (answers : List SendAnswer) (sent : ℕ) (s : Scan) (r : Bool × Scan)
    → s.batch.batch_count ≤ sent
    → (true, all_sent s) ≡ r
    → Flushed c answers sent s r
Flushed-done c answers sent s r le q = record {
  used = [];
  rest = answers;
  split = refl;
  way = inl (omega arith, sym q);
}

pub flush_loop-Flushed :
    (c : Setup) (answers : List SendAnswer) (sent : ℕ) (s : Scan) (r : Bool × Scan)
    → flush_loop c answers sent s ≡ returns r
    → Flushed c answers sent s r
unfolding flush_loop
flush_loop-Flushed c [] sent s r h = elim (Bool-cases (ltb sent s.batch.batch_count)) [
  | inl more ↦ absurd (ground (arith, more, h))
  | inr done ↦
      Flushed-done c [] sent s r (ltb-false→le _ _ done)
        (returns_injective _ _ (rw (done, flush_loop) at h))
]
flush_loop-Flushed c (a ∷ rest) sent s r h = elim (Bool-cases (ltb sent s.batch.batch_count)) [
  | inr done ↦
      Flushed-done c (a ∷ rest) sent s r (ltb-false→le _ _ done)
        (returns_injective _ _ (rw (done, flush_loop) at h))
  | inl more ↦ elim (Bool-cases (is_positive a.sent)) [
    | inl some_sent ↦ Flushed-more c a rest sent s r some_sent (
        flush_loop-Flushed c rest (sent + pos_part a.sent) s r
          (rw (more, some_sent, flush_loop) at h))
    | inr no_packet ↦ elim (Bool-cases (is_eagain a.errno)) [
      | inr refused ↦
          Flushed-last c a rest sent 0 s r (ltb→lt _ _ more) no_packet
            (ground (arith, refused, no_packet))
            (returns_injective _ _ (rw (more, no_packet, refused, flush_loop) at h))
      | inl busy ↦ elim (Outcome-cases (wait_for_socket_writable a.wait)) [
        | inr (inl (x, thrown)) ↦
            absurd (throws-ne-returns (rw (more, no_packet, busy, thrown, flush_loop) at h))
        | inr (inr waits) ↦
            absurd (pending-ne-returns (rw (more, no_packet, busy, waits, flush_loop) at h))
        | inl (true, writable) ↦ Flushed-blocked c a rest sent s r no_packet busy (
            flush_loop-Flushed c rest sent (count_drop s) r
              (rw (more, no_packet, busy, writable, flush_loop) at h))
        | inl (false, blocked) ↦
            Flushed-last c a rest sent 1 s r (ltb→lt _ _ more) no_packet
              (ground (arith, busy, no_packet))
              (returns_injective _ _ (rw (more, no_packet, busy, blocked, flush_loop) at h))
      ]
    ]
  ]
]

pub drops_fields :
    (d : ℕ) (s : Scan)
    → ((drops d s).table ≡ s.table)
      × ((drops d s).finds ≡ s.finds)
      × ((drops d s).batch ≡ s.batch)
      × ((drops d s).next_seq ≡ s.next_seq)
      × ((drops d s).next_host_idx ≡ s.next_host_idx)
drops_fields zero s = (refl, refl, refl, refl, refl)
drops_fields (suc d) s = drops_fields d (count_drop s)

drops-ScanInv : (c : Setup) (d : ℕ) (s : Scan) → ScanInv c s → ScanInv c (drops d s)
drops-ScanInv c d s v =
    let (t, f, _, q, n) = drops_fields d s in
    shrink-ScanInv c s (drops d s) v
      (subst (Shrinks c s.table) (sym t) (Shrinks-refl c s.table v.table)) f q
      (omega (arith, n, v.position))

all_sent-ScanInv : (c : Setup) (s : Scan) → ScanInv c s → ScanInv c (all_sent s)
unfolding all_sent
all_sent-ScanInv c s v =
    shrink-ScanInv c s (all_sent s) v (Shrinks-refl c s.table v.table) refl refl v.position

-- Every way out of the flush keeps the invariant.
pub flush-ScanInv :
    (c : Setup) (answers : List SendAnswer) (s : Scan) {r : Bool × Scan}
    → IsSetup c
    → ScanInv c s
    → s.batch.batch_count ≤ s.next_host_idx
    → flush_send_queue c answers s ≡ returns r
    → ScanInv c r.1
unfolding flush_send_queue
flush-ScanInv c answers s {r} u v le h =
    let w = flush_loop-Flushed c answers 0 s r h in
    let d = count_if is_blocked w.used in
    let k = 0 + total_sent w.used in
    elim w.way [
      | inl (_, e) ↦
          subst (ScanInv c) (sym (ap (λ (x : Bool × Scan). x.1) e))
            (all_sent-ScanInv c (drops d s) (drops-ScanInv c d s v))
      | inr (_, e) ↦
          let (_, _, b, _, n) = drops_fields d s in
          subst (ScanInv c) (sym (ap (λ (x : Bool × Scan). x.1) e)) (
            give_up-ScanInv c k (drops d s) u (drops-ScanInv c d s v)
              (omega (arith, n, ap (λ (x : Batch). x.batch_count) b)))
    ]
