-- ===== src/Tcp/Table.antt =====
-- The two changes of the probe table: a socket is opened for a free slot, and the socket of an active
-- probe is closed.
use netscan.Base.{
  Bool, Bool-cases, List, [], ap, arith, count_if, count_if-set, eqb_ℤ, eqb_ℤ_iff, false, get_elem?,
  get_elem?-set_cases, inl, inr, is_neg, length, length-set, minus_one, pos, refl, set, some, subst,
  suc, sym, to_int_small, to_ℕ, true, ℕ, ℤ, ◌&&◌, ◌+◌, ◌<◌, ◌^◌, ◌∙◌, ◌∷◌, ◌≡◌, ◌≤◌,
}
use netscan.Ping.Socket.{close_fd}
use netscan.Utils.{dec_size}
use netscan.Tcp.State.{ProbeInfo, no_probe, Setup}
use netscan.Tcp.Connect.{find_slot}
use netscan.Tcp.Invariant.{IsTarget, TableInv, is_active, holds, count_fd}

pub count_fd-close_fd :
    (fd x : ℤ) (xs : List ℤ)
    → 0 < count_fd x xs
    → count_fd fd (close_fd x xs) + to_ℕ (eqb_ℤ x fd) ≡ count_fd fd xs
unfolding close_fd
count_fd-close_fd fd x [] h = absurd (omega arith)
count_fd-close_fd fd x (y ∷ ys) h = elim (Bool-cases (eqb_ℤ y x)) [
  | inl e ↦ rw (e, (eqb_ℤ_iff y x).0 e) (omega arith)
  | inr e ↦ rw e (omega (arith, count_fd-close_fd fd x ys (omega (arith, h, ap to_ℕ e))))
]

pub holds_active :
    (fd : ℤ) (p : ProbeInfo) → p.active ≡ true → to_ℕ (holds fd p) ≡ to_ℕ (eqb_ℤ p.sock fd)
holds_active fd p a = ap (λ (b : Bool). to_ℕ (b && eqb_ℤ p.sock fd)) a

pub holds_idle : (fd : ℤ) (p : ProbeInfo) → p.active ≡ false → to_ℕ (holds fd p) ≡ 0
holds_idle fd p i = ap (λ (b : Bool). to_ℕ (b && eqb_ℤ p.sock fd)) i

-- The socket of an active probe is open.
is_open :
    (c : Setup) (ps : List ProbeInfo) (n : ℕ) (opened : List ℤ) (slot : ℕ) (p : ProbeInfo)
    → TableInv c ps n opened
    → get_elem? ps slot ≡ some p
    → p.active ≡ true
    → 0 < count_fd p.sock opened
is_open c ps n opened slot p v e a = omega (
  arith,
  v.owned p.sock,
  count_if-set (holds p.sock) ps slot no_probe e,
  holds_active p.sock p a,
  ap to_ℕ ((eqb_ℤ_iff p.sock p.sock).1 refl),
)

pub closed-TableInv :
    (c : Setup) (ps : List ProbeInfo) (n : ℕ) (opened : List ℤ) (slot : ℕ) (p : ProbeInfo)
    → TableInv c ps n opened
    → get_elem? ps slot ≡ some p
    → p.active ≡ true
    → TableInv c (set ps slot (record p { active = false })) (dec_size n) (close_fd p.sock opened)
closed-TableInv c ps n opened slot p v e a =
    let q : ProbeInfo = record p { active = false } in
    record {
      slots = length-set ps slot q ∙ v.slots;
      counted = ground (arith, v.counted, count_if-set is_active ps slot q e, ap to_ℕ a);
      owned = λ fd. omega (
        arith,
        count_fd-close_fd fd p.sock opened (is_open c ps n opened slot p v e a),
        v.owned fd,
        count_if-set (holds fd) ps slot q e,
        holds_active fd p a,
      );
      probes = λ j r f b. elim (get_elem?-set_cases ps slot j q f) [
        | inl (_, g) ↦ absurd (ground (arith, g, b))
        | inr (_, g) ↦ v.probes j r g b
      ];
    }

pub opened-TableInv :
    (c : Setup) (ps : List ProbeInfo) (n : ℕ) (opened : List ℤ) (slot : ℕ) (p q : ProbeInfo)
    → TableInv c ps n opened
    → get_elem? ps slot ≡ some p
    → p.active ≡ false
    → q.active ≡ true
    → is_neg q.sock ≡ false
    → IsTarget c q.dest_ip
    → TableInv c (set ps slot q) (n + 1) (q.sock ∷ opened)
opened-TableInv c ps n opened slot p q v e i a valid target = record {
  slots = length-set ps slot q ∙ v.slots;
  counted = omega (arith, v.counted, count_if-set is_active ps slot q e, ap to_ℕ a, ap to_ℕ i);
  owned = λ fd. omega (
    arith,
    v.owned fd,
    count_if-set (holds fd) ps slot q e,
    holds_idle fd p i,
    holds_active fd q a,
  );
  probes = λ j r f b. elim (get_elem?-set_cases ps slot j q f) [
    | inl (_, g) ↦
        subst (λ (x : ProbeInfo). (is_neg x.sock ≡ false) × IsTarget c x.dest_ip) (sym g)
          (valid, target)
    | inr (_, g) ↦ v.probes j r g b
  ];
}

-- `find_slot` finds a slot that is not active, if there is one.
pub data SlotFound (i : ℕ) (ps : List ProbeInfo) : ℤ → Type 0 where
  free :
      (k : ℕ) (p : ProbeInfo)
      → get_elem? ps k ≡ some p
      → p.active ≡ false
      → SlotFound i ps (pos (i + k))
  full : count_if is_active ps ≡ length ps → SlotFound i ps minus_one

shift :
    (i : ℕ) (p : ProbeInfo) (ps : List ProbeInfo) {z : ℤ}
    → p.active ≡ true
    → SlotFound (i + 1) ps z
    → SlotFound i (p ∷ ps) z
shift i p ps a (free k q e idle) =
    let e' : i + 1 + k ≡ i + suc k = omega arith in
    subst (λ (n : ℕ). SlotFound i (p ∷ ps) (pos n)) (sym e') (free (suc k) q e idle)
shift i p ps a (full e) = full (rw a (omega arith))

pub find_slot-SlotFound :
    (i : ℕ) (ps : List ProbeInfo) → i + length ps ≤ 2 ^ 31 → SlotFound i ps (find_slot i ps)
unfolding find_slot
find_slot-SlotFound i [] h = full refl
find_slot-SlotFound i (p ∷ ps) h = elim (Bool-cases p.active) [
  | inl a ↦ simp a (shift i p ps a (find_slot-SlotFound (i + 1) ps (omega arith)))
  | inr a ↦
      simp (a, to_int_small i (omega arith))
        (let e : i ≡ i + 0 = omega arith in
          subst (λ (n : ℕ). SlotFound i (p ∷ ps) (pos n)) (sym e) (free 0 p refl a))
]
