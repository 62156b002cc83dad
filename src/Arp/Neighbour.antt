-- ===== src/Arp/Neighbour.antt =====
-- The entries of the table are neighbours (parse_netlink_message of src/arp_table.cpp).
use mathlib.Core.List.{flat_map}
use netscan.Base.{
  Bool-cases, Bytes, List, [], arith, false, inl, inr, leb, or_eq_false, subst, sym, ℕ, ◌%◌, ◌&&◌,
  ◌++◌, ◌-◌, ◌/◌, ◌<◌, ◌==◌, ◌^◌, ◌∷◌, ◌≡◌, ◌≢◌, ◌⊎◌,
}
use netscan.Sys.{returns}
use netscan.Text.{eq_bytes_iff}
use netscan.Arp.{
  ArpEntry, Attr, nda_dst, nda_lladdr, Message, MessageType, ArpState, ArpAnswers, get_arp_table,
  rtm_newneigh, zero_mac, is_unresolved, is_group, make_entry, nlmsg_done, nlmsg_error, other,
}
use netscan.Arp.Listed.{listed, before_end, get_arp_table-listed, dump_of, neighbour, entry_of}

-- An address that is not 0, multicast or broadcast, with a link-layer address that is not 0.
pub record IsNeighbour (e : ArpEntry) : Type 0 where
  pub nonzero : 0 < e.ip
  pub unicast : (e.ip / 2 ^ 24 % 256 < 224) ⊎ (239 < e.ip / 2 ^ 24 % 256)
  pub not_broadcast : e.ip ≢ 2 ^ 32 - 1
  pub resolved : e.mac_address ≢ zero_mac

abbrev pub All {ℓ κ} : {A : Type ℓ} → (A → Type κ) → List A → Type κ
All P [] = Unit
All P (x ∷ xs) = P x × All P xs

All-append {ℓ κ} :
    {A : Type ℓ} (P : A → Type κ) (xs ys : List A) → All P xs → All P ys → All P (xs ++ ys)
All-append P [] ys hx hy = hy
All-append P (x ∷ xs) ys hx hy = (hx.0, All-append P xs ys hx.1 hy)

unicast_of :
    (ip : ℕ)
    → (leb 224 (ip / 2 ^ 24 % 256) && leb (ip / 2 ^ 24 % 256) 239) ≡ false
    → (ip / 2 ^ 24 % 256 < 224) ⊎ (239 < ip / 2 ^ 24 % 256)
unicast_of ip h = elim (Bool-cases (leb 224 (ip / 2 ^ 24 % 256))) [
  | inr low ↦ inl (ground (arith, low))
  | inl high ↦ inr (ground (arith, h, high))
]

accepted-IsNeighbour :
    (m : Message) (ip : ℕ) (mac : Bytes)
    → (ip == 0) ≡ false
    → is_unresolved m mac ≡ false
    → is_group ip ≡ false
    → IsNeighbour (make_entry m ip mac)
unfolding is_unresolved is_group
accepted-IsNeighbour m ip mac e f g = record {
  nonzero = ground (arith, e);
  unicast = unicast_of ip (or_eq_false _ _ g).0;
  not_broadcast = λ h. ground (arith, g, h);
  resolved = λ h. absurd (ground (arith, f, (eq_bytes_iff mac zero_mac).1 h));
}

neighbour-IsNeighbour : (m : Message) (r : ℕ × Bytes) → All IsNeighbour (neighbour m r)
neighbour-IsNeighbour m (ip, mac) = elim (Bool-cases (ip == 0)) [
  | inl e ↦ simp e tt
  | inr e ↦ elim (Bool-cases (is_unresolved m mac)) [
    | inl f ↦ simp (e, f) tt
    | inr f ↦ elim (Bool-cases (is_group ip)) [
      | inl g ↦ simp (e, f, g) tt
      | inr g ↦ simp (e, f, g) (accepted-IsNeighbour m ip mac e f g, tt)
    ]
  ]
]

entry_of-IsNeighbour : (k : MessageType) (m : Message) → All IsNeighbour (entry_of k m)
entry_of-IsNeighbour nlmsg_done m = tt
entry_of-IsNeighbour nlmsg_error m = tt
entry_of-IsNeighbour other m = tt
entry_of-IsNeighbour rtm_newneigh m = elim (Bool-cases m.is_inet) [
  | inl e ↦ simp e (neighbour-IsNeighbour m _)
  | inr e ↦ simp e tt
]

listed-IsNeighbour : (ms : List Message) → All IsNeighbour (flat_map listed ms)
unfolding flat_map
listed-IsNeighbour [] = tt
listed-IsNeighbour (m ∷ ms) =
    All-append IsNeighbour (listed m) (flat_map listed ms) (entry_of-IsNeighbour m.nlmsg_type m)
      (listed-IsNeighbour ms)

-- Every entry that `get_arp_table` returns has an address that is not 0, not multicast and not
-- broadcast, and a link-layer address that is not 0.
pub get_arp_table-IsNeighbour :
    (x : ArpAnswers) {t : ArpState} → get_arp_table x ≡ returns t → All IsNeighbour t.entries
get_arp_table-IsNeighbour x h =
    subst (All IsNeighbour) (sym (get_arp_table-listed x h))
      (listed-IsNeighbour (before_end (dump_of x)))

-- The two attributes of a neighbour, each followed by whatever the buffer holds.
abbrev pub neighbour_attributes : Bytes → Bytes → Bytes → Bytes → List Attr
neighbour_attributes address rest mac rest' =
    record { rta_type = nda_dst; rta_payload = 4; rta_data = address ++ rest }
    ∷ record { rta_type = nda_lladdr; rta_payload = 6; rta_data = mac ++ rest' }
    ∷ []
