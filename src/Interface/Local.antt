-- ===== src/Interface/Local.antt =====
-- What `is_local` means.
use Prim.Native.Nat.{bit_and, bit_and-bitwise, bit_or, bit_or-bitwise, digits}
use mathlib.Core.List.{Memᴰ}
use netscan.Base.{
  ==_iff, Bool-cases, Bytes, List, Option, [], ap, arith, eqb_ℤ, eqb_ℤ_iff, false, inl, inr, is_neg,
  leb, max, min, minus_one, pos, refl, subst, suc, sym, true, zero, ℕ, ℤ, ◌%◌, ◌&&◌, ◌*◌, ◌++◌, ◌+◌,
  ◌-◌, ◌/◌, ◌<◌, ◌^◌, ◌↔◌, ◌∷◌, ◌≡◌, ◌≢◌, ◌≤◌,
}
use netscan.Base.{Bytes}
use netscan.Utils.{NetworkInterface}
use netscan.Interface.{
  IfAddr, no_interface, FetchAnswers, is_candidate, target_end, describe, select, fetch, complement,
}

-- Some address lies in the range of the scan and in the network.
abbrev pub Overlap : ℕ → ℕ → ℕ → ℕ → Type 0
Overlap base total network broadcast =
    (x : ℕ) × (base ≤ x) × (x < base + total) × (network ≤ x) × (x ≤ broadcast)

below : (r d q l t : ℕ) → r ≤ q → d ≤ l → q * 2 + l ≡ t → r * 2 + d ≤ t
below r d q l t h k e = omega arith

above : (r d q l t : ℕ) → q ≤ r → l ≤ d → q * 2 + l ≡ t → t ≤ r * 2 + d
above r d q l t h k e = omega arith

and_digits_le : (n a b : ℕ) → a ≤ n → digits (λ b. zero) min n a b ≤ a
and_digits_le zero a b h = omega arith
and_digits_le (suc n) zero b h = omega arith
and_digits_le (suc n) (suc a) b h =
    below (digits (λ b. zero) min n (suc a / 2) (b / 2)) (min (suc a % 2) (b % 2)) (suc a / 2)
      (suc a % 2) (suc a) (and_digits_le n (suc a / 2) (b / 2) (omega arith)) (omega arith)
      (omega arith)

or_digits_ge : (n a b : ℕ) → a ≤ n → a ≤ digits (λ b. b) max n a b
or_digits_ge zero a b h = omega arith
or_digits_ge (suc n) zero b h = omega arith
or_digits_ge (suc n) (suc a) b h =
    above (digits (λ b. b) max n (suc a / 2) (b / 2)) (max (suc a % 2) (b % 2)) (suc a / 2)
      (suc a % 2) (suc a) (or_digits_ge n (suc a / 2) (b / 2) (omega arith)) (omega arith)
      (omega arith)

bit_and_le : (a b : ℕ) → bit_and a b ≤ a
bit_and_le a b =
    subst (λ (n : ℕ). n ≤ a) (sym (λ i. bit_and-bitwise a b i)) (and_digits_le a a b (omega arith))

bit_or_ge : (a b : ℕ) → a ≤ bit_or a b
bit_or_ge a b =
    subst (λ (n : ℕ). a ≤ n) (sym (λ i. bit_or-bitwise a b i)) (or_digits_ge a a b (omega arith))

-- Two ranges that are not empty meet when neither ends before the other begins.
meets :
    (base total network broadcast : ℕ)
    → 0 < total
    → base + total ≤ 2 ^ 32
    → network ≤ broadcast
    → ((leb base broadcast && leb network (target_end base total)) ≡ true)
      ↔ Overlap base total network broadcast
unfolding target_end
meets base total network broadcast some_hosts fits le = (
  λ h. (max base network, omega arith, ground (arith, h), omega arith, ground (arith, h)),
  λ (x, a, b, c, d). ground (arith, a, b, c, d),
)

-- An IPv4 entry with a netmask, that is up, can broadcast, is not the loopback, and has the address.
pub record Serves (local_ip : ℕ) (a : IfAddr) : Type 0 where
  pub has_addr : a.has_addr ≡ true
  pub has_netmask : a.has_netmask ≡ true
  pub is_inet : a.is_inet ≡ true
  pub is_up : a.is_up ≡ true
  pub no_loopback : a.is_loopback ≡ false
  pub is_broadcast : a.is_broadcast ≡ true
  pub address : a.address ≡ local_ip

is_candidate-Serves :
    (local_ip : ℕ) (a : IfAddr) → is_candidate local_ip a ≡ true → Serves local_ip a
unfolding is_candidate
is_candidate-Serves local_ip a h = record {
  has_addr = ground (arith, h);
  has_netmask = ground (arith, h);
  is_inet = ground (arith, h);
  is_up = ground (arith, h);
  no_loopback = ground (arith, h);
  is_broadcast = ground (arith, h);
  address = ground (arith, h);
}

Serves-is_candidate :
    (local_ip : ℕ) (a : IfAddr) → Serves local_ip a → is_candidate local_ip a ≡ true
unfolding is_candidate
Serves-is_candidate local_ip a v =
    simp (v.has_addr, v.has_netmask, v.is_inet, v.is_up, v.no_loopback, v.is_broadcast)
      ((==_iff a.address local_ip).1 v.address)

not-Serves : (local_ip : ℕ) (a : IfAddr) → is_candidate local_ip a ≡ false → ¬ Serves local_ip a
not-Serves local_ip a h v = ground (arith, h, Serves-is_candidate local_ip a v)

-- One of the system calls failed.
pub data Failed (x : FetchAnswers) : Type 0 where
  at_socket : is_neg x.socket.value ≡ true → Failed x
  at_connect : x.connect.value ≢ pos 0 → Failed x
  at_getsockname : x.getsockname.value ≢ pos 0 → Failed x
  at_getifaddrs : x.getifaddrs.value ≡ minus_one → Failed x

-- The network of entry `a`, and the meaning of `is_local` for it.
pub record Described (base total : ℕ) (a : IfAddr) (s : NetworkInterface) : Type 0 where
  pub network : s.network_ip ≡ bit_and a.address a.netmask
  pub broadcast : s.broadcast_ip ≡ bit_or a.address (2 ^ 32 - 1 - a.netmask)
  pub inside : (s.network_ip ≤ a.address) × (a.address ≤ s.broadcast_ip)
  pub overlap : (s.is_local ≡ true) ↔ Overlap base total s.network_ip s.broadcast_ip

-- The first entry that serves is described; without one, the interface is empty.
pub data Selected (base total local_ip : ℕ) (addrs : List IfAddr) (s : NetworkInterface)
    : Type 0 where
  absent :
      ((a : IfAddr) → Memᴰ a addrs → ¬ Serves local_ip a)
      → s ≡ no_interface.scanned
      → Selected base total local_ip addrs s
  found :
      (before after : List IfAddr) (a : IfAddr)
      → addrs ≡ before ++ (a ∷ after)
      → ((b : IfAddr) → Memᴰ b before → ¬ Serves local_ip b)
      → Serves local_ip a
      → Described base total a s
      → Selected base total local_ip addrs s

-- An empty interface after a failed call, else what the entries give.
pub data Fetched (base total : ℕ) (x : FetchAnswers) (s : NetworkInterface) : Type 0 where
  failed : Failed x → s ≡ no_interface.scanned → Fetched base total x s
  selected : ¬ Failed x → Selected base total x.local_ip x.addrs s → Fetched base total x s

neither :
    (local_ip : ℕ) (a : IfAddr) (rest : List IfAddr)
    → ¬ Serves local_ip a
    → ((b : IfAddr) → Memᴰ b rest → ¬ Serves local_ip b)
    → (b : IfAddr) → Memᴰ b (a ∷ rest)
    → ¬ Serves local_ip b
neither local_ip a rest h k b (Memᴰ.head e) = subst (λ (x : IfAddr). ¬ Serves local_ip x) (sym e) h
neither local_ip a rest h k b (Memᴰ.tail m) = k b m

none_before : (local_ip : ℕ) (b : IfAddr) → Memᴰ b [] → ¬ Serves local_ip b
none_before local_ip b m = elim m [ ]

module _ (inet_ntop : Bytes → Option Bytes) (base total : ℕ) (some_hosts : 0 < total)
    (fits : base + total ≤ 2 ^ 32) where
  describe-Described :
      (a : IfAddr)
      → Described base total a (describe inet_ntop base (target_end base total) a).scanned
  unfolding describe
  describe-Described a =
      let lo = bit_and_le a.address a.netmask in
      let hi = bit_or_ge a.address (complement a.netmask) in
      record {
        network = refl;
        broadcast = refl;
        inside = (lo, hi);
        overlap = meets base total _ _ some_hosts fits (omega (arith, lo, hi));
      }

  later :
      (local_ip : ℕ) (a : IfAddr) (rest : List IfAddr) (s : NetworkInterface)
      → ¬ Serves local_ip a
      → Selected base total local_ip rest s
      → Selected base total local_ip (a ∷ rest) s
  later local_ip a rest s h (absent k e) = absent (neither local_ip a rest h k) e
  later local_ip a rest s h (found before after b e k v d) =
      found (a ∷ before) after b (ap (◌∷◌ a) e) (neither local_ip a before h k) v d

  select-Selected :
      (local_ip : ℕ) (addrs : List IfAddr)
      → Selected base total local_ip addrs
          (select inet_ntop local_ip base (target_end base total) addrs).scanned
  unfolding select
  select-Selected local_ip [] = absent (none_before local_ip) refl
  select-Selected local_ip (a ∷ rest) = elim (Bool-cases (is_candidate local_ip a)) [
    | inl e ↦
        rw (e, select)
          (found [] rest a refl (none_before local_ip) (is_candidate-Serves local_ip a e)
            (describe-Described a))
    | inr e ↦
        rw (e, select)
          (later local_ip a rest _ (not-Serves local_ip a e) (select-Selected local_ip rest))
  ]

  -- For a range that is not empty and does not pass the last address: after a failed system call
  -- `fetch` finds nothing. Else it returns the network of the first entry that is an IPv4 interface
  -- with the local address, up, able to broadcast and not the loopback, or finds nothing when there
  -- is none. The network is the address under the mask, the broadcast address has all host bits set,
  -- and `is_local` holds exactly when the range and the network share an address.
  pub fetch-Fetched :
      (x : FetchAnswers) → Fetched base total x (fetch inet_ntop x base total).scanned
  unfolding fetch
  fetch-Fetched x = elim (Bool-cases (is_neg x.socket.value)) [
    | inl e ↦ rw (e, fetch) (failed (at_socket e) refl)
    | inr e ↦ elim (Bool-cases (eqb_ℤ x.connect.value (pos 0))) [
      | inr f ↦ rw (e, fetch, f) (failed (at_connect (unequal f)) refl)
      | inl f ↦ elim (Bool-cases (eqb_ℤ x.getsockname.value (pos 0))) [
        | inr g ↦ rw (e, fetch, f, g) (failed (at_getsockname (unequal g)) refl)
        | inl g ↦ elim (Bool-cases (eqb_ℤ x.getifaddrs.value minus_one)) [
          | inl h ↦
              rw (e, fetch, f, g, h)
                (failed (at_getifaddrs ((eqb_ℤ_iff x.getifaddrs.value minus_one).0 h)) refl)
          | inr h ↦
              rw (e, fetch, f, g, h)
                (selected (well x e ((eqb_ℤ_iff _ _).0 f) ((eqb_ℤ_iff _ _).0 g) (unequal h))
                  (select-Selected x.local_ip x.addrs))
        ]
      ]
    ]
  ]
    where
      unequal : {a b : ℤ} → eqb_ℤ a b ≡ false → a ≢ b
      unequal {a} {b} n q = ground (arith, n, (eqb_ℤ_iff a b).1 q)

      well :
          (x : FetchAnswers)
          → is_neg x.socket.value ≡ false
          → x.connect.value ≡ pos 0
          → x.getsockname.value ≡ pos 0
          → x.getifaddrs.value ≢ minus_one
          → ¬ Failed x
      well x a b d e (at_socket h) = ground (arith, a, h)
      well x a b d e (at_connect h) = h b
      well x a b d e (at_getsockname h) = h d
      well x a b d e (at_getifaddrs h) = e h
