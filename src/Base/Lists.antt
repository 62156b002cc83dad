-- ===== src/Base/Lists.antt =====
-- Lists measured and indexed by native numbers, under the library's names.
use Prim.Native.Nat.{ℕ, zero, suc, ◌+◌, ◌-◌, ◌≤◌, ◌<◌, min}
use mathlib.Core.Path.{◌≡◌, refl, ap}
use mathlib.Core.Logic.{◌≢◌, ◌⊎◌, inl, inr}
use mathlib.Core.Bool.{Bool, false}
use mathlib.Core.List.{List, [], ◌∷◌, ◌++◌}
use mathlib.Core.Option.{Option, none, some}
use native.Mathlib.Omega.{arith}
use netscan.Base.Tests.{to_ℕ}

module _ {ℓ} {A : Type ℓ} where
  abbrev pub length : List A → ℕ
  length [] = 0
  length (x ∷ xs) = suc (length xs)

  abbrev pub get_elem? : List A → ℕ → Option A
  get_elem? [] i = none
  get_elem? (x ∷ xs) zero = some x
  get_elem? (x ∷ xs) (suc i) = get_elem? xs i

  abbrev pub get_or : List A → ℕ → A → A
  get_or [] i d = d
  get_or (x ∷ xs) zero d = x
  get_or (x ∷ xs) (suc i) d = get_or xs i d

  -- A write out of bounds changes nothing.
  abbrev pub set : List A → ℕ → A → List A
  set [] i v = []
  set (x ∷ xs) zero v = v ∷ xs
  set (x ∷ xs) (suc i) v = x ∷ set xs i v

  abbrev pub take : ℕ → List A → List A
  take zero xs = []
  take (suc n) [] = []
  take (suc n) (x ∷ xs) = x ∷ take n xs

  abbrev pub drop : ℕ → List A → List A
  drop zero xs = xs
  drop (suc n) [] = []
  drop (suc n) (x ∷ xs) = drop n xs

  abbrev pub replicate : ℕ → A → List A
  replicate zero a = []
  replicate (suc n) a = a ∷ replicate n a

module _ {ℓ} {A : Type ℓ} where
  pub length-append : (xs ys : List A) → length (xs ++ ys) ≡ length xs + length ys
  length-append [] ys = omega arith
  length-append (x ∷ xs) ys = omega (arith, length-append xs ys)

  pub length-set : (xs : List A) (i : ℕ) (v : A) → length (set xs i v) ≡ length xs
  length-set [] i v = refl
  length-set (x ∷ xs) zero v = refl
  length-set (x ∷ xs) (suc i) v = ap suc (length-set xs i v)

  pub length-replicate : (n : ℕ) (a : A) → length (replicate n a) ≡ n
  length-replicate zero a = refl
  length-replicate (suc n) a = ap suc (length-replicate n a)

  pub get_elem?-set_self :
      (xs : List A) (i : ℕ) (v : A) → i < length xs → get_elem? (set xs i v) i ≡ some v
  get_elem?-set_self [] i v h = elim h [ ]
  get_elem?-set_self (x ∷ xs) zero v h = refl
  get_elem?-set_self (x ∷ xs) (suc i) v h = get_elem?-set_self xs i v (omega arith)

  pub get_elem?-set_ne :
      (xs : List A) (i j : ℕ) (v : A) → i ≢ j → get_elem? (set xs i v) j ≡ get_elem? xs j
  get_elem?-set_ne [] i j v h = refl
  get_elem?-set_ne (x ∷ xs) zero zero v h = absurd (h refl)
  get_elem?-set_ne (x ∷ xs) zero (suc j) v h = refl
  get_elem?-set_ne (x ∷ xs) (suc i) zero v h = refl
  get_elem?-set_ne (x ∷ xs) (suc i) (suc j) v h = get_elem?-set_ne xs i j v (λ e. h (ap suc e))

  -- What stands at `j` after a write at `i`.
  pub get_elem?-set_cases :
      (xs : List A) (i j : ℕ) (v : A) {u : A}
      → get_elem? (set xs i v) j ≡ some u
      → ((i ≡ j) × (u ≡ v)) ⊎ ((i ≢ j) × (get_elem? xs j ≡ some u))
  get_elem?-set_cases [] i j v e = cc
  get_elem?-set_cases (x ∷ xs) zero zero v e = inl (refl, cc)
  get_elem?-set_cases (x ∷ xs) zero (suc j) v e = inr (omega arith, e)
  get_elem?-set_cases (x ∷ xs) (suc i) zero v e = inr (omega arith, e)
  get_elem?-set_cases (x ∷ xs) (suc i) (suc j) v e = elim (get_elem?-set_cases xs i j v e) [
    | inl (p, q) ↦ inl (ap suc p, q)
    | inr (n, q) ↦ inr (omega arith, q)
  ]

  pub get_elem?-some_lt : (xs : List A) (i : ℕ) {v : A} → get_elem? xs i ≡ some v → i < length xs
  get_elem?-some_lt [] i h = cc
  get_elem?-some_lt (x ∷ xs) zero h = omega arith
  get_elem?-some_lt (x ∷ xs) (suc i) h = omega (arith, get_elem?-some_lt xs i h)

  pub get_elem?-get_or :
      (xs : List A) (i : ℕ) (d : A) → i < length xs → get_elem? xs i ≡ some (get_or xs i d)
  get_elem?-get_or [] i d h = elim h [ ]
  get_elem?-get_or (x ∷ xs) zero d h = refl
  get_elem?-get_or (x ∷ xs) (suc i) d h = get_elem?-get_or xs i d (omega arith)

  pub get_or_of_get_elem? :
      (xs : List A) (i : ℕ) (d : A) {v : A} → get_elem? xs i ≡ some v → get_or xs i d ≡ v
  get_or_of_get_elem? [] i d e = cc
  get_or_of_get_elem? (x ∷ xs) zero d e = cc
  get_or_of_get_elem? (x ∷ xs) (suc i) d e = get_or_of_get_elem? xs i d e

  pub get_or_missing : (xs : List A) (i : ℕ) (d : A) → length xs ≤ i → get_or xs i d ≡ d
  get_or_missing [] i d h = refl
  get_or_missing (x ∷ xs) zero d h = absurd (omega arith)
  get_or_missing (x ∷ xs) (suc i) d h = get_or_missing xs i d (omega arith)

  pub get_elem?-replicate : (n i : ℕ) (a : A) {v : A} → get_elem? (replicate n a) i ≡ some v → v ≡ a
  get_elem?-replicate zero i a h = cc
  get_elem?-replicate (suc n) zero a h = cc
  get_elem?-replicate (suc n) (suc i) a h = get_elem?-replicate n i a h

  pub take-append_length : (xs ys : List A) → take (length xs) (xs ++ ys) ≡ xs
  take-append_length [] ys = refl
  take-append_length (x ∷ xs) ys = ap (λ zs. x ∷ zs) (take-append_length xs ys)

  pub drop-append_length : (xs ys : List A) → drop (length xs) (xs ++ ys) ≡ ys
  drop-append_length [] ys = refl
  drop-append_length (x ∷ xs) ys = drop-append_length xs ys

  pub length-take : (n : ℕ) (xs : List A) → length (take n xs) ≡ min n (length xs)
  length-take zero xs = omega arith
  length-take (suc n) [] = omega arith
  length-take (suc n) (x ∷ xs) = omega (arith, length-take n xs)

  pub length-drop : (n : ℕ) (xs : List A) → length (drop n xs) ≡ length xs - n
  length-drop zero xs = omega arith
  length-drop (suc n) [] = omega arith
  length-drop (suc n) (x ∷ xs) = omega (arith, length-drop n xs)

  -- How many elements pass a test.
  abbrev pub count_if : (A → Bool) → List A → ℕ
  count_if f [] = 0
  count_if f (x ∷ xs) = to_ℕ (f x) + count_if f xs

module _ {ℓ} {A : Type ℓ} (f : A → Bool) where
  pub count_if-set :
      (xs : List A) (i : ℕ) (v : A) {u : A}
      → get_elem? xs i ≡ some u
      → count_if f (set xs i v) + to_ℕ (f u) ≡ count_if f xs + to_ℕ (f v)
  count_if-set [] i v h = cc
  count_if-set (x ∷ xs) zero v {u} h =
      let e : to_ℕ (f x) ≡ to_ℕ (f u) = ap (λ (o : Option A). from o) h in omega arith
    where
      from : Option A → ℕ
      from none = 0
      from (some a) = to_ℕ (f a)
  count_if-set (x ∷ xs) (suc i) v h = omega (arith, count_if-set xs i v h)

  pub count_if-replicate : (n : ℕ) (a : A) → f a ≡ false → count_if f (replicate n a) ≡ 0
  count_if-replicate zero a h = refl
  count_if-replicate (suc n) a h = rw h (omega (arith, count_if-replicate n a h))

  pub count_if-le-length : (xs : List A) → count_if f xs ≤ length xs
  count_if-le-length [] = omega arith
  count_if-le-length (x ∷ xs) = ground (arith, count_if-le-length xs)
