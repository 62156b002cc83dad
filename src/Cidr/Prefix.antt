-- ===== src/Cidr/Prefix.antt =====
-- The texts that `strtol` reads to their end as a prefix length.
use mathlib.Core.Option.{some-injective, none-ne-some}
use mathlib.Core.List.{append-nil}
use netscan.Base.{
  ==_iff, Bool, Bool-cases, Bytes, Option, [], ap, arith, false, inl, inr, leb, negsuc, none, pos,
  pos_part, refl, some, subst, suc, sym, true, zero, ℕ, ℤ, ◌*◌, ◌++◌, ◌+◌, ◌-◌, ◌==◌, ◌∙◌, ◌∷◌, ◌≡◌,
  ◌≢◌, ◌≤◌, ◌⊎◌,
}
use netscan.Cidr.{
  is_space, is_digit, parse_prefix, check_prefix, strtol, skip_spaces, read_signed, read_magnitude,
  read_digits, to_long, starts_with_digit,
}

abbrev pub All {ℓ} : (ℕ → Type ℓ) → Bytes → Type ℓ
All P [] = Unit {ℓ}
All P (b ∷ bs) = P b × All P bs

-- A blank, or one of the five control characters that `isspace` takes.
abbrev pub IsSpace : ℕ → Type 0
IsSpace b = (b ≡ 32) ⊎ ((9 ≤ b) × (b ≤ 13))

abbrev pub IsDigit : ℕ → Type 0
IsDigit b = (48 ≤ b) × (b ≤ 57)

-- The number that digits denote, behind those that denote `n`.
abbrev pub value : ℕ → Bytes → ℕ
value n [] = n
value n (d ∷ ds) = value (n * 10 + (d - 48)) ds

-- A sign, and the prefix lengths that it allows.
pub data Sign : Bytes → ℕ → Type 0 where
  no_sign : (p : ℕ) → Sign [] p
  plus_sign : (p : ℕ) → Sign (43 ∷ []) p
  minus_sign : Sign (45 ∷ []) 0

-- Spaces, a sign and digits that denote the prefix length, and nothing behind them.
pub record PrefixText (text : Bytes) (p : ℕ) : Type 0 where
  pub spaces : Bytes
  pub sign : Bytes
  pub digits : Bytes
  pub whole : text ≡ spaces ++ (sign ++ digits)
  pub blank : All IsSpace spaces
  pub signed : Sign sign p
  pub some_digits : digits ≢ []
  pub decimal : All IsDigit digits
  pub denotes : value 0 digits ≡ p
  pub small : p ≤ 32

pub record DigitsText (n : ℕ) (bs : Bytes) : Type 0 where
  pub digits : Bytes
  pub whole : bs ≡ digits ++ (read_digits n bs).1
  pub decimal : All IsDigit digits
  pub denotes : (read_digits n bs).0 ≡ value n digits
  pub begins : starts_with_digit bs ≡ true → digits ≢ []

cons_ne_nil : (b : ℕ) (bs : Bytes) → (b ∷ bs) ≢ []
cons_ne_nil b bs h = cc

read_digits-DigitsText : (n : ℕ) (bs : Bytes) → DigitsText n bs
unfolding read_digits
read_digits-DigitsText n [] = record {
  digits = [];
  whole = refl;
  decimal = tt;
  denotes = refl;
  begins = λ h. absurd (ground (arith, h));
}
read_digits-DigitsText n (b ∷ bs) = elim (Bool-cases (is_digit b)) [
  | inl e ↦
      let r = read_digits-DigitsText (n * 10 + (b - 48)) bs in
      record {
        digits = b ∷ r.digits;
        whole = rw (e, read_digits) (ap (◌∷◌ b) r.whole);
        decimal = (ground (arith, e), r.decimal);
        denotes = rw (e, read_digits) r.denotes;
        begins = λ h. cons_ne_nil b r.digits;
      }
  | inr e ↦ record {
    digits = [];
    whole = rw (e, read_digits) refl;
    decimal = tt;
    denotes = rw (e, read_digits) refl;
    begins = λ h. absurd (ground (arith, e, h));
  }
]

abbrev Skipped : Bytes → Type 0
Skipped bs = (spaces : Bytes) × (bs ≡ spaces ++ skip_spaces bs) × All IsSpace spaces

skip_spaces-Skipped : (bs : Bytes) → Skipped bs
unfolding skip_spaces
skip_spaces-Skipped [] = ([], refl, tt)
skip_spaces-Skipped (b ∷ bs) = elim (Bool-cases (is_space b)) [
  | inl e ↦
      let (xs, q, a) = skip_spaces-Skipped bs in
      (b ∷ xs, rw (e, skip_spaces) (ap (◌∷◌ b) q), (ground (arith, e), a))
  | inr e ↦ ([], rw (e, skip_spaces) refl, tt)
]

to_long_pos : (n p : ℕ) → to_long false n ≡ pos p → p ≤ 32 → n ≡ p
unfolding to_long
to_long_pos n p h le = ground (arith, ap pos_part h, le)

pos_ne_negsuc : {m n : ℕ} → negsuc m ≡ pos n → ⊥
pos_ne_negsuc h = cc

to_long_neg : (n p : ℕ) → to_long true n ≡ pos p → (n ≡ 0) × (p ≡ 0)
unfolding to_long
to_long_neg zero p h = (refl, sym (ap pos_part h))
to_long_neg (suc n) p h = absurd (pos_ne_negsuc h)

-- The result of reading a magnitude to the end of the text.
abbrev Magnitude : Bool → Bytes → ℕ → Type 0
Magnitude negative bs p = (bs ≢ []) × All IsDigit bs × (to_long negative (value 0 bs) ≡ pos p)

read_magnitude-Magnitude :
    (negative : Bool) (bs : Bytes) (p : ℕ)
    → read_magnitude negative bs ≡ some (pos p, [])
    → Magnitude negative bs p
unfolding read_magnitude
read_magnitude-Magnitude negative bs p h = elim (Bool-cases (starts_with_digit bs)) [
  | inr e ↦ absurd (none-ne-some _ (rw (e, read_magnitude) at h))
  | inl e ↦
      let d = read_digits-DigitsText 0 bs in
      let q = some-injective _ _ (rw (e, read_magnitude) at h) in
      let same : bs ≡ d.digits =
        d.whole ∙ ap (λ (x : ℤ × Bytes). d.digits ++ x.1) q ∙ append-nil d.digits in
      (
        λ z. d.begins e (sym same ∙ z),
        subst (All IsDigit) (sym same) d.decimal,
        ap (λ (x : Bytes). to_long negative (value 0 x)) same
            ∙ ap (to_long negative) (sym d.denotes)
            ∙ ap (λ (x : ℤ × Bytes). x.0) q,
      )
]

unsigned :
    (text spaces sign digits : Bytes) (p : ℕ)
    → text ≡ spaces ++ (sign ++ digits)
    → All IsSpace spaces
    → Sign sign p
    → p ≤ 32
    → Magnitude false digits p
    → PrefixText text p
unsigned text spaces sign digits p q a g le (n, d, e) = record {
  spaces = spaces;
  sign = sign;
  digits = digits;
  whole = q;
  blank = a;
  signed = g;
  some_digits = n;
  decimal = d;
  denotes = to_long_pos (value 0 digits) p e le;
  small = le;
}

negated :
    (text spaces digits : Bytes) (p : ℕ)
    → text ≡ spaces ++ (45 ∷ digits)
    → All IsSpace spaces
    → Magnitude true digits p
    → PrefixText text p
negated text spaces digits p q a (n, d, e) =
    let (z, zero_p) = to_long_neg (value 0 digits) p e in
    subst (PrefixText text) (sym zero_p) (record {
      spaces = spaces;
      sign = 45 ∷ [];
      digits = digits;
      whole = q;
      blank = a;
      signed = minus_sign;
      some_digits = n;
      decimal = d;
      denotes = z;
      small = omega arith;
    })

read_signed-PrefixText :
    (text spaces rest : Bytes) (p : ℕ)
    → text ≡ spaces ++ rest
    → All IsSpace spaces
    → p ≤ 32
    → read_signed rest ≡ some (pos p, [])
    → PrefixText text p
unfolding read_signed
read_signed-PrefixText text spaces [] p q a le h = absurd (none-ne-some _ h)
read_signed-PrefixText text spaces (b ∷ bs) p q a le h = elim (Bool-cases (b == 45)) [
  | inl m ↦
      negated text spaces bs p (q ∙ ap (λ (x : ℕ). spaces ++ (x ∷ bs)) ((==_iff b 45).0 m)) a
        (read_magnitude-Magnitude true bs p (rw (m, read_signed) at h))
  | inr m ↦ elim (Bool-cases (b == 43)) [
    | inl k ↦
        unsigned text spaces (43 ∷ []) bs p
          (q ∙ ap (λ (x : ℕ). spaces ++ (x ∷ bs)) ((==_iff b 43).0 k)) a (plus_sign p) le
          (read_magnitude-Magnitude false bs p (rw (m, k, read_signed) at h))
    | inr k ↦
        unsigned text spaces [] (b ∷ bs) p q a (no_sign p) le
          (read_magnitude-Magnitude false (b ∷ bs) p (rw (m, k, read_signed) at h))
  ]
]

strtol-PrefixText :
    (text : Bytes) (p : ℕ) → strtol text ≡ some (pos p, []) → p ≤ 32 → PrefixText text p
unfolding strtol
strtol-PrefixText text p h le =
    let (spaces, q, a) = skip_spaces-Skipped text in
    read_signed-PrefixText text spaces (skip_spaces text) p q a le h

check_prefix-inverse :
    (o : Option (ℤ × Bytes)) {p : ℕ} → check_prefix o ≡ some p → (o ≡ some (pos p, [])) × (p ≤ 32)
unfolding check_prefix
check_prefix-inverse none e = absurd (none-ne-some _ e)
check_prefix-inverse (some (negsuc n, _)) e = absurd (none-ne-some _ e)
check_prefix-inverse (some (pos n, _ ∷ _)) e = absurd (none-ne-some _ e)
check_prefix-inverse (some (pos n, [])) {p} e = elim (Bool-cases (leb n 32)) [
  | inl l ↦
      let q = some-injective n p (rw (l, check_prefix) at e) in
      (ap (λ (k : ℕ). some (pos k, [])) q, ground (arith, l, q))
  | inr l ↦ absurd (none-ne-some _ (rw (l, check_prefix) at e))
]

pub parse_prefix-PrefixText :
    (text : Bytes) {p : ℕ} → parse_prefix text ≡ some p → PrefixText text p
unfolding parse_prefix
parse_prefix-PrefixText text {p} h =
    let (e, le) = check_prefix-inverse (strtol text) h in strtol-PrefixText text p e le
