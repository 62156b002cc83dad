-- ===== src/Text.antt =====
-- Texts as lists of bytes: literals, and the comparison of whole texts.
use Prim.Native.Char.{code}
use Prim.Native.String.{String}
use netscan.Base.{
  ==_iff, ==_refl, Bool, Bytes, [], and_eq_true, ap₂, false, refl, subst, true, ℕ, ◌&&◌, ◌==◌, ◌↔◌,
  ◌∷◌, ◌≡◌,
}
use netscan.Base.{Bytes, ap₂}

-- The bytes of an ASCII literal.
abbrev pub codes : String → Bytes
codes String.[] = []
codes (String.◌∷◌ c s) = code c ∷ codes s

unfoldable pub eq_bytes : Bytes → Bytes → Bool
eq_bytes [] [] = true
eq_bytes [] (_ ∷ _) = false
eq_bytes (_ ∷ _) [] = false
eq_bytes (a ∷ as') (b ∷ bs) = a == b && eq_bytes as' bs

eq_bytes_refl : (xs : Bytes) → eq_bytes xs xs ≡ true
unfolding eq_bytes
eq_bytes_refl [] = refl
eq_bytes_refl (x ∷ xs) = rw (==_refl x, eq_bytes_refl xs) refl

pub eq_bytes_iff : (xs ys : Bytes) → (eq_bytes xs ys ≡ true) ↔ (xs ≡ ys)
unfolding eq_bytes
eq_bytes_iff [] [] = (λ _. refl, λ _. refl)
eq_bytes_iff [] (y ∷ ys) = (λ h. cc, λ h. cc)
eq_bytes_iff (x ∷ xs) [] = (λ h. cc, λ h. cc)
eq_bytes_iff (x ∷ xs) (y ∷ ys) = (
  λ h.
      let (p, q) = and_eq_true _ _ h in
      ap₂ (λ (a : ℕ) (l : Bytes). a ∷ l) ((==_iff x y).0 p) ((eq_bytes_iff xs ys).0 q),
  λ h. subst (λ (l : Bytes). eq_bytes (x ∷ xs) l ≡ true) h (eq_bytes_refl (x ∷ xs)),
)
