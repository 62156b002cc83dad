-- ===== src/Base/Buffers.antt =====
-- Reading and writing parts of a buffer that is cut into entries of one size.
use Prim.Native.Nat.{ℕ, zero, suc, ◌+◌, ◌*◌}
use mathlib.Core.Path.{◌≡◌, refl, sym, ap, ap₂, ◌∙◌, subst}
use mathlib.Core.List.{List, [], ◌∷◌, ◌++◌, append_assoc}
use mathlib.Core.Option.{some, none-ne-some, some-injective}
use native.Mathlib.Omega.{arith}
use netscan.Base.Lists.{
  length, get_elem?, set, take, drop, length-append, length-take, length-drop, take-append_length,
  drop-append_length,
}
use netscan.Base.Memory.{Bytes, read_at, write_at}

drop-nil : (n : ℕ) → drop {A = ℕ} n [] ≡ []
drop-nil zero = refl
drop-nil (suc n) = refl

drop-add : (m n : ℕ) (xs : Bytes) → drop (m + n) xs ≡ drop n (drop m xs)
drop-add zero n xs = ap (λ (k : ℕ). drop k xs) zero_add
  where
    zero_add : 0 + n ≡ n
    zero_add = omega arith
drop-add (suc m) n [] = drop-nil (suc m + n) ∙ sym (drop-nil n)
drop-add (suc m) n (x ∷ xs) = ap (λ (k : ℕ). drop k (x ∷ xs)) suc_add ∙ drop-add m n xs
  where
    suc_add : suc m + n ≡ suc (m + n)
    suc_add = omega arith

-- A write at the end of a part of the buffer.
write_on :
    (p y bs : Bytes) (off : ℕ)
    → off ≡ length p
    → write_at (p ++ y) off bs ≡ (p ++ bs) ++ drop (length bs) y
unfolding write_at
write_on p y bs off e =
    ap₂ (λ (xs ys : Bytes). xs ++ (bs ++ ys))
      (ap (λ (k : ℕ). take k (p ++ y)) e ∙ take-append_length p y)
      (ap (λ (k : ℕ). drop (k + length bs) (p ++ y)) e
        ∙ drop-add (length p) (length bs) (p ++ y)
        ∙ ap (drop (length bs)) (drop-append_length p y))
    ∙ sym (append_assoc p bs _)

behind :
    (e q a b d : Bytes)
    → length e ≡ length a + length b + length d
    → drop (length d) (drop (length b) (drop (length a) (e ++ q))) ≡ q
behind e q a b d h =
    sym (
      drop-add (length a + length b) (length d) (e ++ q)
      ∙ ap (drop (length d)) (drop-add (length a) (length b) (e ++ q)))
    ∙ ap (λ (k : ℕ). drop k (e ++ q)) (sym h)
    ∙ drop-append_length e q

-- Three writes, one behind the other, that fill an entry.
pub write_at-three :
    (p e q a b d : Bytes) (i j k : ℕ)
    → i ≡ length p
    → j ≡ length p + length a
    → k ≡ length p + length a + length b
    → length e ≡ length a + length b + length d
    → write_at (write_at (write_at (p ++ (e ++ q)) i a) j b) k d ≡ p ++ ((a ++ (b ++ d)) ++ q)
write_at-three p e q a b d i j k hi hj hk h =
    ap (λ (x : Bytes). write_at (write_at x j b) k d) (write_on p (e ++ q) a i hi)
    ∙ ap (λ (x : Bytes). write_at x k d)
        (write_on (p ++ a) (drop (length a) (e ++ q)) b j (omega (arith, length-append p a)))
    ∙ write_on ((p ++ a) ++ b) (drop (length b) (drop (length a) (e ++ q))) d k
        (omega (arith, length-append p a, length-append (p ++ a) b))
    ∙ ap (λ (x : Bytes). (((p ++ a) ++ b) ++ d) ++ x) (behind e q a b d h)
    ∙ simp append_assoc

pub read_at-middle : (p e q : Bytes) → read_at (p ++ (e ++ q)) (length p) (length e) ≡ e
unfolding read_at
read_at-middle p e q = ap (take (length e)) (drop-append_length p (e ++ q)) ∙ take-append_length e q

abbrev pub join : List Bytes → Bytes
join [] = []
join (e ∷ es) = e ++ join es

abbrev pub AllSized : ℕ → List Bytes → Type 0
AllSized size [] = Unit {0}
AllSized size (e ∷ es) = (length e ≡ size) × AllSized size es

-- The buffer around entry `k`.
pub record Around (size : ℕ) (es : List Bytes) (k : ℕ) (e : Bytes) : Type 0 where
  pub before : Bytes
  pub after : Bytes
  pub offset : length before ≡ k * size
  pub sized : length e ≡ size
  pub here : join es ≡ before ++ (e ++ after)
  pub there : (e' : Bytes) → join (set es k e') ≡ before ++ (e' ++ after)

pub around :
    (size : ℕ) (es : List Bytes) (k : ℕ) (e : Bytes)
    → AllSized size es
    → get_elem? es k ≡ some e
    → Around size es k e
around size [] k e v h = absurd (none-ne-some _ h)
around size (x ∷ es) zero e (n, v) h = record {
  before = [];
  after = join es;
  offset = omega arith;
  sized = subst (λ (y : Bytes). length y ≡ size) (some-injective _ _ h) n;
  here = ap (λ (y : Bytes). y ++ join es) (some-injective _ _ h);
  there = λ e'. refl;
}
around size (x ∷ es) (suc k) e (n, v) h =
    let r = around size es k e v h in
    record {
      before = x ++ r.before;
      after = r.after;
      offset = omega (arith, length-append x r.before, r.offset, n);
      sized = r.sized;
      here = ap (◌++◌ x) r.here ∙ sym (append_assoc x r.before _);
      there = λ e'. ap (◌++◌ x) (r.there e') ∙ sym (append_assoc x r.before _);
    }

pub AllSized-set :
    (size : ℕ) (es : List Bytes) (k : ℕ) (e : Bytes)
    → AllSized size es
    → length e ≡ size
    → AllSized size (set es k e)
AllSized-set size [] k e v n = tt
AllSized-set size (x ∷ es) zero e (m, v) n = (n, v)
AllSized-set size (x ∷ es) (suc k) e (m, v) n = (m, AllSized-set size es k e v n)

pub length-join :
    (size : ℕ) (es : List Bytes) → AllSized size es → length (join es) ≡ length es * size
length-join size [] v = omega arith
length-join size (e ∷ es) (n, v) =
    omega (arith, length-append e (join es), length-join size es v, n)

-- A buffer of `n` entries is cut into them.
pub record Cut (size n : ℕ) (buf : Bytes) : Type 0 where
  pub entries : List Bytes
  pub sizes : AllSized size entries
  pub count : length entries ≡ n
  pub joined : join entries ≡ buf

take-drop : (n : ℕ) (xs : Bytes) → take n xs ++ drop n xs ≡ xs
take-drop zero xs = refl
take-drop (suc n) [] = refl
take-drop (suc n) (x ∷ xs) = ap (◌∷◌ x) (take-drop n xs)

length-nil : (xs : Bytes) → length xs ≡ 0 → [] ≡ xs
length-nil [] h = refl
length-nil (x ∷ xs) h = absurd (omega (arith, h))

pub cut : (size n : ℕ) (buf : Bytes) → length buf ≡ n * size → Cut size n buf
cut size zero buf h = record {
  entries = [];
  sizes = tt;
  count = refl;
  joined = length-nil buf (omega (arith, h));
}
cut size (suc n) buf h =
    let r = cut size n (drop size buf) (omega (arith, h, length-drop size buf)) in
    record {
      entries = take size buf ∷ r.entries;
      sizes = (omega (arith, h, length-take size buf), r.sizes);
      count = ap suc r.count;
      joined = ap (◌++◌ (take size buf)) r.joined ∙ take-drop size buf;
    }
