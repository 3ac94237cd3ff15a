-- ===== src/Prelude/Strings/Clear.antt =====
-- Texts in which no occurrence of another text can begin, whatever follows them.
use Prim.Native.Nat.{ℕ, zero, suc, ◌/◌, ◌<◌}
use mathlib.Core.Path.{◌≡◌, refl}
use mathlib.Core.Logic.{inl, inr}
use mathlib.Core.Bool.{Bool, true, false, not, ◌&&◌, ◌||◌}
use mathlib.Core.List.{[], ◌∷◌, ◌++◌, reverse_aux}
use native.Mathlib.Omega.{arith}
use go_block_walk.Prelude.Tests.{◌==◌, ltb, Bool-cases}
use go_block_walk.Prelude.Lists.{All}
use go_block_walk.Prelude.Strings.{Text, has_prefix, contains, digits, decimal}

-- `s` differs from `sub` within the length of both.
unfoldable pub differs : Text → Text → Bool
differs [] sub = false
differs (c ∷ s) [] = false
differs (c ∷ s) (p ∷ ps) = not (c == p) || differs s ps

-- No occurrence of `sub` begins in `s`.
unfoldable pub is_clear : Text → Text → Bool
unfolding differs
is_clear sub [] = true
is_clear sub (c ∷ s) = differs (c ∷ s) sub && is_clear sub s

differs-append : (s t sub : Text) → differs s sub ≡ true → differs (s ++ t) sub ≡ true
unfolding differs
differs-append [] t sub h = absurd (ground arith)
differs-append (c ∷ s) t [] h = absurd (ground arith)
differs-append (c ∷ s) t (p ∷ ps) h = ground (arith, h, differs-append s t ps)

has_prefix-differs : (s sub : Text) → differs s sub ≡ true → has_prefix s sub ≡ false
unfolding differs has_prefix
has_prefix-differs [] sub h = absurd (ground arith)
has_prefix-differs (c ∷ s) [] h = absurd (ground arith)
has_prefix-differs (c ∷ s) (p ∷ ps) h = ground (arith, h, has_prefix-differs s ps)

pub is_clear-append :
    (sub s t : Text) → is_clear sub s ≡ true → is_clear sub t ≡ true → is_clear sub (s ++ t) ≡ true
unfolding is_clear
is_clear-append sub [] t h k = k
is_clear-append sub (c ∷ s) t h k =
    ground (arith, h, differs-append (c ∷ s) t sub, is_clear-append sub s t)

-- What stands in a text with a clear text before it stands in the text.
pub contains-clear :
    (sub s t : Text) → is_clear sub s ≡ true → contains (s ++ t) sub ≡ true → contains t sub ≡ true
unfolding is_clear contains
contains-clear sub [] t h k = k
contains-clear sub (c ∷ s) t h k = ground (
  arith,
  h,
  k,
  has_prefix-differs ((c ∷ s) ++ t) sub,
  differs-append (c ∷ s) t sub,
  contains-clear sub s t,
)

is_clear-digits : (p : ℕ) (ps s : Text) → 58 < p → All (λ c. c < 58) s → is_clear (p ∷ ps) s ≡ true
unfolding is_clear differs
is_clear-digits p ps [] l d = refl
is_clear-digits p ps (c ∷ s) l d =
    let e : (c == p) ≡ false = ground (arith, d.0) in rw e (is_clear-digits p ps s l d.1)

digits-All : (f n : ℕ) → All (λ c. c < 58) (digits f n)
unfolding digits
digits-All zero n = tt
digits-All (suc f) n = elim (Bool-cases (ltb n 10)) [
  | inl last ↦ rw last (omega arith, tt)
  | inr more ↦ rw more (omega arith, digits-All f (n / 10))
]

reverse_aux-All :
    (s t : Text) → All (λ c. c < 58) s → All (λ c. c < 58) t → All (λ c. c < 58) (reverse_aux s t)
reverse_aux-All [] t a b = b
reverse_aux-All (c ∷ s) t a b = reverse_aux-All s (c ∷ t) a.1 (a.0, b)

-- A decimal is clear for a text that begins with a letter.
pub is_clear-decimal : (p : ℕ) (ps : Text) (n : ℕ) → 58 < p → is_clear (p ∷ ps) (decimal n) ≡ true
unfolding decimal
is_clear-decimal p ps n l =
    is_clear-digits p ps _ l (reverse_aux-All (digits (suc n) n) [] (digits-All (suc n) n) tt)
