-- ===== src/Prelude/Strings.antt =====
-- Go strings as lists of code points, and what the source uses of package `strings` and of `%d`.
-- `to_lower` is `strings.ToLower` on ASCII text; every other code point stays as it is.
pub mod Clear
pub mod Occurs
use Prim.Native.Nat.{ℕ, zero, suc, ◌+◌, ◌/◌, ◌%◌}
use Prim.Native.Char.{code}
use Prim.Native.String.{String}
use mathlib.Core.Path.{◌≡◌, refl}
use mathlib.Core.Bool.{Bool, true, false, ◌&&◌, ◌||◌}
use mathlib.Core.List.{List, [], ◌∷◌, ◌++◌, map}
use native.Mathlib.Omega.{arith}
use go_block_walk.Prelude.Tests.{leb, ◌==◌, if◌then◌else◌, ltb}

abbrev pub Text : Type 0
Text = List ℕ

abbrev pub codes : String → Text
codes String.[] = []
codes (String.◌∷◌ c s) = code c ∷ codes s

unfoldable pub has_prefix : Text → Text → Bool
has_prefix s [] = true
has_prefix [] (p ∷ ps) = false
has_prefix (c ∷ s) (p ∷ ps) = c == p && has_prefix s ps

unfoldable pub contains : Text → Text → Bool
unfolding has_prefix
contains [] sub = has_prefix [] sub
contains (c ∷ s) sub = has_prefix (c ∷ s) sub || contains s sub

unfoldable pub lower : ℕ → ℕ
lower c = if leb 65 c && leb c 90 then c + 32 else c

unfoldable pub to_lower : Text → Text
unfolding lower
to_lower = map lower

-- The digits of a number, least significant first; `n` rounds are enough for `n`.
unfoldable pub digits : ℕ → ℕ → Text
digits zero n = []
digits (suc f) n = let rest = digits f (n / 10) in (48 + n % 10) ∷ (if ltb n 10 then [] else rest)

unfoldable pub decimal : ℕ → Text
unfolding digits
decimal n = mathlib.Core.List.reverse (digits (suc n) n)

unfoldable pub text_eq : Text → Text → Bool
text_eq [] [] = true
text_eq [] (d ∷ t) = false
text_eq (c ∷ s) [] = false
text_eq (c ∷ s) (d ∷ t) = c == d && text_eq s t

-- `for _, k := range keywords { if strings.Contains(s, k) { return true } }; return false`
unfoldable pub contains_any : Text → List Text → Bool
unfolding contains
contains_any s [] = false
contains_any s (k ∷ ks) = contains s k || contains_any s ks

has_prefix_append : (s t sub : Text) → has_prefix s sub ≡ true → has_prefix (s ++ t) sub ≡ true
unfolding has_prefix
has_prefix_append [] [] [] h = refl
has_prefix_append [] (d ∷ t) [] h = refl
has_prefix_append [] t (p ∷ ps) h = cc
has_prefix_append (c ∷ s) t [] h = refl
has_prefix_append (c ∷ s) t (p ∷ ps) h = ground (arith, has_prefix_append s t ps)

-- What a text contains, a longer text contains too.
pub contains-append_right : (s t sub : Text) → contains t sub ≡ true → contains (s ++ t) sub ≡ true
unfolding contains
contains-append_right [] t sub h = h
contains-append_right (c ∷ s) t sub h = ground (arith, contains-append_right s t sub)

pub contains-append_left : (s t sub : Text) → contains s sub ≡ true → contains (s ++ t) sub ≡ true
unfolding contains
contains-append_left [] [] sub h = h
contains-append_left [] (d ∷ t) sub h = ground (arith, has_prefix_append [] (d ∷ t) sub)
contains-append_left (c ∷ s) t sub h =
    ground (arith, has_prefix_append (c ∷ s) t sub, contains-append_left s t sub)

pub contains_any-append_right :
    (s t : Text) (ks : List Text) → contains_any t ks ≡ true → contains_any (s ++ t) ks ≡ true
unfolding contains_any
contains_any-append_right s t [] h = cc
contains_any-append_right s t (k ∷ ks) h =
    ground (arith, contains-append_right s t k, contains_any-append_right s t ks)

pub contains_any-append_left :
    (s t : Text) (ks : List Text) → contains_any s ks ≡ true → contains_any (s ++ t) ks ≡ true
unfolding contains_any
contains_any-append_left s t [] h = cc
contains_any-append_left s t (k ∷ ks) h =
    ground (arith, contains-append_left s t k, contains_any-append_left s t ks)

pub to_lower-append : (s t : Text) → to_lower (s ++ t) ≡ to_lower s ++ to_lower t
unfolding to_lower
to_lower-append [] t = refl
to_lower-append (c ∷ s) t = cc (to_lower-append s t)

pub text_eq_refl : (s : Text) → text_eq s s ≡ true
unfolding text_eq
text_eq_refl [] = refl
text_eq_refl (c ∷ s) = ground (arith, text_eq_refl s)

pub eq_of_text_eq : (s t : Text) → text_eq s t ≡ true → s ≡ t
unfolding text_eq
eq_of_text_eq [] [] h = refl
eq_of_text_eq [] (d ∷ t) h = absurd (ground arith)
eq_of_text_eq (c ∷ s) [] h = absurd (ground arith)
eq_of_text_eq (c ∷ s) (d ∷ t) h = ground (arith, eq_of_text_eq s t)
