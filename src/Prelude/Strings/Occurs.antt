-- ===== src/Prelude/Strings/Occurs.antt =====
-- `strings.Contains` against occurrences of one text in another.
use mathlib.Core.Path.{◌≡◌, refl, ap, ◌∙◌}
use mathlib.Core.Logic.{◌↔◌, inl, inr}
use mathlib.Core.Bool.{true}
use mathlib.Core.List.{[], ◌∷◌, ◌++◌}
use native.Mathlib.Omega.{arith}
use go_block_walk.Prelude.Tests.{Bool-cases}
use go_block_walk.Prelude.Strings.{Text, has_prefix, contains, contains-append_right}

-- `sub` stands somewhere in `t`.
abbrev pub Occurs : Text → Text → Type 0
Occurs sub t = (before : Text) × (after : Text) × (t ≡ before ++ (sub ++ after))

has_prefix_sound : (s sub : Text) → has_prefix s sub ≡ true → (after : Text) × (s ≡ sub ++ after)
unfolding has_prefix
has_prefix_sound s [] h = (s, refl)
has_prefix_sound [] (p ∷ ps) h = absurd (ground arith)
has_prefix_sound (c ∷ s) (p ∷ ps) h =
    let (after, e) = has_prefix_sound s ps (ground (arith, h)) in
    let q : c ≡ p = ground (arith, h) in (after, ap (λ x. x ∷ s) q ∙ ap (λ x. p ∷ x) e)

has_prefix_complete : (sub after : Text) → has_prefix (sub ++ after) sub ≡ true
unfolding has_prefix
has_prefix_complete [] [] = refl
has_prefix_complete [] (c ∷ after) = refl
has_prefix_complete (p ∷ ps) after = ground (arith, has_prefix_complete ps after)

contains-Occurs : (t sub : Text) → contains t sub ≡ true → Occurs sub t
unfolding contains
contains-Occurs [] sub h = let (after, e) = has_prefix_sound [] sub h in ([], after, e)
contains-Occurs (c ∷ s) sub h = elim (Bool-cases (has_prefix (c ∷ s) sub)) [
  | inl now ↦ let (after, e) = has_prefix_sound (c ∷ s) sub now in ([], after, e)
  | inr later ↦
      let (before, after, e) = contains-Occurs s sub (ground (arith, h, later)) in
      (c ∷ before, after, ap (λ x. c ∷ x) e)
]

Occurs-here : (sub after : Text) → contains (sub ++ after) sub ≡ true
unfolding contains
Occurs-here [] [] = has_prefix_complete [] []
Occurs-here [] (c ∷ after) = ground (arith, has_prefix_complete [] (c ∷ after))
Occurs-here (p ∷ ps) after = ground (arith, has_prefix_complete (p ∷ ps) after)

-- The test finds a text exactly where it occurs.
pub contains_iff : (t sub : Text) → (contains t sub ≡ true) ↔ Occurs sub t
contains_iff t sub = (
  contains-Occurs t sub,
  λ (before, after, e).
      rw e (contains-append_right before (sub ++ after) sub (Occurs-here sub after)),
)
