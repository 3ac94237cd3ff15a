-- ===== src/Errors/Wrapping.antt =====
-- Error classification survives the context that callers add with `%w`.
use go_block_walk.Prelude.{
  Text, codes, true, List, ◌++◌, [], ◌∷◌, refl, some, ◌≡◌, arith, ◌↔◌, ◌⊎◌, inl, inr, map, In, here,
  there, Bool-cases,
}
use go_block_walk.Prelude.Strings.{
  contains, contains_any, to_lower, contains-append_right, contains_any-append_right,
  to_lower-append,
}
use go_block_walk.Prelude.Strings.Occurs.{Occurs, contains_iff}
use go_block_walk.Errors.{
  GoError, wrap, error_text, is_local_decode_error, is_range_too_large_error_with_filters,
  default_range_too_large_filters,
}

-- An error that is classified as a local decode error stays one under any added context.
pub is_local_decode_error-wrap :
    (prefix : Text) (e : GoError)
    → is_local_decode_error (some e) ≡ true
    → is_local_decode_error (some (wrap prefix e)) ≡ true
unfolding is_local_decode_error
is_local_decode_error-wrap prefix e h = contains-append_right prefix (error_text e) _ h

-- What the test for an oversized range says of a text: it names a range and holds a keyword.
abbrev NamesRange : Text → List Text → Type 0
NamesRange s extra_filters =
    (contains s (codes "range") ≡ true)
    × ((contains_any s default_range_too_large_filters ≡ true)
        ⊎ (contains_any s (map to_lower extra_filters) ≡ true))

is_range_too_large_error_lem :
    (e : GoError) (extra_filters : List Text)
    → (is_range_too_large_error_with_filters (some e) extra_filters ≡ true)
      ↔ NamesRange (to_lower (error_text e)) extra_filters
unfolding is_range_too_large_error_with_filters
is_range_too_large_error_lem e extra_filters = ground arith

-- Where an error speaks of an oversized range: "range" stands in the text, and so does one of the
-- four words or one of the caller's filters in lower case.
pub data Oversized (extra_filters : List Text) (t : Text) : Type 0 where
  large : Occurs (codes "range") t → Occurs (codes "large") t → Oversized extra_filters t
  limit : Occurs (codes "range") t → Occurs (codes "limit") t → Oversized extra_filters t
  exceed : Occurs (codes "range") t → Occurs (codes "exceed") t → Oversized extra_filters t
  too_many : Occurs (codes "range") t → Occurs (codes "too many") t → Oversized extra_filters t
  by_filter :
      (f : Text)
      → Occurs (codes "range") t
      → In f extra_filters
      → Occurs (to_lower f) t
      → Oversized extra_filters t

by_filters :
    (t : Text) (fs : List Text)
    → contains_any t (map to_lower fs) ≡ true
    → (f : Text) × In f fs × Occurs (to_lower f) t
unfolding contains_any
by_filters t [] h = absurd (ground arith)
by_filters t (f ∷ fs) h = elim (Bool-cases (contains t (to_lower f))) [
  | inl now ↦ (f, In.here refl, (contains_iff t (to_lower f)).0 now)
  | inr later ↦ let (g, i, o) = by_filters t fs (ground (arith, h, later)) in (g, In.there i, o)
]

of_filter :
    (t : Text) (fs : List Text) (f : Text)
    → In f fs
    → contains t (to_lower f) ≡ true
    → contains_any t (map to_lower fs) ≡ true
unfolding contains_any
of_filter t [] f i h = elim i [ ]
of_filter t (g ∷ fs) f (here e) h = ground (arith, rw e at h)
of_filter t (g ∷ fs) f (there i) h = ground (arith, of_filter t fs f i h)

NamesRange-Oversized : (t : Text) (fs : List Text) → NamesRange t fs → Oversized fs t
unfolding contains_any
NamesRange-Oversized t fs (r, inl d) =
    let range = (contains_iff t (codes "range")).0 r in
    let at : (k : Text) → contains t k ≡ true → Occurs k t = λ k. (contains_iff t k).0 in
    elim (Bool-cases (contains t (codes "large"))) [
      | inl a ↦ large range (at _ a)
      | inr a ↦ elim (Bool-cases (contains t (codes "limit"))) [
        | inl b ↦ limit range (at _ b)
        | inr b ↦ elim (Bool-cases (contains t (codes "exceed"))) [
          | inl c ↦ exceed range (at _ c)
          | inr c ↦ too_many range (at (codes "too many") (ground (arith, a, b, c, d)))
        ]
      ]
    ]
NamesRange-Oversized t fs (r, inr x) =
    let (f, i, o) = by_filters t fs x in by_filter f ((contains_iff t _).0 r) i o

Oversized-NamesRange : (t : Text) (fs : List Text) → Oversized fs t → NamesRange t fs
unfolding contains_any
Oversized-NamesRange t fs (large r o) =
    ((contains_iff t _).1 r, inl (ground (arith, (contains_iff t (codes "large")).1 o)))
Oversized-NamesRange t fs (limit r o) =
    ((contains_iff t _).1 r, inl (ground (arith, (contains_iff t (codes "limit")).1 o)))
Oversized-NamesRange t fs (exceed r o) =
    ((contains_iff t _).1 r, inl (ground (arith, (contains_iff t (codes "exceed")).1 o)))
Oversized-NamesRange t fs (too_many r o) =
    ((contains_iff t _).1 r, inl (ground (arith, (contains_iff t (codes "too many")).1 o)))
Oversized-NamesRange t fs (by_filter f r i o) =
    ((contains_iff t _).1 r, inr (of_filter t fs f i ((contains_iff t _).1 o)))

-- The classifier answers yes exactly when "range" occurs in the lowered text, and so does "large",
-- "limit", "exceed", "too many" or one of the caller's filters, lowered.
pub is_range_too_large_error_iff :
    (e : GoError) (extra_filters : List Text)
    → (is_range_too_large_error_with_filters (some e) extra_filters ≡ true)
      ↔ Oversized extra_filters (to_lower (error_text e))
is_range_too_large_error_iff e fs =
    let t = to_lower (error_text e) in
    let l = is_range_too_large_error_lem e fs in
    (λ h. NamesRange-Oversized t fs (l.0 h), λ o. l.1 (Oversized-NamesRange t fs o))

NamesRange-append :
    (s t : Text) (extra_filters : List Text)
    → NamesRange t extra_filters
    → NamesRange (s ++ t) extra_filters
NamesRange-append s t fs (r, inl d) =
    (contains-append_right s t _ r, inl (contains_any-append_right s t _ d))
NamesRange-append s t fs (r, inr x) =
    (contains-append_right s t _ r, inr (contains_any-append_right s t _ x))

-- An error that is classified as an oversized range stays one under any added context, so the error
-- that a parallel round wraps is still recognised by the indexer.
pub is_range_too_large_error-wrap :
    (prefix : Text) (e : GoError) (extra_filters : List Text)
    → is_range_too_large_error_with_filters (some e) extra_filters ≡ true
    → is_range_too_large_error_with_filters (some (wrap prefix e)) extra_filters ≡ true
unfolding error_text
is_range_too_large_error-wrap prefix e fs h = (is_range_too_large_error_lem (wrap prefix e) fs).1 (
    rw to_lower-append
      (NamesRange-append (to_lower prefix) _ fs ((is_range_too_large_error_lem e fs).0 h)))
