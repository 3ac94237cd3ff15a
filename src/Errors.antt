-- ===== src/Errors.antt =====
-- errors.go: the error values, and the classifiers that read their text.
-- A Go `error` is a sentinel, an error of a library or a listener (`plain`), or one that `fmt.Errorf`
-- built with one `%w`, behind a text (`wrap`) or before one (`wrap_then`), or with two (`wrap_both`).
-- `nil` is `none`.
pub mod Wrapping
mod Tests
use go_block_walk.Prelude.{
  Text, codes, Bool, true, false, ◌||◌, List, [], ◌∷◌, ◌++◌, Option, none, some, map, ◌≡◌, refl,
  ◌⊎◌, inl, inr, if◌then◌else◌, not,
}
use go_block_walk.Prelude.Strings.{contains, contains_any, to_lower}

pub data Sentinel : Type 0 where
  already_running indexer_stopped no_available_provider : Sentinel
  quota_exceeded retries_exhausted provider_pool_exhausted : Sentinel

pub data GoError : Type 0 where
  sentinel : Sentinel → GoError
  plain : Text → GoError
  wrap : Text → GoError → GoError
  wrap_then : GoError → Text → GoError
  wrap_both : GoError → Text → GoError → GoError

unfoldable pub sentinel_text : Sentinel → Text
sentinel_text already_running = codes "idx: indexer already running"
sentinel_text indexer_stopped = codes "idx: indexer already stopped"
sentinel_text no_available_provider = codes "idx: no available provider"
sentinel_text quota_exceeded = codes "idx: provider quota exceeded"
sentinel_text retries_exhausted = codes "idx: retry attempts exhausted"
sentinel_text provider_pool_exhausted = codes "idx: provider pool exhausted"

-- err.Error()
unfoldable pub error_text : GoError → Text
unfolding sentinel_text
error_text (sentinel s) = sentinel_text s
error_text (plain t) = t
error_text (wrap prefix e) = prefix ++ error_text e
error_text (wrap_then e t) = error_text e ++ t
error_text (wrap_both e t f) = error_text e ++ (t ++ error_text f)

unfoldable pub sentinel_eq : Sentinel → Sentinel → Bool
sentinel_eq already_running already_running = true
sentinel_eq indexer_stopped indexer_stopped = true
sentinel_eq no_available_provider no_available_provider = true
sentinel_eq quota_exceeded quota_exceeded = true
sentinel_eq retries_exhausted retries_exhausted = true
sentinel_eq provider_pool_exhausted provider_pool_exhausted = true
sentinel_eq _ _ = false

-- errors.Is(err, s)
unfoldable pub errors_is : GoError → Sentinel → Bool
unfolding sentinel_eq
errors_is (sentinel r) s = sentinel_eq r s
errors_is (plain t) s = false
errors_is (wrap prefix e) s = errors_is e s
errors_is (wrap_then e t) s = errors_is e s
errors_is (wrap_both e t f) s = errors_is e s || errors_is f s

unfoldable pub is_local_decode_error : Option GoError → Bool
unfolding error_text contains
is_local_decode_error none = false
is_local_decode_error (some e) = contains (error_text e) (codes "transaction type not supported")

abbrev pub default_range_too_large_filters : List Text
default_range_too_large_filters =
    codes "large" ∷ codes "limit" ∷ codes "exceed" ∷ codes "too many" ∷ []

unfoldable pub is_range_too_large_error_with_filters : Option GoError → List Text → Bool
unfolding error_text contains contains_any to_lower
is_range_too_large_error_with_filters none extra_filters = false
is_range_too_large_error_with_filters (some e) extra_filters =
    let s = to_lower (error_text e) in
    if not (contains s (codes "range"))
    then false
    else if contains_any s default_range_too_large_filters
    then true
    else contains_any s (map to_lower extra_filters)

unfoldable pub is_range_too_large_error : Option GoError → Bool
unfolding is_range_too_large_error_with_filters
is_range_too_large_error e = is_range_too_large_error_with_filters e []

-- What a call returns beside its error: `(value, nil)` or an error.
pub data Result {ℓ} (A : Type ℓ) : Type ℓ where
  ok : A → Result A
  err : GoError → Result A

pub Result-cases {ℓ} :
    {A : Type ℓ} (r : Result A) → ((a : A) × (r ≡ ok a)) ⊎ ((e : GoError) × (r ≡ err e))
Result-cases (ok a) = inl (a, refl)
Result-cases (err e) = inr (e, refl)
