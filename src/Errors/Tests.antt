-- ===== src/Errors/Tests.antt =====
-- Error classification on concrete messages.
use go_block_walk.Prelude.{codes, ◌≡◌, refl, true, false, some, [], ◌∷◌, ◌↔◌}
use go_block_walk.Prelude.Strings.{to_lower}
use go_block_walk.Errors.{
  GoError, plain, error_text, is_range_too_large_error, is_range_too_large_error_with_filters,
}
use go_block_walk.Errors.Wrapping.{Oversized, is_range_too_large_error_iff}

abbrev decode_error : GoError
decode_error = plain (codes "transaction type not supported")

abbrev range_error : GoError
range_error = plain (codes "Block Range exceeds 2000")

is_range_too_large_error_iff_example :
    (is_range_too_large_error_with_filters (some range_error) (codes "Capped" ∷ []) ≡ true)
    ↔ Oversized (codes "Capped" ∷ []) (to_lower (error_text range_error))
is_range_too_large_error_iff_example =
    is_range_too_large_error_iff range_error (codes "Capped" ∷ [])

-- An error of another kind is not an oversized range.
timeout-not_range : is_range_too_large_error (some (plain (codes "timeout"))) ≡ false
unfolding is_range_too_large_error
timeout-not_range = refl
