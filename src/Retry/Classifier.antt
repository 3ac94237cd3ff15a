-- ===== src/Retry/Classifier.antt =====
-- Which errors WithRetry of retry.go may try again.
use go_block_walk.Prelude.{◌≡◌, true, false, some, Text, arith}
use go_block_walk.Prelude.Strings.{
  contains_any, to_lower, contains_any-append_right, to_lower-append,
}
use go_block_walk.Errors.{GoError, wrap, error_text}
use go_block_walk.Retry.{is_retryable, non_retryable_errors}

-- An error whose lowered text has an authorization keyword is not retried, under any added context.
pub is_retryable-wrap :
    (prefix : Text) (e : GoError)
    → contains_any (to_lower (error_text e)) non_retryable_errors ≡ true
    → is_retryable (some (wrap prefix e)) ≡ false
unfolding is_retryable error_text
is_retryable-wrap prefix e h = rw to_lower-append (
    ground (
      arith,
      contains_any-append_right (to_lower prefix) (to_lower (error_text e)) non_retryable_errors h,
    ))
