-- ===== src/Indexer/Contexts.antt =====
-- The context that processBlock of indexer.go adds to an error does not make it a local decode error.
use go_block_walk.Prelude.{ℕ, ◌≡◌, ◌++◌, refl, true, some, Text, codes, arith}
use go_block_walk.Prelude.Strings.{decimal}
use go_block_walk.Prelude.Strings.Clear.{
  is_clear, differs, is_clear-append, is_clear-decimal, contains-clear,
}
use go_block_walk.Errors.{GoError, wrap, error_text, is_local_decode_error}
use go_block_walk.Indexer.{about_block}

abbrev marker : Text
marker = codes "transaction type not supported"

is_clear-separator : is_clear marker (codes ": ") ≡ true
unfolding is_clear differs
is_clear-separator = refl

is_clear-about_block :
    (what : Text) (b : ℕ)
    → is_clear marker what ≡ true
    → is_clear marker (about_block what b) ≡ true
is_clear-about_block what b c =
    is_clear-append marker (what ++ decimal b) (codes ": ")
      (is_clear-append marker what (decimal b) c (is_clear-decimal _ _ b (omega arith)))
      is_clear-separator

decode_error-about_block :
    (what : Text) (b : ℕ) (e : GoError)
    → is_clear marker what ≡ true
    → is_local_decode_error (some (wrap (about_block what b) e)) ≡ true
    → is_local_decode_error (some e) ≡ true
unfolding is_local_decode_error error_text
decode_error-about_block what b e c d =
    contains-clear marker (about_block what b) (error_text e) (is_clear-about_block what b c) d

pub decode_error-header :
    (b : ℕ) (e : GoError)
    → is_local_decode_error
        (some (wrap (about_block (codes "failed to get header for block ") b) e))
      ≡ true
    → is_local_decode_error (some e) ≡ true
unfolding is_clear differs
decode_error-header b e =
    decode_error-about_block (codes "failed to get header for block ") b e refl

pub decode_error-logs :
    (b : ℕ) (e : GoError)
    → is_local_decode_error (some (wrap (about_block (codes "failed to get logs for block ") b) e))
      ≡ true
    → is_local_decode_error (some e) ≡ true
unfolding is_clear differs
decode_error-logs b e = decode_error-about_block (codes "failed to get logs for block ") b e refl

pub decode_error-dispatch :
    (b : ℕ) (e : GoError)
    → is_local_decode_error
        (some (wrap (about_block (codes "failed to dispatch log for block ") b) e))
      ≡ true
    → is_local_decode_error (some e) ≡ true
unfolding is_clear differs
decode_error-dispatch b e =
    decode_error-about_block (codes "failed to dispatch log for block ") b e refl
