-- ===== src/Dispatcher/Tests.antt =====
-- Dispatch to concrete listeners, which keep a list of the blocks they saw.
use go_block_walk.Prelude.{ℕ, ◌≡◌, ◌↔◌, List, [], ◌∷◌, codes}
use go_block_walk.Errors.{GoError, plain, ok, err}
use go_block_walk.Dispatcher.{Log, Listener, dispatch, Accepts, dispatch-ok_iff}

abbrev saves : Listener (List ℕ)
saves log time seen = (ok tt, log.block_number ∷ seen)

abbrev broken : GoError
broken = plain (codes "database is down")

abbrev fails : Listener (List ℕ)
fails log time seen = (err broken, 0 ∷ seen)

abbrev some_log : Log
some_log = record { block_number = 7; content = [] }

dispatch-ok_iff_example :
    (dispatch (record { listeners = saves ∷ saves ∷ [] }) some_log 1 [] ≡ (ok tt, 7 ∷ 7 ∷ []))
    ↔ Accepts some_log 1 (saves ∷ saves ∷ []) [] (7 ∷ 7 ∷ [])
dispatch-ok_iff_example = dispatch-ok_iff some_log 1 (saves ∷ saves ∷ []) [] (7 ∷ 7 ∷ [])
