-- ===== src/Indexer/Ends.antt =====
-- Actions that come to an end: they succeed or fail, and are never left spinning.
use go_block_walk.Prelude.{
  ℕ, ◌≡◌, ◌≢◌, refl, subst, List, [], ◌∷◌, some, Text, Bool, true, false, if◌then◌else◌,
}
use go_block_walk.Errors.{GoError, Result, ok, err, is_local_decode_error}
use go_block_walk.Hashes.{HashWindow}
use go_block_walk.Dispatcher.{Log}
use go_block_walk.Ports.{Call, Env}
use go_block_walk.Indexer.Actions.{
  Indexer, Outcome, done, failed, spinning, Exec, pure, fail, gets, ask, must, attempt, caught,
  set_window, continue, ◌>>=◌,
}
use go_block_walk.Indexer.{
  IndexerConfig, header_by_number, dispatch_log, record_hash, store_last_block, store_scores,
  persist_scores, persist_quotas, persist_provider_state, save_progress, dispatch_all,
  process_block, skip_or_fail, sync_one_block,
}

abbrev pub Ended : {A : Type 0} → (A → Type 0) → Outcome A → Type 0
Ended Q (done a) = Q a
Ended Q (failed e) = Unit
Ended Q spinning = ⊥

-- From any state the action fails, or succeeds with a value in `Q`.
pub record Ends {F A : Type 0} (m : Exec F A) (Q : A → Type 0) : Type 0 where
  pub at : (s : Indexer F) → Ended Q (m s).0

abbrev pub Halts : {F A : Type 0} → Exec F A → Type 0
Halts m = Ends m (λ _. Unit)

module _ {A : Type 0} where
  Ended-caught : (r : Outcome A) → Ended (λ _. Unit) r → Ended (λ _. Unit) (caught r)
  Ended-caught (done a) h = tt
  Ended-caught (failed e) h = tt
  Ended-caught spinning h = h

  Ended-not_spinning : (Q : A → Type 0) (r : Outcome A) → Ended Q r → r ≢ spinning
  Ended-not_spinning Q r h e = subst (Ended Q) e h

module _ {F A : Type 0} where
  pub Ends-pure : (Q : A → Type 0) (a : A) → Q a → Ends {F = F} (pure a) Q
  unfolding pure
  Ends-pure Q a q = record { at = λ s. q }

  pub Ends-fail : (Q : A → Type 0) (e : GoError) → Ends {F = F} (fail e) Q
  unfolding fail
  Ends-fail Q e = record { at = λ s. tt }

  pub Ends-ask :
      (Q : A → Type 0) (f : List (Call F) → A) (c : A → Call F)
      → ((t : List (Call F)) → Q (f t))
      → Ends (ask f c) Q
  unfolding ask
  Ends-ask Q f c q = record { at = λ s. q s.calls }

  Halts-gets : (f : Indexer F → A) → Halts (gets f)
  unfolding gets
  Halts-gets f = record { at = λ s. tt }

  pub Halts-must : (prefix : Text) (r : Result A) → Halts {F = F} (must prefix r)
  unfolding must pure fail
  Halts-must prefix (ok a) = record { at = λ s. tt }
  Halts-must prefix (err e) = record { at = λ s. tt }

  pub Ends-if :
      (Q : A → Type 0) (b : Bool) (m n : Exec F A)
      → (b ≡ true → Ends m Q)
      → (b ≡ false → Ends n Q)
      → Ends (if b then m else n) Q
  Ends-if Q true m n em en = em refl
  Ends-if Q false m n em en = en refl

  Halts-attempt : (m : Exec F A) → Halts m → Halts (attempt m)
  unfolding attempt
  Halts-attempt m h = record { at = λ s. Ended-caught (m s).0 (h.at s) }

  pub Ends-not_spinning :
      (Q : A → Type 0) (m : Exec F A) → Ends m Q → (s : Indexer F) → (m s).0 ≢ spinning
  Ends-not_spinning Q m h s = Ended-not_spinning Q (m s).0 (h.at s)

Halts-set_window : {F : Type 0} (w : HashWindow) → Halts {F = F} (set_window w)
unfolding set_window
Halts-set_window w = record { at = λ s. tt }

module _ {F A B : Type 0} where
  Ended-continue :
      (Q : A → Type 0) (R : B → Type 0) (r : Outcome A) (f : A → Exec F B) (s : Indexer F)
      → Ended Q r
      → ((a : A) → Q a → Ends (f a) R)
      → Ended R (continue r f s).0
  Ended-continue Q R (done a) f s q k = (k a q).at s
  Ended-continue Q R (failed e) f s q k = tt
  Ended-continue Q R spinning f s q k = q

  pub Ends-bind :
      (Q : A → Type 0) (R : B → Type 0) (m : Exec F A) (f : A → Exec F B)
      → Ends m Q
      → ((a : A) → Q a → Ends (f a) R)
      → Ends (m >>= f) R
  unfolding ◌>>=◌
  Ends-bind Q R m f em ef = record { at = λ s. Ended-continue Q R (m s).0 f (m s).1 (em.at s) ef }

  -- What follows an action whose value does not matter.
  pub Ends-then :
      (R : B → Type 0) (m : Exec F A) (f : A → Exec F B)
      → Halts m
      → ((a : A) → Ends (f a) R)
      → Ends (m >>= f) R
  Ends-then R m f em ef = Ends-bind (λ _. Unit) R m f em (λ a _. ef a)

module _ {F : Type 0} (cfg : IndexerConfig) (env : Env F) where
  pub Halts-header_by_number : (b : ℕ) → Halts (header_by_number cfg env b)
  unfolding header_by_number
  Halts-header_by_number b = Ends-ask _ _ _ (λ _. tt)

  pub Halts-dispatch_log : (l : Log) (time : ℕ) → Halts (dispatch_log cfg env l time)
  unfolding dispatch_log
  Halts-dispatch_log l time = Ends-ask _ _ _ (λ _. tt)

  pub Halts-record_hash : (b hash : ℕ) → Halts (record_hash cfg env b hash)
  unfolding record_hash
  Halts-record_hash b hash = Ends-then _ _ _ (Halts-gets _) (λ w. Halts-set_window _)

  Halts-store_last_block : (b : ℕ) → Halts (store_last_block cfg env b)
  unfolding store_last_block
  Halts-store_last_block b =
      Ends-if _ cfg.debug_mode _ _ (λ _. Ends-pure _ (ok tt) tt) (λ _. Ends-ask _ _ _ (λ _. tt))

  Halts-store_scores : (scores : List (Text × F)) → Halts (store_scores cfg env scores)
  unfolding store_scores
  Halts-store_scores [] = Ends-pure _ _ tt
  Halts-store_scores ((provider, score) ∷ rest) =
      Ends-then _ _ _ (Ends-ask _ _ _ (λ _. tt)) (λ _. Halts-store_scores rest)

  Halts-persist_provider_state : Halts (persist_provider_state cfg env)
  unfolding persist_provider_state persist_scores persist_quotas
  Halts-persist_provider_state =
      Ends-then _ _ _
        (Ends-if _ env.keeps_scores _ _
          (λ _. Ends-then _ _ _ (Ends-ask _ _ _ (λ _. tt)) Halts-store_scores)
          (λ _. Ends-pure _ _ tt))
        (λ _.
          Ends-if _ env.keeps_quotas _ _
            (λ _. Ends-then _ _ _ (Ends-ask _ _ _ (λ _. tt)) (λ _. Ends-pure _ _ tt))
            (λ _. Ends-pure _ _ tt))

  pub Halts-save_progress : (b : ℕ) → Halts (save_progress cfg env b)
  unfolding save_progress
  Halts-save_progress b =
      Ends-then _ _ _ (Halts-store_last_block b)
        (λ r. Ends-then _ _ _ (Halts-must _ r) (λ _. Halts-persist_provider_state))

  Halts-dispatch_all : (b time : ℕ) (logs : List Log) → Halts (dispatch_all cfg env b time logs)
  unfolding dispatch_all
  Halts-dispatch_all b time [] = Ends-pure _ _ tt
  Halts-dispatch_all b time (l ∷ ls) =
      Ends-then _ _ _ (Halts-dispatch_log l time)
        (λ r. Ends-then _ _ _ (Halts-must _ r) (λ _. Halts-dispatch_all b time ls))

  Halts-process_block : (b : ℕ) → Halts (process_block cfg env b)
  unfolding process_block
  Halts-process_block b = Ends-then _ _ _ (Halts-header_by_number b) λ r.
      Ends-then _ _ _ (Halts-must _ r) λ header.
        Ends-then _ _ _ (Halts-record_hash b header.hash) λ _.
          Ends-then _ _ _ (Ends-ask _ _ _ (λ _. tt))
            λ r'. Ends-then _ _ _ (Halts-must _ r') λ logs. Halts-dispatch_all b header.time logs

  Halts-skip_or_fail : (b : ℕ) (r : Result (Unit {0})) → Halts (skip_or_fail cfg env b r)
  unfolding skip_or_fail
  Halts-skip_or_fail b (ok _) = Ends-pure _ _ tt
  Halts-skip_or_fail b (err e) =
      Ends-if _ (is_local_decode_error (some e)) _ _ (λ _. Ends-pure _ _ tt) (λ _. Ends-fail _ _)

  pub Halts-sync_one_block : (b : ℕ) → Halts (sync_one_block cfg env b)
  unfolding sync_one_block
  Halts-sync_one_block b =
      Ends-then _ _ _ (Halts-attempt _ (Halts-process_block b))
        λ r. Ends-then _ _ _ (Halts-skip_or_fail b r) λ _. Halts-save_progress b
