-- ===== src/Indexer/Quiet.antt =====
-- Actions that make no successful `SetLastBlock`: what holds of the calls before them holds after.
use go_block_walk.Prelude.{ℕ, Bool, true, false, Text, List, [], ◌∷◌, if◌then◌else◌}
use go_block_walk.Errors.{GoError, Result, ok, err}
use go_block_walk.Dispatcher.{Log}
use go_block_walk.Ports.{Call, Env, stored_last_block}
use go_block_walk.Hashes.{HashWindow}
use go_block_walk.Exhaustion.{ExhaustionTracker}
use go_block_walk.Indexer.Actions.{
  Indexer, Outcome, done, failed, spinning, Exec, pure, fail, gets, ask, must, attempt, prefixed,
  set_window, set_exhaustion, continue, ◌>>=◌,
}
use go_block_walk.Indexer.{
  IndexerConfig, header_by_number, dispatch_log, max_log_block_range, record_hash, store_scores,
  persist_scores, persist_quotas, persist_provider_state, dispatch_all,
}

abbrev pub IsQuiet : {F : Type 0} → Call F → Type 0
IsQuiet (stored_last_block b r) = ⊥
IsQuiet _ = Unit

pub record Grows {F : Type 0} (P : List (Call F) → Type 0) : Type 0 where
  pub grow : (c : Call F) (t : List (Call F)) → IsQuiet c → P t → P (c ∷ t)

pub record Quiet {F A : Type 0} (m : Exec F A) : Type 1 where
  pub at : (P : List (Call F) → Type 0) → Grows P → (s : Indexer F) → P s.calls → P (m s).1.calls

module _ {F A : Type 0} where
  pub Quiet-pure : (a : A) → Quiet {F = F} (pure a)
  unfolding ◌>>=◌
  Quiet-pure a = record { at = λ P g s h. h }

  pub Quiet-fail : (e : GoError) → Quiet {F = F} {A = A} (fail e)
  unfolding ◌>>=◌
  Quiet-fail e = record { at = λ P g s h. h }

  pub Quiet-gets : (f : Indexer F → A) → Quiet (gets f)
  unfolding ◌>>=◌
  Quiet-gets f = record { at = λ P g s h. h }

  pub Quiet-ask :
      (f : List (Call F) → A) (c : A → Call F) → ((a : A) → IsQuiet (c a)) → Quiet (ask f c)
  unfolding ◌>>=◌
  Quiet-ask f c q = record { at = λ P g s h. g.grow (c (f s.calls)) s.calls (q (f s.calls)) h }

  pub Quiet-must : (prefix : Text) (r : Result A) → Quiet {F = F} (must prefix r)
  unfolding ◌>>=◌
  Quiet-must prefix (ok a) = record { at = λ P g s h. h }
  Quiet-must prefix (err e) = record { at = λ P g s h. h }

  pub Quiet-if : (b : Bool) (m n : Exec F A) → Quiet m → Quiet n → Quiet (if b then m else n)
  Quiet-if true m n qm qn = qm
  Quiet-if false m n qm qn = qn

  pub Quiet-attempt : (m : Exec F A) → Quiet m → Quiet (attempt m)
  unfolding ◌>>=◌
  Quiet-attempt m q = record { at = λ P g s h. q.at P g s h }

  pub Quiet-prefixed : (p : Text) (m : Exec F A) → Quiet m → Quiet (prefixed p m)
  unfolding ◌>>=◌
  Quiet-prefixed p m q = record { at = λ P g s h. q.at P g s h }

module _ {F A B : Type 0} where
  Quiet-continue :
      (P : List (Call F) → Type 0) (g : Grows P) (r : Outcome A) (f : A → Exec F B)
      → ((a : A) → Quiet (f a))
      → (s : Indexer F) → P s.calls
      → P (continue r f s).1.calls
  unfolding ◌>>=◌
  Quiet-continue P g (done a) f q s h = (q a).at P g s h
  Quiet-continue P g (failed e) f q s h = h
  Quiet-continue P g spinning f q s h = h

  pub Quiet-bind :
      (m : Exec F A) (f : A → Exec F B) → Quiet m → ((a : A) → Quiet (f a)) → Quiet (m >>= f)
  unfolding ◌>>=◌
  Quiet-bind m f qm qf = record {
    at = λ P g s h. Quiet-continue P g (m s).0 f qf (m s).1 (qm.at P g s h);
  }

module _ {F : Type 0} where
  pub Quiet-set_window : (w : HashWindow) → Quiet {F = F} (set_window w)
  unfolding ◌>>=◌
  Quiet-set_window w = record { at = λ P g s h. h }

  pub Quiet-set_exhaustion : (t : ExhaustionTracker) → Quiet {F = F} (set_exhaustion t)
  unfolding ◌>>=◌
  Quiet-set_exhaustion t = record { at = λ P g s h. h }

pub ruleset quiet_rules = (
  Quiet-pure, Quiet-fail, Quiet-gets, Quiet-must, Quiet-if, Quiet-attempt, Quiet-prefixed,
  Quiet-bind, Quiet-set_window, Quiet-set_exhaustion,
)

module _ {F : Type 0} (cfg : IndexerConfig) (env : Env F) where
  pub Quiet-header_by_number : (b : ℕ) → Quiet (header_by_number cfg env b)
  unfolding header_by_number
  Quiet-header_by_number b = Quiet-ask _ _ (λ _. tt)

  pub Quiet-dispatch_log : (l : Log) (time : ℕ) → Quiet (dispatch_log cfg env l time)
  unfolding dispatch_log
  Quiet-dispatch_log l time = Quiet-ask _ _ (λ _. tt)

  pub Quiet-max_log_block_range : Quiet (max_log_block_range cfg env)
  unfolding max_log_block_range
  Quiet-max_log_block_range = Quiet-ask _ _ (λ _. tt)

  pub Quiet-record_hash : (b hash : ℕ) → Quiet (record_hash cfg env b hash)
  unfolding record_hash
  Quiet-record_hash b hash = search quiet_rules

  Quiet-store_scores : (scores : List (Text × F)) → Quiet (store_scores cfg env scores)
  unfolding store_scores
  Quiet-store_scores [] = Quiet-pure tt
  Quiet-store_scores ((p, x) ∷ rest) =
      Quiet-bind _ _ (Quiet-ask _ _ (λ _. tt)) (λ _. Quiet-store_scores rest)

  pub Quiet-persist_provider_state : Quiet (persist_provider_state cfg env)
  unfolding persist_provider_state persist_scores persist_quotas
  Quiet-persist_provider_state =
      Quiet-bind _ _
        (Quiet-if env.keeps_scores _ _
          (Quiet-bind _ _ (Quiet-ask _ _ (λ _. tt)) (λ scores. Quiet-store_scores scores))
          (Quiet-pure tt))
        (λ _.
          Quiet-if env.keeps_quotas _ _
            (Quiet-bind _ _ (Quiet-ask _ _ (λ _. tt)) (λ _. Quiet-pure tt)) (Quiet-pure tt))

  pub Quiet-dispatch_all : (b time : ℕ) (ls : List Log) → Quiet (dispatch_all cfg env b time ls)
  unfolding dispatch_all
  Quiet-dispatch_all b time [] = Quiet-pure tt
  Quiet-dispatch_all b time (l ∷ ls) =
      Quiet-bind _ _ (Quiet-dispatch_log l time)
        (λ r. Quiet-bind _ _ (Quiet-must _ r) (λ _. Quiet-dispatch_all b time ls))
