-- ===== src/Indexer/Sync/Positions.antt =====
-- The position of a sync (indexer.go) over a storage that remembers what was stored: all below it was
-- handled.
use go_block_walk.Prelude.{
  ℕ, ◌+◌, ◌≤◌, ◌≡◌, ◌⊎◌, inl, inr, refl, sym, subst, false, List, [], ◌∷◌, arith,
}
use go_block_walk.Errors.{Result, ok, err, Result-cases}
use go_block_walk.Ports.{Call, Env, stored_last_block}
use go_block_walk.Indexer.Actions.{Indexer, ◌>>=◌}
use go_block_walk.Indexer.{IndexerConfig, store_last_block}
use go_block_walk.Indexer.Quiet.{IsQuiet, Grows}
use go_block_walk.Indexer.Handled.{
  Handled, Handled-cons, Justified, Justified-tail, Covered, Covered-le, Grows-Covered,
}
use go_block_walk.Indexer.Sound.{Sound}
use go_block_walk.Indexer.Sync.{first_position, rewind_target}

-- What the last successful `SetLastBlock` stored; 0 if there was none.
unfoldable pub last_stored : {F : Type 0} → List (Call F) → ℕ
last_stored [] = 0
last_stored (stored_last_block n (ok u) ∷ t) = n
last_stored (_ ∷ t) = last_stored t

-- The storage gives back what was stored last.
abbrev pub Remembers : {F : Type 0} → Env F → Type 0
Remembers {F} env = (t : List (Call F)) → env.last_block t ≡ ok (last_stored t)

module _ {F : Type 0} (cfg : IndexerConfig) (env : Env F) where
  last_stored-quiet :
      (c : Call F) (t : List (Call F)) → IsQuiet c → last_stored (c ∷ t) ≡ last_stored t
  unfolding last_stored
  last_stored-quiet (stored_last_block n r) t q = elim q [ ]
  last_stored-quiet _ t q = refl

  -- The first block that is indexed: StartBlock, or 1 if that is 0.
  abbrev pub first_block : ℕ
  first_block = first_position cfg env 0 + 1

  -- All up to `p` was handled, and `p` is not beyond where a sync would begin.
  pub record Reached (p : ℕ) (t : List (Call F)) : Type 0 where
    pub covered : Covered first_block (p + 1) t
    pub bounded : p ≤ first_position cfg env (last_stored t)

  pub Grows-Reached : (p : ℕ) → Grows (Reached p)
  Grows-Reached p = record {
    grow = λ c t q r. record {
      covered = (Grows-Covered first_block (p + 1)).grow c t q r.covered;
      bounded = subst (λ n. p ≤ first_position cfg env n) (sym (last_stored-quiet c t q)) r.bounded;
    };
  }

  pub Handled-last_stored :
      (lo : ℕ) (t : List (Call F)) (b : ℕ)
      → Justified lo t
      → 1 ≤ lo
      → lo ≤ b
      → b ≤ last_stored t
      → Handled b t
  unfolding last_stored
  Handled-last_stored lo [] b j p l u = absurd (omega arith)
  Handled-last_stored lo (stored_last_block n (ok v) ∷ t) b j p l u = Handled-cons _ (j.0 b l u)
  Handled-last_stored lo (stored_last_block n (err e) ∷ t) b j p l u =
      Handled-cons _ (Handled-last_stored lo t b j p l u)
  Handled-last_stored lo (c ∷ t) b j p l u =
      Handled-cons c (Handled-last_stored lo t b (Justified-tail lo c t j) p l u)

  first_position_lem :
      (n : ℕ)
      → (n ≤ first_position cfg env n)
        × ((first_position cfg env n ≡ n) ⊎ (first_position cfg env n ≡ first_position cfg env 0))
  unfolding first_position
  first_position_lem n = ground arith

  -- Where a sync begins over a storage that remembers.
  pub Reached-first :
      (t : List (Call F))
      → Justified first_block t
      → Reached (first_position cfg env (last_stored t)) t
  Reached-first t j = record {
    covered = record {
      justified = j;
      handled = λ b l u. elim (first_position_lem (last_stored t)).1 [
        | inl same ↦ Handled-last_stored first_block t b j (omega arith) l (omega arith)
        | inr fresh ↦ absurd (omega arith)
      ];
    };
    bounded = omega arith;
  }

  pub Reached-le : (p q : ℕ) (t : List (Call F)) → q ≤ p → Reached p t → Reached q t
  Reached-le p q t l r = record {
    covered = Covered-le first_block (q + 1) (p + 1) t (omega arith) r.covered;
    bounded = omega (arith, r.bounded);
  }

  -- Storing a position up to which all was handled.
  abbrev pub Stored : ℕ → Result (Unit {0}) → List (Call F) → Type 0
  Stored n (ok u) t = Reached n t
  Stored n (err e) t = Justified first_block t

  pub store_last_block-Sound :
      (n : ℕ) (s : Indexer F)
      → cfg.debug_mode ≡ false
      → Covered first_block (n + 1) s.calls
      → Sound first_block (store_last_block cfg env n) s (Stored n)
  unfolding store_last_block ◌>>=◌ last_stored
  store_last_block-Sound n s real c = elim (Result-cases (env.store s.calls n)) [
    | inl (u, e) ↦ record {
      at =
          simp (real, e)
            (record {
              covered = record {
                justified = ((λ b l u. c.handled b l (omega arith)), c.justified);
                handled = λ b l u. Handled-cons _ (c.handled b l u);
              };
              bounded = (first_position_lem n).0;
            });
    }
    | inr (x, e) ↦ record { at = simp (real, e) c.justified }
  ]

  -- A rewind does not go forward, if StartBlock is not above 1.
  pub rewind_target_le :
      (last : ℕ) → cfg.start_block ≤ 1 → 1 ≤ last → rewind_target cfg env last ≤ last
  unfolding rewind_target
  rewind_target_le last low p = ground arith
