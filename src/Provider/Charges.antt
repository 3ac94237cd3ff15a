-- ===== src/Provider/Charges.antt =====
-- What it means that the quota of provider.go is charged for the calls of the client.
use go_block_walk.Prelude.{
  ℕ, ◌+◌, ◌≤◌, ◌≡◌, sym, ap, ◌∙◌, Option, none, some, List, [], ◌∷◌, ◌++◌, All, arith,
}
use go_block_walk.Prelude.Int.{ℤ}
use go_block_walk.Errors.{GoError}
use go_block_walk.Breaker.{Try}
use go_block_walk.Quota.{QuotaManager, consume_all}
use go_block_walk.Quota.Window.{consume_all-append}

-- What the Execute of gobreaker does with a request: it refuses with an error, or it runs the request
-- once and returns its error. Its own state is in the world, and it makes no call of the client.
pub data Executed {S W : Type 0} (calls : W → ℕ) (request : Try (S × W)) (s : S) (w : W)
    : Option GoError × (S × W) → Type 0 where
  rejected :
      (e : GoError) (w' : W) → calls w' ≡ calls w → Executed calls request s w (some e, (s, w'))
  ran :
      (w₁ w₂ : W)
      → calls w₁ ≡ calls w
      → calls w₂ ≡ calls (request (s, w₁)).1.1
      → Executed calls request s w ((request (s, w₁)).0, ((request (s, w₁)).1.0, w₂))

-- From one state to the next: calls of the client were made, one for each request that the quota
-- granted at some instants, all of which satisfy `P`, and at least `least` of them.
pub record Charges {A W : Type 0} (calls : W → ℕ) (P : ℤ → Type 0) (least : ℕ)
    (s s' : (A × QuotaManager) × W) : Type 0 where
  pub times : List ℤ
  pub instants : All P times
  pub quota : s'.0.1 ≡ (consume_all s.0.1 times).1
  pub made : calls s'.1 ≡ calls s.1 + (consume_all s.0.1 times).0
  pub enough : least ≤ (consume_all s.0.1 times).0

pub All-append : (P : ℤ → Type 0) (xs ys : List ℤ) → All P xs → All P ys → All P (xs ++ ys)
All-append P [] ys a b = b
All-append P (x ∷ xs) ys a b = (a.0, All-append P xs ys a.1 b)

abbrev pub served : Option GoError → ℕ
served none = 1
served (some e) = 0

module _ {A W : Type 0} (calls : W → ℕ) (P : ℤ → Type 0) where
  pub Charges-kept :
      (s s' : (A × QuotaManager) × W)
      → s'.0.1 ≡ s.0.1
      → calls s'.1 ≡ calls s.1
      → Charges calls P 0 s s'
  unfolding consume_all
  Charges-kept s s' q c = record {
    times = [];
    instants = tt;
    quota = q;
    made = omega (arith, c);
    enough = omega arith;
  }

  pub Charges-trans :
      (m n : ℕ) (s s' s'' : (A × QuotaManager) × W)
      → Charges calls P m s s'
      → Charges calls P n s' s''
      → Charges calls P (m + n) s s''
  Charges-trans m n s s' s'' a b =
      let both = consume_all-append s.0.1 a.times b.times in
      let same : consume_all s'.0.1 b.times ≡ consume_all (consume_all s.0.1 a.times).1 b.times =
        ap (λ q. consume_all q b.times) a.quota in
      let counted = ap (λ p. p.0) same in
      record {
        times = a.times ++ b.times;
        instants = All-append P a.times b.times a.instants b.instants;
        quota = b.quota ∙ ap (λ p. p.1) same ∙ sym both.1;
        made = omega (arith, a.made, b.made, both.0, counted);
        enough = omega (arith, a.enough, b.enough, both.0, counted);
      }

  pub Charges-weaken :
      (n : ℕ) (s s' : (A × QuotaManager) × W) → Charges calls P n s s' → Charges calls P 0 s s'
  Charges-weaken n s s' c = record {
    times = c.times;
    instants = c.instants;
    quota = c.quota;
    made = c.made;
    enough = omega arith;
  }
