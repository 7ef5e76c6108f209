-- ===== src/Ledger/Transacting.antt =====
-- What a call does to the ledger as a whole: nothing if it raises, and one commit if it returns.
use debot.Base.{ℕ, ◌<◌, ◌≤◌, ◌≡◌, refl, List, [], ◌∷◌, Option, none, some, arith, All, Result, max}
use debot.Ledger.Codec.{Python}
use debot.Ledger.Transaction.{Store, newest, commit_time, stamp_of}
use debot.Ledger.Requests.{Request, answer}
use debot.Ledger.Appending.{All-weaken}
use debot.Ledger.History.{newest-cons}
use debot.Ledger.Growth.{Grows, Grows-Methods}
use debot.Ledger.Effects.{Effect, answer-Effect}

-- A bound of the newest commit is one of all commits.
newest-bounds : (ts : List ℕ) (b : ℕ) → ((u : ℕ) → newest ts ≡ some u → u ≤ b) → All (λ t. t ≤ b) ts
newest-bounds [] b h = tt
newest-bounds (t ∷ ts) b h = (
  head (newest ts) refl,
  newest-bounds ts b (λ u e. omega (arith, h (max t u) (newest-cons t ts u e))),
)
  where
    head : (o : Option ℕ) → newest ts ≡ o → t ≤ b
    head none e = h t (rw e refl)
    head (some v) e = omega (arith, h (max t v) (newest-cons t ts v e))

-- The time of a new commit is after every commit.
commit_time-later : (raw : ℕ) (ts : List ℕ) → All (λ t. t < commit_time raw (newest ts)) ts
commit_time-later raw [] = tt
commit_time-later raw (t ∷ ts) = split (newest (t ∷ ts)) refl
  where
    split : (o : Option ℕ) → newest (t ∷ ts) ≡ o → All (λ t. t < commit_time raw o) (t ∷ ts)
    split none e = absurd (ground arith)
    split (some u) e =
        All-weaken (λ t. t ≤ u) (λ t. t < commit_time raw (some u)) (λ t h. omega arith) (t ∷ ts)
          (newest-bounds (t ∷ ts) u (λ v f. ground arith))

-- What a call does: `committed` is one commit after every earlier one.
pub record Transacts (store : Store) (result : Result (Unit {0}) × Store) : Type 0 where
  pub effect : Effect Grows store result
  pub later : (raw : ℕ) → All (λ t. t < (stamp_of raw store.commits).now) store.commits

-- Every call of a method that writes, also of one that composes several, and of `close`, either raises and
-- leaves the ledger as it was, or closes it, or returns from an open ledger with one new commit and tables
-- that are those before followed by rows, the one-hour results included, with the sequence number and the
-- time of that commit; and whatever the clock reads, that time is after every earlier commit.
pub answer-Transacts :
    (python : Python) (request : Request) (store : Store)
    → Transacts store (answer python request store)
answer-Transacts python request store = record {
  effect = answer-Effect Grows Grows-Methods python request store;
  later = λ raw. commit_time-later raw store.commits;
}
