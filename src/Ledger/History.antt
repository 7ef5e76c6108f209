-- ===== src/Ledger/History.antt =====
-- A history of the ledger only appends, with commit times that grow; so what is read as of an instant that
-- is already committed never changes.
use debot.Base.{ℕ, ◌≤◌, ◌<◌, ◌≡◌, refl, some, List, ◌∷◌, arith, max}
use debot.Ledger.Settled.{IsCommitted}
use debot.Ledger.Codec.{Python}
use debot.Ledger.Finalize.{OneHourResult}
use debot.Ledger.Transaction.{Stored, Tables, Store, Stamp, newest, stamp_of, close}
use debot.Ledger.Requests.{Request, run}
use debot.Ledger.Appending.{All-weaken, IsStamped, Extends, Extends-same, Extends-compose}
use debot.Ledger.Growth.{Grows, Grows-Methods}
use debot.Ledger.Effects.{run-keeps}

-- A row that was inserted after `bound`.
abbrev pub IsLater : {A : Type 0} → ℕ → Stored A → Type 0
IsLater bound row = bound < row.inserted_at

-- The tables have only grown, by rows that were inserted after `bound`.
pub record Ahead (bound : ℕ) (before after : Tables) : Type 0 where
  pub candidates : Extends (IsLater bound) before.candidates after.candidates
  pub signals : Extends (IsLater bound) before.signals after.signals
  pub evidence : Extends (IsLater bound) before.evidence after.evidence
  pub decisions : Extends (IsLater bound) before.decisions after.decisions
  pub buys : Extends (IsLater bound) before.buys after.buys
  pub observations : Extends (IsLater bound) before.observations after.observations
  pub heads : Extends (IsLater bound) before.heads after.heads
  pub results : Extends (λ (r : OneHourResult). bound < r.inserted_at) before.results after.results

module _ {A : Type 0} (P Q : A → Type 0) (imply : (a : A) → P a → Q a) where
  Extends-weaken : (a b : List A) → Extends P a b → Extends Q a b
  Extends-weaken a b e = record {
    added = e.added;
    behind = e.behind;
    each = All-weaken P Q imply e.added e.each;
  }

pub newest-cons :
    (t : ℕ) (ts : List ℕ) (u : ℕ) → newest ts ≡ some u → newest (t ∷ ts) ≡ some (max t u)
newest-cons t ts u h = rw h refl

module _ (bound : ℕ) where
  Ahead-same : (tables : Tables) → Ahead bound tables tables
  Ahead-same tables = record {
    candidates = Extends-same _ _;
    signals = Extends-same _ _;
    evidence = Extends-same _ _;
    decisions = Extends-same _ _;
    buys = Extends-same _ _;
    observations = Extends-same _ _;
    heads = Extends-same _ _;
    results = Extends-same _ _;
  }

  further :
      {A : Type 0} (stamp : Stamp) (a b c : List (Stored A))
      → bound < stamp.now
      → Extends (IsLater bound) a b
      → Extends (IsStamped stamp) b c
      → Extends (IsLater bound) a c
  further stamp a b c later e f =
      Extends-compose _ a b c e
        (Extends-weaken _ _ (λ row (s : IsStamped stamp row). omega (arith, s.time)) b c f)

  Ahead-Grows :
      (stamp : Stamp) (a b c : Tables)
      → bound < stamp.now
      → Ahead bound a b
      → Grows stamp b c
      → Ahead bound a c
  Ahead-Grows stamp a b c later h g = record {
    candidates = further stamp _ _ _ later h.candidates g.candidates;
    signals = further stamp _ _ _ later h.signals g.signals;
    evidence = further stamp _ _ _ later h.evidence g.evidence;
    decisions = further stamp _ _ _ later h.decisions g.decisions;
    buys = further stamp _ _ _ later h.buys g.buys;
    observations = further stamp _ _ _ later h.observations g.observations;
    heads = further stamp _ _ _ later h.heads g.heads;
    results = Extends-compose _ _ _ _ h.results (
        Extends-weaken _ _ (λ (r : OneHourResult) (e : IsCommitted stamp r). omega (arith, e.time))
          _ _ g.results);
  }

  -- What a history keeps: the tables are ahead, and some commit is as late as `bound`.
  record Passed (start store : Store) : Type 0 where
    ahead : Ahead bound start.tables store.tables
    last : ℕ
    is_newest : newest store.commits ≡ some last
    late : bound ≤ last

  commit-Passed :
      (start store : Store) (raw : ℕ) (after : Tables)
      → Passed start store
      → Grows (stamp_of raw store.commits) store.tables after
      → Passed start (record store {
        tables = after;
        commits = (stamp_of raw store.commits).now ∷ store.commits;
      })
  commit-Passed start store raw after p g = record {
    ahead =
        Ahead-Grows (stamp_of raw store.commits) _ _ after (rw p.is_newest (omega (arith, p.late)))
          p.ahead g;
    last = max (stamp_of raw store.commits).now p.last;
    is_newest = newest-cons _ store.commits p.last p.is_newest;
    late = omega (arith, p.late);
  }

  -- Whatever is called from a ledger whose newest commit is at `bound`, each table afterwards is the table
  -- before followed by rows that were inserted after `bound`: no row is changed, moved or lost.
  pub run-Ahead :
      (python : Python) (requests : List Request) (store : Store)
      → newest store.commits ≡ some bound
      → Ahead bound store.tables (run python requests store).tables
  unfolding close
  run-Ahead python requests store h =
      let p : Passed store (run python requests store) =
        run-keeps Grows Grows-Methods python (Passed store)
          (λ s q. record { ahead = q.ahead; last = q.last; is_newest = q.is_newest; late = q.late })
          (commit-Passed store) requests store
          (record {
            ahead = Ahead-same store.tables;
            last = bound;
            is_newest = h;
            late = omega arith;
          }) in
      p.ahead
