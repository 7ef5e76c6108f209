-- ===== src/Ledger/Transaction.antt =====
-- The transactions of the ledger and its append-only insertion (`LedgerCore`, src/debot4/v6/ledger/
-- database.py). A transaction is a function of the tables and of the stamp that it was given at its start;
-- what raises leaves no tables, so that the caller keeps the old ones. A `_write` inside a `_write` runs in
-- the transaction that is open. The clock's readings are arguments.
use debot.Base.{
  ℕ, suc, ◌+◌, String, Bool, true, false, List, [], ◌∷◌, ◌++◌, Option, none, some, Result, ok, err,
  Error, guard, runtime_error, integrity_error, ledger_conflict, if◌then◌else◌, length, find?,
  str_eq, max,
}
pub use debot.Ledger.Schema.{Stamp}
use debot.Ledger.Schema.{
  Candidate, CurrentSignal, HistoricalKolEvidence, EntryDecision, BuyRow, ObservationRow,
  HeadSighting,
}
use debot.Ledger.Columns.{Columns}
use debot.Ledger.Finalize.{OneHourResult}

-- A row: its columns, and the columns that `_append` adds.
pub record Stored (A : Type 0) : Type 0 where
  pub content : A
  pub commit_seq : ℕ
  pub inserted_at : ℕ

-- `InsertResult`
pub record InsertResult (A : Type 0) : Type 0 where
  pub row : Stored A
  pub inserted : Bool

pub record Tables : Type 0 where
  pub candidates : List (Stored Candidate)
  pub signals : List (Stored CurrentSignal)
  pub evidence : List (Stored HistoricalKolEvidence)
  pub decisions : List (Stored EntryDecision)
  pub buys : List (Stored BuyRow)
  pub observations : List (Stored ObservationRow)
  pub heads : List (Stored HeadSighting)
  pub results : List OneHourResult

-- `v6_commits` holds the commit times, the newest first; the sequence number of a commit is its place.
pub record Store : Type 0 where
  pub tables : Tables
  pub commits : List ℕ
  pub closed : Bool

abbrev pub Tx : Type 0 → Type 0
Tx A = Stamp → Tables → Result (A × Tables)

infixl 5 ◌>>=◌ ◌>>◌
unfoldable pub ◌>>=◌ : {A B : Type 0} → Tx A → (A → Tx B) → Tx B
◌>>=◌ first next stamp tables = elim (first stamp tables) [
  | err error ↦ err error
  | ok (value, after) ↦ next value stamp after
]

abbrev pub ◌>>◌ : {A B : Type 0} → Tx A → Tx B → Tx B
◌>>◌ first next = first >>= λ done. next

abbrev pub give : {A : Type 0} → A → Tx A
give value stamp tables = ok (value, tables)

-- What runs without the tables.
abbrev pub pure : {A : Type 0} → Result A → Tx A
pure (ok value) stamp tables = ok (value, tables)
pure (err error) stamp tables = err error

-- `if not test: raise error`
abbrev pub require : Bool → Error → Tx (Unit {0})
require test error = pure (guard test error)

-- A SELECT statement.
abbrev pub select : {A : Type 0} → (Tables → A) → Tx A
select query stamp tables = ok (query tables, tables)

-- `_now_us` in a transaction
abbrev pub current_time : Tx ℕ
current_time stamp tables = ok (stamp.now, tables)

module _ {A : Type 0} ⦃columns : Columns A⦄ where
  abbrev pub has_key : String → Stored A → Bool
  has_key key row = str_eq (columns.key row.content) key

  abbrev pub new_stored : Stamp → A → Stored A
  new_stored stamp values = record {
    content = values;
    commit_seq = stamp.commit_seq;
    inserted_at = stamp.now;
  }

  -- The row with the key is there or not. `constraints`: the references and UNIQUE constraints hold.
  unfoldable pub append_to :
      Stamp
      → (constraints : Bool) → A
      → List (Stored A)
      → Option (Stored A)
      → Result (InsertResult A × List (Stored A))
  append_to stamp constraints values rows (some existing) =
      if columns.same existing.content values
      then ok (record { row = existing; inserted = false }, rows)
      else err ledger_conflict
  append_to stamp constraints values rows none =
      if constraints
      then ok (
        record { row = new_stored stamp values; inserted = true },
        rows ++ new_stored stamp values ∷ [],
      )
      else err integrity_error

  -- `_append`
  unfoldable pub append :
      Stamp → (constraints : Bool) → A → List (Stored A) → Result (InsertResult A × List (Stored A))
  unfolding append_to
  append stamp constraints values rows =
      append_to stamp constraints values rows (find? (has_key (columns.key values)) rows)

-- `SELECT MAX(committed_at_us) FROM v6_commits`
abbrev pub newest : List ℕ → Option ℕ
newest [] = none
newest (t ∷ ts) = elim (newest ts) [ none ↦ some t | some u ↦ some (max t u) ]

-- `raw_us if previous_us is None else max(raw_us, int(previous_us) + 1)`
abbrev pub commit_time : ℕ → Option ℕ → ℕ
commit_time raw none = raw
commit_time raw (some previous) = max raw (previous + 1)

abbrev pub stamp_of : ℕ → List ℕ → Stamp
stamp_of raw commits = record {
  commit_seq = suc (length commits);
  now = commit_time raw (newest commits);
}

abbrev pub ending : {A : Type 0} → Stamp → Store → Result (A × Tables) → Result A × Store
ending stamp store (err error) = (err error, store)
ending stamp store (ok (value, tables)) =
    (ok value, record store { tables = tables; commits = stamp.now ∷ store.commits })

-- `with self._write()`
unfoldable pub write : {A : Type 0} → ℕ → Tx A → Store → Result A × Store
write raw body store =
    if store.closed
    then (err runtime_error, store)
    else ending (stamp_of raw store.commits) store (body (stamp_of raw store.commits) store.tables)

-- `close`
unfoldable pub close : Store → Store
close store = record store { closed = true }
