-- ===== src/Ledger/Appending.antt =====
-- What an insertion of the ledger does to its table: it finds the row, or appends one with the
-- transaction's stamp.
use mathlib.Core.List.{append-nil, append_assoc}
use debot.Base.{
  Bool, true, false, ◌≡◌, refl, sym, ◌∙◌, ap, Option, none, some, Result, ok, err, List, [], ◌∷◌,
  ◌++◌, arith, All, find?, Bool-cases, inl, inr,
}
use debot.Ledger.Columns.{Columns}
use debot.Ledger.Transaction.{
  Stored, InsertResult, Tables, Stamp, append, append_to, new_stored, has_key,
}

pub record IsStamped {A : Type 0} (stamp : Stamp) (row : Stored A) : Type 0 where
  pub sequence : row.commit_seq ≡ stamp.commit_seq
  pub time : row.inserted_at ≡ stamp.now

-- `after` is `before` with rows behind it of which `P` holds.
pub record Extends {A : Type 0} (P : A → Type 0) (before after : List A) : Type 0 where
  pub added : List A
  pub behind : after ≡ before ++ added
  pub each : All P added

module _ {A : Type 0} (P Q : A → Type 0) (imply : (a : A) → P a → Q a) where
  pub All-weaken : (xs : List A) → All P xs → All Q xs
  All-weaken [] h = tt
  All-weaken (x ∷ xs) h = (imply x h.0, All-weaken xs h.1)

module _ {A : Type 0} (P : A → Type 0) where
  pub Extends-same : (rows : List A) → Extends P rows rows
  Extends-same rows = record { added = []; behind = sym (append-nil rows); each = tt }

  All-append : (xs ys : List A) → All P xs → All P ys → All P (xs ++ ys)
  All-append [] ys h k = k
  All-append (x ∷ xs) ys h k = (h.0, All-append xs ys h.1 k)

  pub Extends-compose : (a b c : List A) → Extends P a b → Extends P b c → Extends P a c
  Extends-compose a b c e f = record {
    added = e.added ++ f.added;
    behind =
        f.behind ∙ ap (λ (xs : List A). xs ++ f.added) e.behind ∙ append_assoc a e.added f.added;
    each = All-append e.added f.added e.each f.each;
  }

module _ {A : Type 0} ⦃columns : Columns A⦄ (stamp : Stamp) (constraints : Bool) (values : A)
    (rows : List (Stored A)) where
  -- What an insertion that returns has done.
  pub data Appended (result : InsertResult A) (after : List (Stored A)) : Type 0 where
    found :
        (row : Stored A)
        → find? (has_key (columns.key values)) rows ≡ some row
        → row.content ≡ values
        → result ≡ record { row = row; inserted = false }
        → after ≡ rows
        → Appended result after
    placed :
        find? (has_key (columns.key values)) rows ≡ none
        → constraints ≡ true
        → result ≡ record { row = new_stored stamp values; inserted = true }
        → after ≡ rows ++ new_stored stamp values ∷ []
        → Appended result after

  append_to-Appended :
      (o : Option (Stored A))
      → find? (has_key (columns.key values)) rows ≡ o
      → (result : InsertResult A) (after : List (Stored A))
      → append_to stamp constraints values rows o ≡ ok (result, after)
      → Appended result after
  unfolding append_to
  append_to-Appended (some row) e result after h =
      elim (Bool-cases (columns.same row.content values)) [
        | inl equal ↦
            found row e ((columns.same_iff row.content values).0 equal) (ground arith)
              (ground arith)
        | inr other ↦ absurd (ground arith)
      ]
  append_to-Appended none e result after h = elim (Bool-cases constraints) [
    | inl hold ↦ placed e hold (ground arith) (ground arith)
    | inr fail ↦ absurd (ground arith)
  ]

  pub append-Appended :
      (result : InsertResult A) (after : List (Stored A))
      → append stamp constraints values rows ≡ ok (result, after)
      → Appended result after
  unfolding append
  append-Appended = append_to-Appended _ refl

  pub append-Extends :
      (result : InsertResult A) (after : List (Stored A))
      → append stamp constraints values rows ≡ ok (result, after)
      → Extends (IsStamped stamp) rows after
  append-Extends result after h = grown (append-Appended result after h)
    where
      grown : Appended result after → Extends (IsStamped stamp) rows after
      grown (found row e c r a) = rw a (Extends-same _ rows)
      grown (placed e c r a) = record {
        added = new_stored stamp values ∷ [];
        behind = a;
        each = (record { sequence = refl; time = refl }, tt);
      }

module _ {A : Type 0} {V : Type 0} (put : List A → Tables) where
  -- The insertion into a table, and the tables with it.
  pub put-eq-ok :
      (r : Result (V × List A)) (value : V) (after : Tables)
      → (elim r as (λ _. Result (V × Tables)) [
        | err error ↦ err error
        | ok (result, rows) ↦ ok (result, put rows)
      ])
        ≡ ok (value, after)
      → (rows : List A) × (r ≡ ok (value, rows)) × (after ≡ put rows)
  put-eq-ok (err error) value after h = absurd (ground arith)
  put-eq-ok (ok (result, rows)) value after h = (rows, ground arith, ground arith)
