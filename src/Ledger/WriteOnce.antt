-- ===== src/Ledger/WriteOnce.antt =====
-- The abstract view of a table of the ledger: a map from keys to rows that is written once for each key.
-- `_append` implements it; the order of the rows is forgotten.
use mathlib.Core.Path.{fun_ext}
use debot.Base.{
  ◌⊎◌, String, Bool, true, false, ◌≡◌, refl, ap, ◌∙◌, Option, none, some, List, [], ◌∷◌, ◌++◌,
  arith, Result, ok, err, ledger_conflict, integrity_error, if◌then◌else◌, find?, str_eq, eq_iff,
  Bool-cases, inl, inr,
}
use debot.Ledger.Columns.{Columns}
use debot.Ledger.Transaction.{Stored, InsertResult, Stamp, has_key, new_stored, append, append_to}

-- The row of each key.
abbrev pub Contents : Type 0 → Type 0
Contents A = String → Option (Stored A)

module _ {A : Type 0} ⦃columns : Columns A⦄ where
  -- A first write of a key is kept with its stamp, if the constraints hold; a second one returns the row that
  -- is there if it says the same, and raises otherwise.
  abbrev pub put_once_over :
      Stamp
      → (constraints : Bool) → (values : A) → Contents A
      → Option (Stored A)
      → Result (InsertResult A × Contents A)
  put_once_over stamp constraints values contents (some old) =
      if columns.same old.content values
      then ok (record { row = old; inserted = false }, contents)
      else err ledger_conflict
  put_once_over stamp constraints values contents none =
      if constraints
      then ok (
        record { row = new_stored stamp values; inserted = true },
        λ k. if str_eq (columns.key values) k then some (new_stored stamp values) else contents k,
      )
      else err integrity_error

  abbrev pub put_once :
      Stamp
      → (constraints : Bool) → (values : A) → Contents A
      → Result (InsertResult A × Contents A)
  put_once stamp constraints values contents =
      put_once_over stamp constraints values contents (contents (columns.key values))

  abbrev pub contents_of : List (Stored A) → Contents A
  contents_of rows k = find? (has_key k) rows

  abbrev pub outcome_of :
      Result (InsertResult A × List (Stored A)) → Result (InsertResult A × Contents A)
  outcome_of (err error) = err error
  outcome_of (ok (result, rows)) = ok (result, contents_of rows)

  find?-append :
      (k : String) (rows : List (Stored A)) (row : Stored A)
      → contents_of (rows ++ row ∷ []) k
        ≡ elim (find? (has_key k) rows) as (λ _. Option (Stored A)) [
          | some held ↦ some held
          | none ↦ if has_key k row then some row else none
        ]
  find?-append k [] row = ground arith
  find?-append k (x ∷ xs) row = ground (arith, find?-append k xs row)

  -- The map after a new row.
  contents_of-new :
      (rows : List (Stored A)) (row : Stored A)
      → find? (has_key (columns.key row.content)) rows ≡ none
      → (k : String)
      → contents_of (rows ++ row ∷ []) k
        ≡ (if str_eq (columns.key row.content) k then some row else contents_of rows k)
  contents_of-new rows row fresh k =
      find?-append k rows row
      ∙ split (find? (has_key k) rows) refl (Bool-cases (str_eq (columns.key row.content) k))
    where
      split :
          (o : Option (Stored A))
          → find? (has_key k) rows ≡ o
          → (str_eq (columns.key row.content) k ≡ true)
            ⊎ (str_eq (columns.key row.content) k ≡ false)
          → (elim o as (λ _. Option (Stored A)) [
            | some held ↦ some held
            | none ↦ if has_key k row then some row else none
          ])
            ≡ (if str_eq (columns.key row.content) k then some row else o)
      split none e (inl is) = rw is refl
      split none e (inr other) = rw other refl
      split (some held) e (inr other) = rw other refl
      split (some held) e (inl is) =
          let same = (eq_iff (columns.key row.content) k).0 is in
          absurd (ground (arith, ap (λ j. find? (has_key j) rows) same))

  append_to-put_once :
      (stamp : Stamp) (constraints : Bool) (values : A) (rows : List (Stored A))
      (o : Option (Stored A))
      → find? (has_key (columns.key values)) rows ≡ o
      → outcome_of (append_to stamp constraints values rows o)
        ≡ put_once_over stamp constraints values (contents_of rows) o
  unfolding append_to
  append_to-put_once stamp constraints values rows (some row) e =
      elim (Bool-cases (columns.same row.content values)) [
        | inl is ↦ rw is refl
        | inr other ↦ rw other refl
      ]
  append_to-put_once stamp constraints values rows none e = elim (Bool-cases constraints) [
    | inl hold ↦ rw hold (
        ap (λ (c : Contents A). ok (record { row = new_stored stamp values; inserted = true }, c))
          (fun_ext (contents_of-new rows (new_stored stamp values) e)))
    | inr fail ↦ rw fail refl
  ]

  -- For every table, key, content and stamp, and whether the constraints hold or not, `_append` has the
  -- outcome of a write to the write-once map from keys to stamped rows that the table stands for: the row
  -- that it returns, whether it was inserted, what it raises, and the map that it leaves.
  pub append-put_once :
      (stamp : Stamp) (constraints : Bool) (values : A) (rows : List (Stored A))
      → outcome_of (append stamp constraints values rows)
        ≡ put_once stamp constraints values (contents_of rows)
  unfolding append
  append-put_once stamp constraints values rows =
      append_to-put_once stamp constraints values rows (find? (has_key (columns.key values)) rows)
        refl
