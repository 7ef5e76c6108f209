-- ===== src/Queue/Enqueueing.antt =====
-- What the transaction of `enqueue` does to a well-formed table.
use debot.Base.{
  ℕ, String, ◌≡◌, refl, sym, subst, Bool, true, false, ◌&&◌, List, [], ◌∷◌, ◌++◌, map, inl, inr,
  arith, Result, ok, err, Bool-cases, find?, any, ◌⊎◌, in_range, job_content_conflict,
}
use debot.Queue.Row.{Row, satisfies_checks, is_pending, is_kind}
use debot.Queue.Sql.{has_id, insert_or_ignore}
use debot.Queue.Changes.{enqueue_rows, merge_rows, merge, same_content, new_row}
use debot.Queue.Codec.{Encoded}
use debot.Queue.Validity.{IsRow, AreRows, Keeps, written, update-eq-map}
use debot.Queue.Distinct.{Distinct-append}
use debot.Queue.Tables.{IsTable, written-IsTable}

pub merge-Keeps :
    (job_id : String) (priority : ℕ) (document : String) (now : ℕ)
    → in_range 1 100 priority ≡ true
    → Keeps (λ r. has_id job_id r && is_pending r.status) (merge priority document now)
unfolding satisfies_checks
merge-Keeps job_id priority document now p r h t = ground arith

new_row-IsRow :
    (e : Encoded) (priority max_attempts ready now : ℕ)
    → is_kind e.kind ≡ true
    → in_range 1 100 priority ≡ true
    → in_range 1 100 max_attempts ≡ true
    → IsRow (new_row e priority max_attempts ready now)
unfolding satisfies_checks
new_row-IsRow e priority max_attempts ready now k p m = ground arith

All-append : (rows : List Row) (r : Row) → AreRows rows → IsRow r → AreRows (rows ++ r ∷ [])
All-append [] r h k = (k, tt)
All-append (x ∷ xs) r h k = (h.0, All-append xs r h.1 k)

module _ (e : Encoded) (priority max_attempts ready now : ℕ) where
  abbrev pub merged_table : List Row → List Row
  merged_table =
      map (written (λ r. has_id e.job_id r && is_pending r.status) (merge priority e.document now))

  -- How an `enqueue` ends: a new row, a merge into the row of the same content, or a conflict.
  abbrev pub Enqueues : List Row → Result (Unit {0} × List Row) → Type 0
  Enqueues rows result =
      ((result ≡ ok (tt, rows ++ new_row e priority max_attempts ready now ∷ []))
        × (any (has_id e.job_id) rows ≡ false)
        × IsTable (rows ++ new_row e priority max_attempts ready now ∷ []))
      ⊎ ((result ≡ ok (tt, merged_table rows))
          × (same_content e (find? (has_id e.job_id) rows) ≡ true)
          × IsTable (merged_table rows))
      ⊎ ((result ≡ err (job_content_conflict e.job_id))
          × (same_content e (find? (has_id e.job_id) rows) ≡ false)
          × (any (has_id e.job_id) rows ≡ true))

  merge_rows-Enqueues :
      (rows : List Row)
      → IsTable rows
      → in_range 1 100 priority ≡ true
      → any (has_id e.job_id) rows ≡ true
      → Enqueues rows (merge_rows e priority now rows)
  unfolding merge_rows
  merge_rows-Enqueues rows t p known =
      let test : Row → Bool = (λ r. has_id e.job_id r && is_pending r.status) in
      let keep = merge-Keeps e.job_id priority e.document now p in
      elim (Bool-cases (same_content e (find? (has_id e.job_id) rows))) [
        | inl same ↦ inr (
            inl (
              rw (same, update-eq-map test (merge priority e.document now) rows keep t.rows_ok)
                  refl,
              same,
              written-IsTable test _ rows keep (λ _. refl) t,
            ))
        | inr other ↦ inr (inr (rw other refl, other, known))
      ]

  enqueue_known :
      (rows : List Row)
      → any (has_id e.job_id) rows ≡ true
      → enqueue_rows e priority max_attempts ready now rows ≡ merge_rows e priority now rows
  unfolding enqueue_rows insert_or_ignore
  enqueue_known rows known = ground arith

  enqueue_fresh :
      (rows : List Row)
      → any (has_id e.job_id) rows ≡ false
      → satisfies_checks (new_row e priority max_attempts ready now) ≡ true
      → enqueue_rows e priority max_attempts ready now rows
        ≡ ok (tt, rows ++ new_row e priority max_attempts ready now ∷ [])
  unfolding enqueue_rows insert_or_ignore
  enqueue_fresh rows fresh checked = ground arith

  -- For a payload of a known kind, a priority and a bound on the attempts from 1 to 100, an `enqueue` on a
  -- well-formed table appends a new row, or merges into the row of the same id and content, or raises
  -- `JobContentConflict` where the row with the id has other content.
  pub enqueue_rows-Enqueues :
      (rows : List Row)
      → IsTable rows
      → is_kind e.kind ≡ true
      → in_range 1 100 priority ≡ true
      → in_range 1 100 max_attempts ≡ true
      → Enqueues rows (enqueue_rows e priority max_attempts ready now rows)
  enqueue_rows-Enqueues rows t k p m =
      let row = new_row-IsRow e priority max_attempts ready now k p m in
      elim (Bool-cases (any (has_id e.job_id) rows)) [
        | inl known ↦
            subst (Enqueues rows) (sym (enqueue_known rows known))
              (merge_rows-Enqueues rows t p known)
        | inr fresh ↦ inl (
          enqueue_fresh rows fresh row.checks,
          fresh,
          record {
            rows_ok = All-append rows _ t.rows_ok row;
            ids_distinct = Distinct-append rows _ t.ids_distinct fresh;
          },
        )
      ]
