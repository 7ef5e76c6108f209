-- ===== src/Queue/Tables.antt =====
-- Well-formed tables, and what one UPDATE or the recovery of leases makes of them.
use mathlib.Core.List.{Memᴰ}
use debot.Base.{
  ℕ, String, ◌≡◌, refl, ap, ◌∙◌, Bool, true, List, map, some, inl, inr, arith, ok, All-map,
  Bool-cases, find?, count,
}
use debot.Queue.Row.{Row}
use debot.Queue.Sql.{has_id, fetch, update}
use debot.Queue.Validity.{
  AreRows, Keeps, written, written-IsRow, recovered, recovered-IsRow, IsRow, All-written,
  update-eq-map_of_All,
}
use debot.Queue.Distinct.{
  Distinct, KeepsId, Distinct-map, find?-has_id, find?-map_id, count-eq-one, Names, All-row,
}

pub record IsTable (rows : List Row) : Type 0 where
  pub rows_ok : AreRows rows
  pub ids_distinct : Distinct rows

written-KeepsId :
    (test : Row → Bool) (change : Row → Row) → KeepsId change → KeepsId (written test change)
written-KeepsId test change keep r = elim (Bool-cases (test r)) [
  | inl hit ↦ rw hit (keep r)
  | inr miss ↦ rw miss refl
]

-- An UPDATE that keeps rows and ids keeps the table.
pub written-IsTable :
    (test : Row → Bool) (change : Row → Row) (rows : List Row)
    → Keeps test change
    → KeepsId change
    → IsTable rows
    → IsTable (map (written test change) rows)
written-IsTable test change rows keep same t = record {
  rows_ok = All-map _ (written-IsRow test change keep) rows t.rows_ok;
  ids_distinct = Distinct-map _ (written-KeepsId test change same) rows t.ids_distinct;
}

pub recovered-KeepsId : (now : ℕ) → KeepsId (recovered now)
unfolding recovered
recovered-KeepsId now r = ground arith

pub recovered-IsTable :
    (now : ℕ) (rows : List Row) → IsTable rows → IsTable (map (recovered now) rows)
recovered-IsTable now rows t = record {
  rows_ok = All-map _ (recovered-IsRow now) rows t.rows_ok;
  ids_distinct = Distinct-map _ (recovered-KeepsId now) rows t.ids_distinct;
}

fetch_found :
    (k : String) (rows : List Row) (r : Row) → find? (has_id k) rows ≡ some r → fetch k rows ≡ ok r
unfolding fetch
fetch_found k rows r h = ground arith

-- An UPDATE whose test names the id of a row `r` that passes it writes `r` alone.
module _ (test : Row → Bool) (change : Row → Row) (rows : List Row) (r : Row) (t : IsTable rows)
    (m : Memᴰ r rows) (hit : test r ≡ true) (names : Names r.job_id test) (same : KeepsId change)
    (kept : IsRow (change r)) where
  pub update_row : update test change rows ≡ ok (map (written test change) rows)
  update_row =
      update-eq-map_of_All test change rows
        (All-row (λ x. IsRow (change x)) r test rows names t.ids_distinct m kept)

  pub update_row-IsTable : IsTable (map (written test change) rows)
  update_row-IsTable = record {
    rows_ok =
        All-written IsRow test change rows t.rows_ok
          (All-row (λ x. IsRow (change x)) r test rows names t.ids_distinct m kept);
    ids_distinct = Distinct-map _ (written-KeepsId test change same) rows t.ids_distinct;
  }

  pub count_row : count test rows ≡ 1
  count_row = count-eq-one r test rows names t.ids_distinct m hit

  pub fetch_row : fetch r.job_id (map (written test change) rows) ≡ ok (change r)
  fetch_row =
      let found =
        find?-map_id (written test change) (written-KeepsId test change same) r.job_id rows r
          (find?-has_id r rows t.ids_distinct m) in
      fetch_found r.job_id _ (change r) (found ∙ ap some (rw hit refl))
