-- ===== src/Queue/Sql.antt =====
-- The statements that the queue sends to SQLite, over the rows of the one table.
-- SQLite checks the constraints of each row that an UPDATE writes, and a statement that breaks one
-- raises IntegrityError; an INSERT OR IGNORE leaves such a row out.
use debot.Base.{
  String, Bool, ◌&&◌, ◌||◌, not, List, [], ◌∷◌, ◌++◌, Option, none, some, Result, ok, err,
  integrity_error, type_error, ◌>>=◌, if◌then◌else◌, ltb, ◌==◌, str_eq, str_ltb, find?, any,
  satisfying,
}
use debot.Queue.Row.{Row, satisfies_checks}

-- the row that is written, if its constraints hold
write_row : (Row → Bool) → (Row → Row) → Row → Result Row
write_row test change r =
    if test r
    then (if satisfies_checks (change r) then ok (change r) else err integrity_error)
    else ok r

-- UPDATE narrative_jobs SET change WHERE test
unfoldable pub update : (Row → Bool) → (Row → Row) → List Row → Result (List Row)
unfolding write_row
update test change [] = ok []
update test change (r ∷ rs) = do
  written ← write_row test change r
  rest ← update test change rs
  ok (written ∷ rest)

-- WHERE job_id = ?
abbrev pub has_id : String → Row → Bool
has_id job_id r = str_eq r.job_id job_id

-- INSERT OR IGNORE; `none` means that no row was inserted
unfoldable pub insert_or_ignore : Row → List Row → Option (List Row)
insert_or_ignore row rows =
    if not (any (has_id row.job_id) rows) && satisfies_checks row
    then some (rows ++ row ∷ [])
    else none

-- SELECT * FROM narrative_jobs WHERE job_id = ?, read by `job_from_row`: no row is a TypeError
unfoldable pub fetch : String → List Row → Result Row
fetch job_id rows = elim (find? (has_id job_id) rows) [ none ↦ err type_error | some r ↦ ok r ]

-- ORDER BY priority, created_at DESC, available_at, job_id
unfoldable pub before : Row → Row → Bool
before a b =
    ltb a.priority b.priority
    || a.priority == b.priority
      && (ltb b.created_at a.created_at
          || a.created_at == b.created_at
            && (ltb a.available_at b.available_at
                || a.available_at == b.available_at && str_ltb a.job_id b.job_id))

unfoldable pub earliest : Row → List Row → Row
earliest r [] = r
earliest r (x ∷ xs) = earliest (if before x r then x else r) xs

-- SELECT … WHERE test ORDER BY … LIMIT 1
unfoldable pub first_in_order : (Row → Bool) → List Row → Option Row
unfolding earliest
first_in_order test rows = elim (satisfying test rows) [ [] ↦ none | r ∷ rs ↦ some (earliest r rs) ]
