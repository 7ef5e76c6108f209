-- ===== src/Queue/Repricing.antt =====
-- What `reprioritize_pending` does to a well-formed table.
use debot.Base.{
  ℕ, String, ◌≡◌, refl, sym, ◌∙◌, subst, Bool, true, false, List, [], ◌∷◌, inl, inr, arith, Result,
  ok, guard, Bool-cases, ◌==◌, in_range,
}
use debot.Queue.Row.{Row, satisfies_checks}
use debot.Queue.Sql.{update}
use debot.Queue.Changes.{claimable}
use debot.Queue.Validity.{Keeps, written, update-eq-map}
use debot.Queue.Tables.{IsTable, written-IsTable}
use debot.Queue.Codec.{Codec, NarrativeJob, job_from_row}
use debot.Queue.Changes.{set_priority, reprioritize_row, reprioritize_each, reprioritize_rows}
use debot.Base.{value_error, >>=-eq-ok}

pub price-Keeps :
    (job_id : String) (priority now : ℕ)
    → in_range 1 100 priority ≡ true
    → Keeps (claimable job_id) (λ r. record r { priority = priority; updated_at = now })
unfolding satisfies_checks
price-Keeps job_id priority now p r h c = ground arith

guard-eq-ok : (b : Bool) → guard b value_error ≡ ok tt → b ≡ true
guard-eq-ok true h = refl
guard-eq-ok false h = cc

module _ (codec : Codec) (priority_for : codec.Payload → Result ℕ) (now : ℕ) where
  -- An invariant of the table that a new priority of a pending row keeps.
  abbrev pub Priced : (List Row → Type 0) → Type 0
  Priced P =
      (job_id : String) (priority : ℕ) (rows rows' : List Row)
      → in_range 1 100 priority ≡ true
      → P rows
      → update (claimable job_id) (λ r. record r { priority = priority; updated_at = now }) rows
        ≡ ok rows'
      → P rows'

  module _ (P : List Row → Type 0) (priced : Priced P) where
    set_priority-keeps :
        (job : NarrativeJob codec.Payload) (priority n n' : ℕ) (rows rows' : List Row)
        → in_range 1 100 priority ≡ true
        → P rows
        → set_priority codec priority_for now job priority (n, rows) ≡ ok (n', rows')
        → P rows'
    unfolding set_priority
    set_priority-keeps job priority n n' rows rows' range p e =
        elim (Bool-cases (priority == job.priority)) [
          | inl same ↦ subst P (ground arith) p
          | inr differ ↦
              let (written, updated, returned) = >>=-eq-ok _ _ (rw differ at e) in
              subst P (ground arith) (priced job.job_id priority rows written range p updated)
        ]

    reprioritize_row-keeps :
        (row : Row) (n n' : ℕ) (rows rows' : List Row)
        → P rows
        → reprioritize_row codec priority_for now row (n, rows) ≡ ok (n', rows')
        → P rows'
    unfolding reprioritize_row
    reprioritize_row-keeps row n n' rows rows' p e =
        let (job, _, e₁) = >>=-eq-ok (job_from_row codec row) _ e in
        let (priority, _, e₂) = >>=-eq-ok (priority_for job.payload) _ e₁ in
        let (_, range, e₃) = >>=-eq-ok (guard (in_range 1 100 priority) value_error) _ e₂ in
        set_priority-keeps job priority n n' rows rows' (guard-eq-ok _ range) p e₃

    reprioritize_each-keeps :
        (work : List Row) (n n' : ℕ) (rows rows' : List Row)
        → P rows
        → reprioritize_each codec priority_for now work (n, rows) ≡ ok (n', rows')
        → P rows'
    unfolding reprioritize_each
    reprioritize_each-keeps [] n n' rows rows' p e = subst P (ground arith) p
    reprioritize_each-keeps (row ∷ work) n n' rows rows' p e =
        let ((m, between), first, rest) =
          >>=-eq-ok (reprioritize_row codec priority_for now row (n, rows)) _ e in
        reprioritize_each-keeps work m n' between rows'
          (reprioritize_row-keeps row n m rows between p first) rest

    pub reprioritize_rows-keeps :
        (rows rows' : List Row) (n : ℕ)
        → P rows
        → reprioritize_rows codec priority_for now rows ≡ ok (n, rows')
        → P rows'
    unfolding reprioritize_rows
    reprioritize_rows-keeps rows rows' n p e = reprioritize_each-keeps _ 0 n rows rows' p e

  pub IsTable-Priced : Priced IsTable
  IsTable-Priced job_id priority rows rows' range t e =
      let keep = price-Keeps job_id priority now range in
      subst IsTable
        (ok_injective (sym (update-eq-map (claimable job_id) _ rows keep t.rows_ok) ∙ e))
        (written-IsTable (claimable job_id) _ rows keep (λ _. refl) t)
    where
      ok_injective : {xs ys : List Row} → ok xs ≡ ok ys → xs ≡ ys
      ok_injective h = cc
