-- ===== src/Queue/Settling.antt =====
-- What the transactions of `ack` and `fail` do to a well-formed table.
use mathlib.Core.List.{Memᴰ}
use debot.Base.{
  ℕ, ◌+◌, String, ◌≡◌, refl, subst, Bool, true, false, ◌||◌, List, [], ◌∷◌, map, none, some, inl,
  inr, arith, Result, ok, err, All, All-Memᴰ, Option-cases, leb, find?, count, not, ◌⊎◌, lease_lost,
  find?-Memᴰ, find?-test, eq_iff,
}
use debot.Queue.Row.{Row, satisfies_checks, is_leased}
use debot.Queue.Sql.{fetch}
use debot.Queue.Changes.{ack_rows, is_held, complete, fail_rows, is_token_of, release, or_lost}
use debot.Queue.Validity.{IsRow, Keeps, written, update-eq-map, recovered, recover_expired-eq-map}
use debot.Queue.Distinct.{Names}
use debot.Queue.Tables.{
  IsTable, recovered-IsTable, update_row, update_row-IsTable, count_row, fetch_row,
}

-- Nobody holds the lease, or one row does.
find?-cases :
    (test : Row → Bool) (rows : List Row)
    → ((find? test rows ≡ none) × All (λ x. test x ≡ false) rows)
      ⊎ ((r : Row) × (find? test rows ≡ some r) × Memᴰ r rows × (test r ≡ true))
find?-cases test rows = elim (Option-cases (find? test rows)) [
  | inl e ↦ inl (e, none_pass rows e)
  | inr (r, e) ↦ inr (r, e, find?-Memᴰ test rows r e, find?-test test rows r e)
]
  where
    none_pass : (xs : List Row) → find? test xs ≡ none → All (λ x. test x ≡ false) xs
    none_pass [] h = tt
    none_pass (x ∷ xs) h = (ground arith, none_pass xs (ground arith))

count_of_All :
    (test : Row → Bool) (rows : List Row) → All (λ x. test x ≡ false) rows → count test rows ≡ 0
count_of_All test [] h = refl
count_of_All test (x ∷ xs) h = rw (h.0, count_of_All test xs h.1) refl

pub complete-Keeps :
    (job_id owner token : String) (now : ℕ) → Keeps (is_held job_id owner token) (complete now)
unfolding satisfies_checks
complete-Keeps job_id owner token now r h t = ground arith

held_id :
    (job_id owner token : String) (r : Row)
    → is_held job_id owner token r ≡ true
    → r.job_id ≡ job_id
held_id job_id owner token r h = (eq_iff r.job_id job_id).0 (ground arith)

held-Names :
    (job_id owner token : String) (r : Row)
    → is_held job_id owner token r ≡ true
    → Names r.job_id (is_held job_id owner token)
held-Names job_id owner token r h x c = rw (held_id job_id owner token r h) (ground arith)

module _ (job_id owner token : String) (now : ℕ) where
  -- How an acknowledgement ends, from the table `table` of recovered rows.
  abbrev pub Acks : List Row → Result (Row × List Row) → Type 0
  Acks table result =
      ((result ≡ err (lease_lost job_id)) × All (λ x. is_held job_id owner token x ≡ false) table)
      ⊎ ((r : Row) × Memᴰ r table
          × (is_held job_id owner token r ≡ true)
          × (result
              ≡ ok
                  (complete now r, map (written (is_held job_id owner token) (complete now)) table))
          × IsTable (map (written (is_held job_id owner token) (complete now)) table))

  pub ack_rows-Acks :
      (rows : List Row)
      → IsTable rows
      → Acks (map (recovered now) rows) (ack_rows job_id owner token now rows)
  unfolding ack_rows
  ack_rows-Acks rows t =
      let test = is_held job_id owner token in
      let change = complete now in
      let table = map (recovered now) rows in
      let t' = recovered-IsTable now rows t in
      elim (find?-cases test table) [
        | inl (e, absent) ↦ inl (
          rw
              (
                recover_expired-eq-map now rows t.rows_ok,
                update-eq-map test change table (complete-Keeps job_id owner token now) t'.rows_ok,
                count_of_All test table absent,
              )
              refl,
          absent,
        )
        | inr (r, e, m, hit) ↦
            let same = held_id job_id owner token r hit in
            let names = held-Names job_id owner token r hit in
            let kept =
              complete-Keeps job_id owner token now r (All-Memᴰ IsRow table r t'.rows_ok m) hit in
            inr (
              r,
              m,
              hit,
              rw
                  (
                    recover_expired-eq-map now rows t.rows_ok,
                    update_row test change table r t' m hit names (λ _. refl) kept,
                    count_row test change table r t' m hit names (λ _. refl) kept,
                    (subst (λ k. fetch k (map (written test change) table) ≡ ok (change r)) same
                        (fetch_row test change table r t' m hit names (λ _. refl) kept)),
                  )
                  refl,
              update_row-IsTable test change table r t' m hit names (λ _. refl) kept,
            )
      ]

-- `terminal` in `fail`: no retry is wanted, or the attempts are used up.
abbrev pub is_terminal : Bool → Row → Bool
is_terminal retry r = not retry || leb r.max_attempts r.attempts

release-IsRow :
    (retry : Bool) (ready : ℕ) (error_type : String) (now : ℕ) (r : Row)
    → IsRow r
    → is_leased r.status ≡ true
    → IsRow (release (is_terminal retry r) ready error_type now r)
unfolding satisfies_checks
release-IsRow retry ready error_type now r h t = ground arith

token-Names :
    (job_id token : String) (r : Row)
    → r.job_id ≡ job_id
    → Names r.job_id (is_token_of job_id token)
token-Names job_id token r e x c = rw e (ground arith)

held_token :
    (job_id owner token : String) (r : Row)
    → is_held job_id owner token r ≡ true
    → is_token_of job_id token r ≡ true
held_token job_id owner token r h = ground arith

module _ (job_id owner token error_type : String) (retry : Bool) (delay now : ℕ) where
  -- the row that a failure leaves
  abbrev pub released : Row → Row
  released r = release (is_terminal retry r) (now + delay) error_type now r

  abbrev pub released_table : Row → List Row → List Row
  released_table r = map (
      written (is_token_of job_id token)
        (release (is_terminal retry r) (now + delay) error_type now))

  -- How a reported failure ends, from the table `table` of recovered rows.
  abbrev pub Fails : List Row → Result (Row × List Row) → Type 0
  Fails table result =
      ((result ≡ err (lease_lost job_id)) × All (λ x. is_held job_id owner token x ≡ false) table)
      ⊎ ((r : Row) × Memᴰ r table
          × (is_held job_id owner token r ≡ true)
          × (result ≡ ok (released r, released_table r table))
          × IsTable (released_table r table))

  pub fail_rows-Fails :
      (rows : List Row)
      → IsTable rows
      → Fails
          (map (recovered now) rows)
          (fail_rows job_id owner token error_type retry delay now rows)
  unfolding fail_rows or_lost
  fail_rows-Fails rows t =
      let test = is_token_of job_id token in
      let table = map (recovered now) rows in
      let t' = recovered-IsTable now rows t in
      elim (find?-cases (is_held job_id owner token) table) [
        | inl (e, absent) ↦ inl (rw (recover_expired-eq-map now rows t.rows_ok, e) refl, absent)
        | inr (r, e, m, hit) ↦
            let change = release (is_terminal retry r) (now + delay) error_type now in
            let same = held_id job_id owner token r hit in
            let names = token-Names job_id token r same in
            let kept =
              release-IsRow retry (now + delay) error_type now r
                (All-Memᴰ IsRow table r t'.rows_ok m) (ground arith) in
            let pass = held_token job_id owner token r hit in
            inr (
              r,
              m,
              hit,
              rw
                  (
                    recover_expired-eq-map now rows t.rows_ok,
                    e,
                    update_row test change table r t' m pass names (λ _. refl) kept,
                    (subst (λ k. fetch k (map (written test change) table) ≡ ok (change r)) same
                        (fetch_row test change table r t' m pass names (λ _. refl) kept)),
                  )
                  refl,
              update_row-IsTable test change table r t' m pass names (λ _. refl) kept,
            )
      ]
