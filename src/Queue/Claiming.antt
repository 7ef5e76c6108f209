-- ===== src/Queue/Claiming.antt =====
-- What the transaction of `claim` does to a well-formed table.
use debot.Base.{
  ℕ, String, ◌≡◌, refl, true, false, List, map, Option, none, some, inl, inr, arith, Result, ok,
  All, All-Memᴰ, ◌⊎◌,
}
use debot.Queue.Row.{Row, satisfies_checks, is_pending}
use debot.Queue.Changes.{claim_rows, lease_found, is_ready, lease, claimable}
use debot.Queue.Validity.{IsRow, written, recovered, recover_expired-eq-map}
use debot.Queue.Distinct.{Names, has_id_self}
use debot.Queue.Order.{Selected, IsFirst, first_in_order-Selected}
use debot.Queue.Tables.{
  IsTable, recovered-IsTable, update_row, update_row-IsTable, count_row, fetch_row,
}

module _ (owner token : String) (expires now : ℕ) where
  pub lease-IsRow :
      (r : Row) → IsRow r → is_pending r.status ≡ true → IsRow (lease owner token expires now r)
  unfolding satisfies_checks
  lease-IsRow r h t = ground arith

  -- A found row is leased, and the rest of the table stays.
  abbrev pub leased_table : Row → List Row → List Row
  leased_table r = map (written (claimable r.job_id) (lease owner token expires now))

  -- How the claim ends, from the table `table` of recovered rows.
  abbrev pub Claims : List Row → Result (Option Row × List Row) → Type 0
  Claims table result =
      ((result ≡ ok (none, table)) × All (λ x. is_ready now x ≡ false) table)
      ⊎ ((r : Row) × IsFirst (is_ready now) table r
          × (result ≡ ok (some (lease owner token expires now r), leased_table r table))
          × IsTable (leased_table r table))

  lease_found-Claims :
      (table : List Row)
      → IsTable table
      → (first : Option Row) → Selected (is_ready now) table first
      → Claims table (lease_found owner token expires now first table)
  unfolding lease_found
  lease_found-Claims table t none h = inl (refl, h)
  lease_found-Claims table t (some r) h =
      let test = claimable r.job_id in
      let change = lease owner token expires now in
      let p : is_pending r.status ≡ true = ground (arith, h.passes) in
      let hit : test r ≡ true = rw (has_id_self r, p) refl in
      let names : Names r.job_id test = (λ x c. ground arith) in
      let kept = lease-IsRow r (All-Memᴰ IsRow table r t.rows_ok h.member) p in
      inr (
        r,
        h,
        rw
            (
              update_row test change table r t h.member hit names (λ _. refl) kept,
              count_row test change table r t h.member hit names (λ _. refl) kept,
              fetch_row test change table r t h.member hit names (λ _. refl) kept,
            )
            refl,
        update_row-IsTable test change table r t h.member hit names (λ _. refl) kept,
      )

  -- A claim recovers the expired leases, then leases the first ready row, if there is one.
  pub claim_rows-Claims :
      (rows : List Row)
      → IsTable rows
      → Claims (map (recovered now) rows) (claim_rows owner token expires now rows)
  unfolding claim_rows
  claim_rows-Claims rows t = rw (recover_expired-eq-map now rows t.rows_ok) (
      lease_found-Claims _ (recovered-IsTable now rows t) _
        (first_in_order-Selected (is_ready now) (map (recovered now) rows)))
