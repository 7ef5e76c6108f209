-- ===== src/Queue/Contract.antt =====
-- What a caller of `claim` gets, over a well-formed table.
use debot.Queue.Identity.{worker_identity}
use debot.Base.{
  ℕ, String, ◌≡◌, refl, true, false, map, Option, none, inl, inr, ◌⊎◌, Result, ok, All, ltb, leb,
  ◌&&◌, ◌+◌,
}
use debot.Queue.Row.{Row}
use debot.Queue.Codec.{Codec, NarrativeJob, job_from_row}
use debot.Queue.Changes.{is_ready, lease, claim_rows}
use debot.Queue.Service.{JobQueue, transaction, optional_job, proceed, lift, claim, day_us, found}
use debot.Queue.Validity.{recovered}
use debot.Queue.Order.{IsFirst}
use debot.Queue.Claiming.{claim_rows-Claims, leased_table}
use debot.Queue.Tables.{IsTable}
use debot.Queue.Reading.{committed}

module _ (codec : Codec) where
  open codec use {Payload}

  -- How a claim ends: nothing is ready, or the first ready row is leased to the worker, and the call returns
  -- what the leased row reads as.
  abbrev pub ClaimEnds :
      (owner token : String) (expires now : ℕ)
      → JobQueue
      → Result (Option (NarrativeJob Payload)) × JobQueue
      → Type 0
  ClaimEnds owner token expires now q result =
      ((result ≡ (ok none, record q { rows = map (recovered now) q.rows }))
        × All (λ x. is_ready now x ≡ false) (map (recovered now) q.rows))
      ⊎ ((r : Row) × IsFirst (is_ready now) (map (recovered now) q.rows) r
          × (result ≡ (
            found (job_from_row codec (lease owner token expires now r)),
            record q { rows = leased_table owner token expires now r (map (recovered now) q.rows) },
          )))

  claim_ends :
      (owner token : String) (expires now : ℕ) (q : JobQueue)
      → q.closed ≡ false
      → IsTable q.rows
      → ClaimEnds owner token expires now q (
          proceed
            (λ row. lift (optional_job codec row))
            (transaction (claim_rows owner token expires now) q).0
            (transaction (claim_rows owner token expires now) q).1)
  unfolding optional_job
  claim_ends owner token expires now q o h =
      elim (claim_rows-Claims owner token expires now q.rows h) [
        | inl (idle, none_ready) ↦ inl (rw (committed codec q _ none _ o idle) refl, none_ready)
        | inr (r, first, leases, t) ↦ inr (r, first, rw (committed codec q _ _ _ o leases) refl)
      ]

  pub claim-ClaimEnds :
      (worker owner token : String) (lease_us now : ℕ) (q : JobQueue)
      → worker_identity worker ≡ ok owner
      → (ltb 0 lease_us && leb lease_us day_us) ≡ true
      → q.closed ≡ false
      → IsTable q.rows
      → ClaimEnds owner token (now + lease_us) now q (claim codec worker lease_us now token q)
  unfolding claim
  claim-ClaimEnds worker owner token lease_us now q named bound o h =
      rw (named, bound) (claim_ends owner token (now + lease_us) now q o h)
