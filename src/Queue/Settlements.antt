-- ===== src/Queue/Settlements.antt =====
-- What a caller of `ack` and of `fail` gets, over a well-formed table.
use mathlib.Core.List.{Memᴰ}
use debot.Queue.Settling.{released, released_table}
use debot.Queue.Identity.{worker_identity, lease_identity}
use debot.Base.{
  ℕ, String, ◌≡◌, refl, true, false, map, inl, inr, ◌⊎◌, Result, ok, err, lease_lost, All, Bool,
}
use debot.Queue.Row.{Row}
use debot.Queue.Codec.{Codec, NarrativeJob, job_from_row}
use debot.Queue.Changes.{is_held, complete, ack_rows}
use debot.Queue.Service.{JobQueue, transaction, proceed, lift, ack}
use debot.Queue.Validity.{written, recovered}
use debot.Queue.Settling.{ack_rows-Acks}
use debot.Queue.Tables.{IsTable}
use debot.Queue.Reading.{committed, rolled_back}

module _ (codec : Codec) where
  open codec use {Payload}

  -- How an acknowledgement ends: nobody's lease is the one named, and the queue stays as it is; or the
  -- held row is done.
  abbrev pub AckEnds :
      (job_id owner token : String) (now : ℕ)
      → JobQueue
      → Result (NarrativeJob Payload) × JobQueue
      → Type 0
  AckEnds job_id owner token now q result =
      ((result ≡ (err (lease_lost job_id), q))
        × All (λ x. is_held job_id owner token x ≡ false) (map (recovered now) q.rows))
      ⊎ ((r : Row) × Memᴰ r (map (recovered now) q.rows)
          × (is_held job_id owner token r ≡ true)
          × (result ≡ (
            job_from_row codec (complete now r),
            record q {
              rows =
                  map (written (is_held job_id owner token) (complete now))
                    (map (recovered now) q.rows);
            },
          )))

  ack_ends :
      (job_id owner token : String) (now : ℕ) (q : JobQueue)
      → q.closed ≡ false
      → IsTable q.rows
      → AckEnds job_id owner token now q (
          proceed
            (λ row. lift (job_from_row codec row))
            (transaction (ack_rows job_id owner token now) q).0
            (transaction (ack_rows job_id owner token now) q).1)
  ack_ends job_id owner token now q o h = elim (ack_rows-Acks job_id owner token now q.rows h) [
    | inl (lost, absent) ↦ inl (rw (rolled_back codec q _ _ o lost) refl, absent)
    | inr (r, m, held, acks, t) ↦ inr (r, m, held, rw (committed codec q _ _ _ o acks) refl)
  ]

  -- How a reported failure ends: nobody's lease is the one named, and the queue stays as it is; or the
  -- held row is requeued after the delay, or fails for good when no retry is wanted or the attempts are
  -- used up.
  abbrev pub FailEnds :
      (job_id owner token error_type : String) (retry : Bool) (delay now : ℕ)
      → JobQueue
      → Result (NarrativeJob Payload) × JobQueue
      → Type 0
  FailEnds job_id owner token error_type retry delay now q result =
      ((result ≡ (err (lease_lost job_id), q))
        × All (λ x. is_held job_id owner token x ≡ false) (map (recovered now) q.rows))
      ⊎ ((r : Row) × Memᴰ r (map (recovered now) q.rows)
          × (is_held job_id owner token r ≡ true)
          × (result ≡ (
            job_from_row codec (released job_id owner token error_type retry delay now r),
            record q {
              rows =
                  released_table job_id owner token error_type retry delay now r
                    (map (recovered now) q.rows);
            },
          )))

  -- An acknowledgement on an open queue whose table is well formed either finds no row that the named lease
  -- still holds after the expired leases are recovered, raises `LeaseLostError` and leaves the queue as it
  -- was; or it marks the held row done, which is committed, and returns the job that this row reads as, or
  -- raises what reading it raises.
  pub ack-AckEnds :
      (job_id worker owner token lease_id : String) (now : ℕ) (q : JobQueue)
      → worker_identity worker ≡ ok owner
      → lease_identity token ≡ ok lease_id
      → q.closed ≡ false
      → IsTable q.rows
      → AckEnds job_id owner lease_id now q (ack codec job_id worker token now q)
  unfolding ack
  ack-AckEnds job_id worker owner token lease_id now q named drawn o h =
      rw (named, drawn) (ack_ends job_id owner lease_id now q o h)
