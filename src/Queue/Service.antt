-- ===== src/Queue/Service.antt =====
-- The operations of `NarrativeJobQueue` (src/debot4/v6/narrative/job_queue.py) and the transaction that
-- they run in (job_queue_sqlite.py). The clock's answer `now`, a drawn lease token and durations (in
-- microseconds) are arguments. A method is a function of the queue: it returns or raises, and leaves
-- a queue.
use Prim.Native.Nat.{ℕ}
use debot.Base.{
  ◌+◌, String, Bool, true, false, ◌&&◌, List, Option, none, some, Result, ok, err, value_error,
  runtime_error, guard, if◌then◌else◌, ltb, leb, find?, count, in_range,
}
use debot.Queue.Identity.{worker_identity, lease_identity, sanitized_error_type}
use debot.Queue.Row.{Row, JobStatus, pending, leased, done, failed}
use debot.Queue.Codec.{Codec, encode, NarrativeJob, job_from_row}
use debot.Queue.Sql.{has_id}
use debot.Queue.Changes.{enqueue_rows, claim_rows, ack_rows, fail_rows, reprioritize_rows}

pub record JobQueue : Type 0 where
  pub rows : List Row
  pub closed : Bool

abbrev pub Call : Type 0 → Type 0
Call A = JobQueue → Result A × JobQueue

-- An exception ends the method.
abbrev pub proceed : {A B : Type 0} → (A → Call B) → Result A → Call B
proceed f (ok a) q = f a q
proceed f (err e) q = (err e, q)

infixl 5 ◌>>=◌ ◌>>◌
abbrev pub ◌>>=◌ : {A B : Type 0} → Call A → (A → Call B) → Call B
◌>>=◌ m f q = proceed f (m q).0 (m q).1

abbrev pub ◌>>◌ : {A : Type 0} → Call (Unit {0}) → Call A → Call A
m >> k = m >>= λ _. k

abbrev pub lift : {A : Type 0} → Result A → Call A
lift r q = (r, q)

-- COMMIT after a body that returns, ROLLBACK after one that raises
abbrev pub settle : {A : Type 0} → JobQueue → Result (A × List Row) → Result A × JobQueue
settle q (ok (a, rows)) = (ok a, record q { rows = rows })
settle q (err e) = (err e, q)

unfoldable pub transaction : {A : Type 0} → (List Row → Result (A × List Row)) → Call A
transaction body q = if q.closed then (err runtime_error, q) else settle q (body q.rows)

abbrev pub day_us : ℕ
day_us = 86_400_000_000

-- A read outside a transaction: `_ensure_open`, then SELECT.
abbrev pub read : {A : Type 0} → (List Row → Result A) → Call A
read select q = (if q.closed then err runtime_error else select q.rows, q)

abbrev pub or_default : Option ℕ → ℕ → ℕ
or_default none d = d
or_default (some t) d = t

abbrev pub is_status : JobStatus → JobStatus → Bool
is_status pending pending = true
is_status leased leased = true
is_status done done = true
is_status failed failed = true
is_status _ _ = false

abbrev pub found : {A : Type 0} → Result A → Result (Option A)
found (ok job) = ok (some job)
found (err e) = err e

module _ (codec : Codec) where
  open codec use {Payload}

  unfoldable pub enqueue :
      Payload → (max_attempts priority : ℕ) → Option ℕ → (now : ℕ) → Call String
  enqueue payload max_attempts priority available_at now = do
    lift (guard (in_range 1 100 max_attempts) value_error)
    lift (guard (in_range 1 100 priority) value_error)
    transaction (
        enqueue_rows (encode codec payload) priority max_attempts (or_default available_at now) now)
    lift (ok (encode codec payload).job_id)

  -- `None if row is None else job_from_row(row)`
  unfoldable pub optional_job : Option Row → Result (Option (NarrativeJob Payload))
  optional_job none = ok none
  optional_job (some row) = found (job_from_row codec row)

  unfoldable pub claim :
      (worker : String) (lease_us now : ℕ) (token : String) → Call (Option (NarrativeJob Payload))
  unfolding optional_job
  claim worker lease_us now token = do
    owner ← lift (worker_identity worker)
    lift (guard (ltb 0 lease_us && leb lease_us day_us) value_error)
    row ← transaction (claim_rows owner token (now + lease_us) now)
    lift (optional_job row)

  unfoldable pub ack : (job_id worker token : String) (now : ℕ) → Call (NarrativeJob Payload)
  ack job_id worker token now = do
    owner ← lift (worker_identity worker)
    lease_id ← lift (lease_identity token)
    row ← transaction (ack_rows job_id owner lease_id now)
    lift (job_from_row codec row)

  unfoldable pub fail :
      (job_id worker token error : String) (retry : Bool) (retry_delay now : ℕ)
      → Call (NarrativeJob Payload)
  fail job_id worker token error retry retry_delay now = do
    owner ← lift (worker_identity worker)
    lease_id ← lift (lease_identity token)
    lift (guard (leb retry_delay day_us) value_error)
    row ←
        transaction
          (fail_rows job_id owner lease_id (sanitized_error_type error) retry retry_delay now)
    lift (job_from_row codec row)

  unfoldable pub get : String → Call (Option (NarrativeJob Payload))
  unfolding optional_job
  get job_id = do row ← read (λ rows. ok (find? (has_id job_id) rows)); lift (optional_job row)

  unfoldable pub reprioritize_pending : (Payload → Result ℕ) → (now : ℕ) → Call ℕ
  reprioritize_pending priority_for now = transaction (reprioritize_rows codec priority_for now)

unfoldable pub counts : Call (JobStatus → ℕ)
counts = read (λ rows. ok (λ status. count (λ r. is_status status r.status) rows))

unfoldable pub close : JobQueue → JobQueue
close q = record q { closed = true }
