-- ===== src/Queue/Changes.antt =====
-- What each transaction of the queue does to the rows (src/debot4/v6/narrative/job_queue.py and
-- job_queue_priority.py).
use debot.Base.{
  [], ℕ, ◌+◌, String, Bool, false, ◌&&◌, List, Option, none, some, Result, ok, err, value_error,
  runtime_error, job_content_conflict, lease_lost, guard, ◌>>=◌, ◌>>◌, if◌then◌else◌, ltb, leb,
  ◌==◌, str_eq, find?, count, in_range, not, ◌||◌, min, ◌∷◌, satisfying,
}
use debot.Queue.Row.{Row, pending, leased, done, failed, is_pending, is_leased, holds}
use debot.Queue.Codec.{Codec, Encoded, job_from_row, NarrativeJob}
use debot.Queue.Sql.{update, has_id, insert_or_ignore, fetch, first_in_order}

abbrev pub is_due : Option ℕ → ℕ → Bool
is_due none now = false
is_due (some t) now = leb t now

-- status='leased' AND lease_expires_at<=?
abbrev pub lease_expired : ℕ → Row → Bool
lease_expired now r = is_leased r.status && is_due r.lease_expires_at now

abbrev pub give_up : ℕ → Row → Row
give_up now r = record r {
  status = failed;
  lease_owner = none;
  lease_id = none;
  lease_expires_at = none;
  error_type = some "LeaseExpired";
  updated_at = now;
  completed_at = some now;
}

abbrev pub requeue : ℕ → Row → Row
requeue now r = record r {
  status = pending;
  available_at = now;
  lease_owner = none;
  lease_id = none;
  lease_expires_at = none;
  error_type = some "LeaseExpired";
  updated_at = now;
}

unfoldable pub recover_expired : ℕ → List Row → Result (List Row)
recover_expired now rows =
    update (λ r. lease_expired now r && leb r.max_attempts r.attempts) (give_up now) rows
    >>= update (λ r. lease_expired now r && ltb r.attempts r.max_attempts) (requeue now)

-- the row of a new job
abbrev pub new_row : Encoded → ℕ → ℕ → ℕ → ℕ → Row
new_row e priority max_attempts available_at now = record {
  job_id = e.job_id;
  kind = e.kind;
  priority = priority;
  content_sha256 = e.content_sha256;
  payload_json = e.document;
  status = pending;
  attempts = 0;
  max_attempts = max_attempts;
  available_at = available_at;
  lease_owner = none;
  lease_id = none;
  lease_expires_at = none;
  error_type = none;
  created_at = now;
  updated_at = now;
  completed_at = none;
}

abbrev pub merge : ℕ → String → ℕ → Row → Row
merge priority document now r = record r {
  priority = min r.priority priority;
  payload_json = document;
  updated_at = now;
}

unfoldable pub same_content : Encoded → Option Row → Bool
same_content e none = false
same_content e (some r) = str_eq r.kind e.kind && str_eq r.content_sha256 e.content_sha256

-- the branch in which the INSERT was ignored
unfoldable pub merge_rows : Encoded → ℕ → ℕ → List Row → Result (Unit {0} × List Row)
unfolding same_content
merge_rows e priority now rows = do
  guard (same_content e (find? (has_id e.job_id) rows)) (job_content_conflict e.job_id)
  merged ←
      update (λ r. has_id e.job_id r && is_pending r.status) (merge priority e.document now) rows
  ok (tt, merged)

unfoldable pub enqueue_rows : Encoded → ℕ → ℕ → ℕ → ℕ → List Row → Result (Unit {0} × List Row)
unfolding merge_rows
enqueue_rows e priority max_attempts ready now rows =
    elim (insert_or_ignore (new_row e priority max_attempts ready now) rows) [
      | some inserted ↦ ok (tt, inserted)
      | none ↦ merge_rows e priority now rows
    ]

-- status='pending' AND available_at<=? AND attempts<max_attempts
abbrev pub is_ready : ℕ → Row → Bool
is_ready now r = is_pending r.status && leb r.available_at now && ltb r.attempts r.max_attempts

abbrev pub lease : String → String → ℕ → ℕ → Row → Row
lease owner token expires now r = record r {
  status = leased;
  attempts = r.attempts + 1;
  lease_owner = some owner;
  lease_id = some token;
  lease_expires_at = some expires;
  error_type = none;
  updated_at = now;
}

-- WHERE job_id=? AND status='pending'
abbrev pub claimable : String → Row → Bool
claimable job_id r = has_id job_id r && is_pending r.status

unfoldable pub lease_found :
    String → String → ℕ → ℕ → Option Row → List Row → Result (Option Row × List Row)
lease_found owner token expires now none rows = ok (none, rows)
lease_found owner token expires now (some found) rows = do
  written ← update (claimable found.job_id) (lease owner token expires now) rows
  guard (count (claimable found.job_id) rows == 1) runtime_error
  row ← fetch found.job_id written
  ok (some row, written)

unfoldable pub claim_rows : String → String → ℕ → ℕ → List Row → Result (Option Row × List Row)
unfolding lease_found
claim_rows owner token expires now rows = do
  recovered ← recover_expired now rows
  lease_found owner token expires now (first_in_order (is_ready now) recovered) recovered

-- WHERE job_id=? AND status='leased' AND lease_owner=? AND lease_id=?
abbrev pub is_held : String → String → String → Row → Bool
is_held job_id owner token r =
    has_id job_id r && is_leased r.status && holds r.lease_owner owner && holds r.lease_id token

abbrev pub complete : ℕ → Row → Row
complete now r = record r {
  status = done;
  lease_owner = none;
  lease_id = none;
  lease_expires_at = none;
  error_type = none;
  updated_at = now;
  completed_at = some now;
}

unfoldable pub ack_rows : String → String → String → ℕ → List Row → Result (Row × List Row)
ack_rows job_id owner token now rows = do
  recovered ← recover_expired now rows
  written ← update (is_held job_id owner token) (complete now) recovered
  guard (count (is_held job_id owner token) recovered == 1) (lease_lost job_id)
  row ← fetch job_id written
  ok (row, written)

-- WHERE job_id=? AND status='leased' AND lease_id=?
abbrev pub is_token_of : String → String → Row → Bool
is_token_of job_id token r = has_id job_id r && is_leased r.status && holds r.lease_id token

abbrev pub release : Bool → ℕ → String → ℕ → Row → Row
release terminal ready error_type now r = record r {
  status = if terminal then failed else pending;
  available_at = ready;
  lease_owner = none;
  lease_id = none;
  lease_expires_at = none;
  error_type = some error_type;
  updated_at = now;
  completed_at = if terminal then some now else none;
}

unfoldable pub or_lost : String → Option Row → Result Row
or_lost job_id none = err (lease_lost job_id)
or_lost job_id (some r) = ok r

unfoldable pub fail_rows :
    String → String → String → String → Bool → ℕ → ℕ → List Row → Result (Row × List Row)
unfolding or_lost
fail_rows job_id owner token error_type retry delay now rows = do
  recovered ← recover_expired now rows
  held ← or_lost job_id (find? (is_held job_id owner token) recovered)
  let terminal = not retry || leb held.max_attempts held.attempts
  written ←
      update (is_token_of job_id token) (release terminal (now + delay) error_type now) recovered
  row ← fetch job_id written
  ok (row, written)

module _ (codec : Codec) (priority_for : codec.Payload → Result ℕ) (now : ℕ) where
  unfoldable pub set_priority :
      NarrativeJob codec.Payload → ℕ → ℕ × List Row → Result (ℕ × List Row)
  set_priority job priority (changed, rows) =
      if priority == job.priority then ok (changed, rows) else (do
        written ←
            update (claimable job.job_id) (λ r. record r { priority = priority; updated_at = now })
              rows
        ok (changed + count (claimable job.job_id) rows, written))

  -- one round of the loop over the pending rows
  unfoldable pub reprioritize_row : Row → ℕ × List Row → Result (ℕ × List Row)
  unfolding set_priority
  reprioritize_row row state = do
    job ← job_from_row codec row
    priority ← priority_for job.payload
    guard (in_range 1 100 priority) value_error
    set_priority job priority state

  unfoldable pub reprioritize_each : List Row → ℕ × List Row → Result (ℕ × List Row)
  unfolding reprioritize_row
  reprioritize_each [] state = ok state
  reprioritize_each (row ∷ rows) state = reprioritize_row row state >>= reprioritize_each rows

  unfoldable pub reprioritize_rows : List Row → Result (ℕ × List Row)
  unfolding reprioritize_each
  reprioritize_rows rows = reprioritize_each (satisfying (λ r. is_pending r.status) rows) (0, rows)
