-- ===== src/Queue/Samples.antt =====
-- A small codec and what the queue does with it on concrete inputs.
use debot.Base.{
  str_ltb, String, ◌≡◌, refl, List, [], ◌∷◌, none, ok, err, lease_lost, true, false, map,
}
use debot.Queue.Codec.{job_from_row, Codec, encode}
use debot.Queue.Payloads.{Texts, JobInput, job_codec}
use debot.Queue.Row.{satisfies_checks, is_kind, JobStatus, pending, done, failed, active_x_post}
use debot.Queue.Identity.{worker_identity, lease_identity, sanitized_error_type}
use debot.Queue.Changes.{enqueue_rows, claim_rows, recover_expired, ack_rows, fail_rows}
use debot.Queue.Sql.{insert_or_ignore, update, first_in_order, before, fetch}
use debot.Queue.Service.{transaction, JobQueue, enqueue, claim, ack, fail}

-- A JSON value is a text, an object the text of its last item.
abbrev last_text : List (String × String) → String
last_text [] = ""
last_text ((key, value) ∷ []) = value
last_text (item ∷ other ∷ items) = last_text (other ∷ items)

-- A JSON value by its text; an array is empty.
abbrev pub plain_texts : Texts
plain_texts = record {
  Json = String;
  null = "";
  text = λ t. t;
  number = λ n. "1";
  flag = λ b. "true";
  array = λ items. "[]";
  object = last_text;
  canonical_json = last_text;
  sha256 = λ t. t;
  iso = λ at. "at";
  decimal = λ amount. "1";
  digits = λ n. "1";
}

-- An X post, whose id is a text here.
abbrev pub post_input : JobInput String
post_input = JobInput.x_input (record {
  tweet_id = "post";
  author = "elonmusk";
  text = "post";
  created_at = 90;
  fetched_at = 95;
  post_type = "post";
  target_author = "";
  target_text = "";
  urls = [];
  bsc_contracts = [];
})

abbrev pub plain : Codec
plain = job_codec plain_texts (λ d. ok (active_x_post, post_input))

abbrev pub post_id : String
post_id = "narrative-job-post"

abbrev pub empty : JobQueue
empty = record { rows = []; closed = false }

abbrev pub token : String
token = "00112233445566778899aabbccddeeff"

abbrev pub worker : String
worker = "narrative-grok-1"

-- One job of priority 6, enqueued at time 100.
abbrev pub one_job : JobQueue
one_job = (enqueue plain post_input 2 6 none 100 empty).1

-- It is leased at time 200 for 1000 microseconds.
abbrev pub one_lease : JobQueue
one_lease = (claim plain worker 1000 200 token one_job).1

abbrev pub statuses : JobQueue → List JobStatus
statuses q = map (λ r. r.status) q.rows

unfoldable pub program : Unit {0}
unfolding enqueue claim ack fail worker_identity lease_identity sanitized_error_type transaction
    enqueue_rows insert_or_ignore satisfies_checks is_kind claim_rows recover_expired update
    first_in_order before str_ltb fetch ack_rows fail_rows job_from_row encode
program = tt

-- An acknowledgement in time completes the job.
acked : statuses (ack plain post_id worker token 300 one_lease).1 ≡ done ∷ []
unfolding program
acked = refl

-- At the expiry the lease is lost, and the call leaves the queue as it found it.
acked_late : ack plain post_id worker token 1200 one_lease ≡ (err (lease_lost post_id), one_lease)
unfolding program
acked_late = refl

-- The first failure of two attempts puts the job back, and the second ends it.
failed_once :
    statuses (fail plain post_id worker token "Timeout" true 0 300 one_lease).1 ≡ pending ∷ []
unfolding program
failed_once = refl

failed_twice :
    statuses
      (fail plain post_id worker token "Timeout" true 0 500
        (claim plain worker 1000 400 token
          (fail plain post_id worker token "Timeout" true 0 300 one_lease).1).1).1
    ≡ failed ∷ []
unfolding program
failed_twice = refl

-- A claim before the expiry finds nothing, and one after it leases the job again.
claimed_early : (claim plain worker 1000 1199 token one_lease).0 ≡ ok none
unfolding program
claimed_early = refl

reclaimed : map (λ r. r.attempts) (claim plain worker 1000 1200 token one_lease).1.rows ≡ 2 ∷ []
unfolding program
reclaimed = refl
