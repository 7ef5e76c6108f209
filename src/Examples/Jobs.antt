-- ===== src/Examples/Jobs.antt =====
-- The theorems on the job queue, at the inputs of Queue/Samples.antt.
use mathlib.Core.List.{Memᴰ}
use debot.Queue.Exclusion.{claim-is_settled, ack-is_settled}
use debot.Base.{◌≡◌, refl, true, false, List, [], ◌∷◌, none, ok}
use debot.Queue.Row.{Row, active_x_post}
use debot.Queue.Codec.{Encoded, encode, encode-is_kind, job_from_row, to_job}
use debot.Queue.Changes.{lease, new_row}
use debot.Queue.Identity.{worker_identity, lease_identity}
use debot.Queue.Service.{claim, ack}
use debot.Queue.Tables.{IsTable}
use debot.Queue.Invariant.{IsQueue}
use debot.Queue.Enqueueing.{enqueue_rows-Enqueues, Enqueues}
use debot.Queue.Changes.{enqueue_rows}
use debot.Queue.Requests.{Request, enqueues, claims, run, serve}
use debot.Queue.Preservation.{run-IsQueue}
use debot.Queue.Settlements.{ack-AckEnds, AckEnds}
use debot.Queue.Priority.{
  Registry, IsRegistry, IsRanked, debot_signal, narrative_job_priority, priority_range,
}
use debot.Queue.Worker.{WorkerSettings}
use debot.Queue.Samples.{plain, post_input, post_id, empty, token, worker, one_lease, program}

empty-IsTable : IsTable []
empty-IsTable = record { rows_ok = tt; ids_distinct = tt }

empty-IsQueue : IsQueue plain []
empty-IsQueue = record { table = empty-IsTable; encoded = tt }

-- one job, leased once
abbrev requests : List (Request plain)
requests = enqueues post_input 2 6 none 100 ∷ claims worker 1000 200 token ∷ []

run-IsQueue_example : IsQueue plain (run plain empty requests).rows
run-IsQueue_example = run-IsQueue plain empty requests empty-IsQueue

one_lease-IsQueue : IsQueue plain one_lease.rows
unfolding run serve
one_lease-IsQueue = run-IsQueue plain empty requests empty-IsQueue

worker_named : worker_identity worker ≡ ok worker
unfolding worker_identity
worker_named = refl

other_named : worker_identity "other" ≡ ok "other"
unfolding worker_identity
other_named = refl

token_named : lease_identity token ≡ ok token
unfolding lease_identity
token_named = refl

one_lease-is_open : one_lease.closed ≡ false
unfolding program
one_lease-is_open = refl

ack-AckEnds_example :
    AckEnds plain post_id worker token 300 one_lease (ack plain post_id worker token 300 one_lease)
ack-AckEnds_example =
    ack-AckEnds plain post_id worker worker token token 300 one_lease worker_named token_named
      one_lease-is_open one_lease-IsQueue.table

abbrev post : Encoded
post = encode plain post_input

enqueue_rows-Enqueues_example : Enqueues post 6 2 100 100 [] (enqueue_rows post 6 2 100 100 [])
enqueue_rows-Enqueues_example =
    enqueue_rows-Enqueues post 6 2 100 100 [] empty-IsTable (encode-is_kind plain post_input) refl
      refl

abbrev post_row : Row
post_row = new_row post 6 2 100 100

post_row_reads : job_from_row plain post_row ≡ ok (to_job plain post_row active_x_post post_input)
unfolding program
post_row_reads = refl

abbrev registry : Registry
registry = record { resolve = λ author. 5; resolve_telegram = λ channel. none }

registry-IsRegistry : IsRegistry registry
registry-IsRegistry = record { actor_range = λ author. refl; channel_range = λ channel p e. cc }

late_signal : narrative_job_priority registry (debot_signal true 0) 500_000_000 ≡ ok 80
unfolding narrative_job_priority
late_signal = refl

priority_range_example : IsRanked 0 500_000_000 80
priority_range_example =
    priority_range registry (debot_signal true 0) 500_000_000 80 registry-IsRegistry late_signal

abbrev settings : WorkerSettings
settings = record { worker = worker; lease_us = 1000; retry_delay = 50 }

abbrev leased_row : Row
leased_row = lease worker token 1200 200 (new_row post 6 2 100 100)

leased_row-Memᴰ : Memᴰ leased_row one_lease.rows
unfolding program
leased_row-Memᴰ = Memᴰ.head refl

claim-is_settled_example : Memᴰ leased_row (claim plain "other" 1000 300 token one_lease).1.rows
claim-is_settled_example =
    claim-is_settled plain "other" "other" token 1000 300 one_lease leased_row other_named refl
      one_lease-is_open one_lease-IsQueue.table refl leased_row-Memᴰ

ack-is_settled_example : Memᴰ leased_row (ack plain post_id "other" token 300 one_lease).1.rows
unfolding encode
ack-is_settled_example =
    ack-is_settled plain post_id "other" "other" token token 300 one_lease leased_row other_named
      token_named one_lease-is_open one_lease-IsQueue.table refl refl leased_row-Memᴰ
