-- ===== src/Queue/Worker.antt =====
-- `NarrativeResearchWorker.work_once` (src/debot4/v6/narrative/worker.py). The research runtime is a
-- parameter: a call returns, or raises an exception of the class that it names. The class of a payload
-- (`isinstance`) is one too, as it belongs to the codec. The two clock readings are arguments.
use debot.Base.{ℕ, String, Bool, true, Option, none, some, ok, if◌then◌else◌, str_eq}
use debot.Queue.Row.{
  JobStatus, active_x_post, active_telegram_post, passive_debot_signal, passive_market_anomaly,
}
use debot.Queue.Codec.{Codec, NarrativeJob}
use debot.Queue.Service.{Call, ◌>>=◌, lift, claim, ack, fail}
use debot.Queue.Requests

pub data PayloadClass : Type 0 where
  x_post telegram_post debot_signal market_anomaly : PayloadClass

pub record WorkCycle : Type 0 where
  pub job_id : Option String
  pub status : Option JobStatus
  pub attempts : ℕ

-- the two keyword defaults of the worker's times, and its name
pub record WorkerSettings : Type 0 where
  pub worker : String
  pub lease_us : ℕ
  pub retry_delay : ℕ

-- The kind and the class that each branch of `_research` asks for.
abbrev pub is_match : String → PayloadClass → Bool
is_match kind x_post = str_eq kind active_x_post
is_match kind telegram_post = str_eq kind active_telegram_post
is_match kind debot_signal = str_eq kind passive_debot_signal
is_match kind market_anomaly = str_eq kind passive_market_anomaly

module _ (codec : Codec) (class_of : codec.Payload → PayloadClass)
    (research : PayloadClass → codec.Payload → Option String) where
  -- `_research`: nothing, or the class of the exception
  unfoldable pub dispatch : String → codec.Payload → Option String
  dispatch kind payload =
      if is_match kind (class_of payload)
      then research (class_of payload) payload
      else some "TypeError"

  abbrev pub cycle_of : NarrativeJob codec.Payload → WorkCycle
  cycle_of job = record {
    job_id = some job.job_id;
    status = some job.status;
    attempts = job.attempts;
  }

  -- the text that a missing lease would be read as
  abbrev pub lease_of : Option String → String
  lease_of none = "None"
  lease_of (some lease_id) = lease_id

  -- After the research: `ack`, or `fail` with a retry.
  unfoldable pub report :
      WorkerSettings → (later : ℕ) → NarrativeJob codec.Payload → Option String → Call WorkCycle
  report s later job none = do
    done ← ack codec job.job_id s.worker (lease_of job.lease_id) later
    lift (ok (cycle_of done))
  report s later job (some error) = do
    failed ← fail codec job.job_id s.worker (lease_of job.lease_id) error true s.retry_delay later
    lift (ok (cycle_of failed))

  abbrev pub idle : WorkCycle
  idle = record { job_id = none; status = none; attempts = 0 }

  unfoldable pub work_on :
      WorkerSettings → (later : ℕ) → Option (NarrativeJob codec.Payload) → Call WorkCycle
  work_on s later none = lift (ok idle)
  work_on s later (some job) = report s later job (dispatch job.kind job.payload)

  unfoldable pub work_once :
      WorkerSettings → (now : ℕ) (token : String) (later : ℕ) → Call WorkCycle
  work_once s now token later = do
    job ← claim codec s.worker s.lease_us now token
    work_on s later job
