-- ===== src/Queue/Row.antt =====
-- The table `narrative_jobs` (src/debot4/v6/narrative/job_queue_schema.py) and the life of a job
-- (src/debot4/v6/narrative/job_queue_models.py). A stored time is the instant, in microseconds: the
-- ISO texts of UTC instants that the table holds compare as the instants do.
use debot.Base.{
  ℕ, String, Bool, true, false, ◌&&◌, [], ◌∷◌, Option, none, some, in_range, str_mem, str_eq,
}

pub data JobStatus : Type 0 where
  pending leased done failed : JobStatus

pub record Row : Type 0 where
  pub job_id : String
  pub kind : String
  pub priority : ℕ
  pub content_sha256 : String
  pub payload_json : String
  pub status : JobStatus
  pub attempts : ℕ
  pub max_attempts : ℕ
  pub available_at : ℕ
  pub lease_owner : Option String
  pub lease_id : Option String
  pub lease_expires_at : Option ℕ
  pub error_type : Option String
  pub created_at : ℕ
  pub updated_at : ℕ
  pub completed_at : Option ℕ

abbrev pub is_pending : JobStatus → Bool
is_pending pending = true
is_pending _ = false

abbrev pub is_leased : JobStatus → Bool
is_leased leased = true
is_leased _ = false

-- status IN ('done','failed')
abbrev pub is_final : JobStatus → Bool
is_final done = true
is_final failed = true
is_final _ = false

abbrev pub not_null {ℓ} : {A : Type ℓ} → Option A → Bool
not_null none = false
not_null (some _) = true

abbrev pub iff : Bool → Bool → Bool
iff true b = b
iff false true = false
iff false false = true

-- `column = ?` at a column that may be NULL
abbrev pub holds : Option String → String → Bool
holds none s = false
holds (some t) s = str_eq t s

-- The job kinds of src/debot4/v6/narrative/job_payloads.py.
abbrev pub active_x_post : String
active_x_post = "active_x_post"

abbrev pub active_telegram_post : String
active_telegram_post = "active_telegram_post"

abbrev pub passive_debot_signal : String
passive_debot_signal = "passive_debot_signal"

abbrev pub passive_market_anomaly : String
passive_market_anomaly = "passive_market_anomaly"

unfoldable pub is_kind : String → Bool
is_kind kind =
    str_mem kind
      (active_x_post ∷ active_telegram_post ∷ passive_debot_signal ∷ passive_market_anomaly ∷ [])

-- The CHECK constraints of the table.
unfoldable pub satisfies_checks : Row → Bool
satisfies_checks r =
    is_kind r.kind
    && in_range 1 100 r.priority
    && in_range 1 100 r.max_attempts
    && iff (is_leased r.status)
        (not_null r.lease_owner && not_null r.lease_id && not_null r.lease_expires_at)
    && iff (is_final r.status) (not_null r.completed_at)
