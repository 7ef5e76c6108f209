-- ===== src/Queue/Codec.antt =====
-- The encoding of a job's input (src/debot4/v6/narrative/job_payloads.py) and `job_from_row`
-- (job_queue_models.py).
use debot.Base.{
  ℕ, String, ◌≡◌, Bool, true, ◌&&◌, Option, Result, ok, job_content_conflict, ◌>>=◌, ◌>>◌, guard,
  str_eq, str_append, str_mem, satisfying, not, List, [], ◌∷◌, refl,
}
use debot.Queue.Row.{
  Row, JobStatus, is_kind, active_x_post, active_telegram_post, passive_debot_signal,
  passive_market_anomaly,
}

-- What `encode_job_input` returns.
pub record Encoded : Type 0 where
  pub job_id : String
  pub kind : String
  pub content_sha256 : String
  pub document : String

-- The classes of input that `encode_job_input` accepts.
pub data InputClass : Type 0 where
  x_post telegram_post debot_signal market_anomaly : InputClass

-- What the encoding rests on (Payloads gives the source's): the inputs with their class, source id and
-- dictionary, JSON values, `canonical_json`, SHA-256, and `decode_job_input`. Nothing is assumed of these
-- functions; in particular a document need not decode to the input that was encoded.
pub record Codec : Type 1 where
  pub Payload : Type 0
  pub Json : Type 0
  pub class_of : Payload → InputClass
  pub source_id : Payload → String
  pub payload_of : Payload → List (String × Json)
  pub text : String → Json
  pub object : List (String × Json) → Json
  pub canonical_json : List (String × Json) → String
  pub sha256 : String → String
  pub decode : String → Result (String × Payload)

abbrev pub kind_of : InputClass → String
kind_of x_post = active_x_post
kind_of telegram_post = active_telegram_post
kind_of debot_signal = passive_debot_signal
kind_of market_anomaly = passive_market_anomaly

kind_of-is_kind : (class : InputClass) → is_kind (kind_of class) ≡ true
unfolding is_kind
kind_of-is_kind x_post = refl
kind_of-is_kind telegram_post = refl
kind_of-is_kind debot_signal = refl
kind_of-is_kind market_anomaly = refl

-- The keys of the payload that are not part of the content.
abbrev pub volatile : InputClass → List String
volatile x_post = "fetched_at" ∷ []
volatile telegram_post = "fetched_at" ∷ []
volatile debot_signal =
    "available_at" ∷ "provider_fdv_usd" ∷ "provider_liquidity_usd" ∷ "security_hint" ∷ "raw_context"
    ∷ []
volatile market_anomaly = []

pub record NarrativeJob (Payload : Type 0) : Type 0 where
  pub job_id : String
  pub kind : String
  pub payload : Payload
  pub status : JobStatus
  pub attempts : ℕ
  pub max_attempts : ℕ
  pub priority : ℕ
  pub available_at : ℕ
  pub created_at : ℕ
  pub updated_at : ℕ
  pub lease_owner : Option String
  pub lease_id : Option String
  pub lease_expires_at : Option ℕ
  pub error_type : Option String
  pub completed_at : Option ℕ

module _ (codec : Codec) where
  open codec use {
    Payload, Json, class_of, source_id, payload_of, text, object, canonical_json, sha256, decode,
  }

  -- The dictionary of a class without its volatile keys; an anomaly's content is its identity alone.
  abbrev pub content_of : InputClass → Payload → List (String × Json)
  content_of market_anomaly value = ("anomaly_id", text (source_id value)) ∷ []
  content_of class value =
      satisfying (λ (item : String × Json). not (str_mem item.0 (volatile class)))
        (payload_of value)

  -- `encode_job_input`
  unfoldable pub encode : Payload → Encoded
  encode value = record {
    job_id = str_append "narrative-job-" (
        sha256 (
          canonical_json (
            ("schema", text "debot4.narrative-job-identity.v1")
            ∷ ("kind", text (kind_of (class_of value)))
            ∷ ("source_id", text (source_id value))
            ∷ [])));
    kind = kind_of (class_of value);
    content_sha256 = sha256 (
        canonical_json (
          ("kind", text (kind_of (class_of value)))
          ∷ ("content", object (content_of (class_of value) value))
          ∷ []));
    document = canonical_json (
        ("schema", text "debot4.narrative-job-input.v1")
        ∷ ("kind", text (kind_of (class_of value)))
        ∷ ("payload", object (payload_of value))
        ∷ []);
  }

  pub encode-is_kind : (value : Payload) → is_kind (encode value).kind ≡ true
  unfolding encode is_kind
  encode-is_kind value = kind_of-is_kind (class_of value)

  unfoldable pub is_encoding : Row → String → Payload → Bool
  is_encoding row kind payload =
      str_eq kind row.kind
      && str_eq (encode payload).kind kind
      && str_eq (encode payload).job_id row.job_id
      && str_eq (encode payload).content_sha256 row.content_sha256
      && str_eq (encode payload).document row.payload_json

  abbrev pub to_job : Row → String → Payload → NarrativeJob Payload
  to_job row kind payload = record {
    job_id = row.job_id;
    kind = kind;
    payload = payload;
    status = row.status;
    attempts = row.attempts;
    max_attempts = row.max_attempts;
    priority = row.priority;
    available_at = row.available_at;
    created_at = row.created_at;
    updated_at = row.updated_at;
    lease_owner = row.lease_owner;
    lease_id = row.lease_id;
    lease_expires_at = row.lease_expires_at;
    error_type = row.error_type;
    completed_at = row.completed_at;
  }

  unfoldable pub job_from_row : Row → Result (NarrativeJob Payload)
  unfolding is_encoding
  job_from_row row = do
    (kind, payload) ← decode row.payload_json
    guard (is_encoding row kind payload) (job_content_conflict row.job_id)
    ok (to_job row kind payload)
