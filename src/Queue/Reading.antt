-- ===== src/Queue/Reading.antt =====
-- How a row is read back as a job, and how a transaction ends, for the contracts of the methods.
use debot.Base.{
  ◌≡◌, refl, ap, ◌∙◌, false, List, none, arith, Result, ok, err, if◌then◌else◌, runtime_error,
}
use debot.Queue.Row.{Row}
use debot.Queue.Codec.{Codec, encode}
use debot.Queue.Service.{JobQueue, transaction, settle, optional_job}

module _ (codec : Codec) where
  open codec use {Payload, decode}

  -- The document of the row decodes to this payload, whose encoding is what the row holds.
  pub record IsReadable (r : Row) (payload : Payload) : Type 0 where
    pub decodes : decode r.payload_json ≡ ok (r.kind, payload)
    pub same_id : (encode codec payload).job_id ≡ r.job_id
    pub same_kind : (encode codec payload).kind ≡ r.kind
    pub same_digest : (encode codec payload).content_sha256 ≡ r.content_sha256
    pub same_document : (encode codec payload).document ≡ r.payload_json

  pub none_job : optional_job codec none ≡ ok none
  unfolding optional_job
  none_job = refl

  pub committed :
      {A : Type 0} (q : JobQueue) (body : List Row → Result (A × List Row)) (a : A)
      (rows : List Row)
      → q.closed ≡ false
      → body q.rows ≡ ok (a, rows)
      → transaction body q ≡ (ok a, record q { rows = rows })
  unfolding transaction
  committed q body a rows o e =
      ap (λ c. if c then (err runtime_error, q) else settle q (body q.rows)) o ∙ ap (settle q) e

  pub rolled_back :
      {A : Type 0} (q : JobQueue) (body : List Row → Result (A × List Row)) (e : _)
      → q.closed ≡ false
      → body q.rows ≡ err e
      → transaction body q ≡ (err e, q)
  unfolding transaction
  rolled_back q body e o h = ground arith
