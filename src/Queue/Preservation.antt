-- ===== src/Queue/Preservation.antt =====
-- Every request keeps the invariant of the queue, on every path; so it holds after any history.
use debot.Base.{
  ℕ, ◌≡◌, refl, sym, ◌∙◌, subst, Bool, true, ◌&&◌, List, [], ◌∷◌, ◌++◌, map, inl, inr, arith, ok,
  All, Option-cases, find?, in_range, find?-Memᴰ, find?-test, eq_iff, String, Option, Result,
}
use debot.Queue.Row.{Row, is_pending}
use debot.Queue.Sql.{has_id}
use debot.Queue.Changes.{enqueue_rows, merge, same_content, new_row}
use debot.Queue.Validity.{written}
use debot.Queue.Codec.{Codec, encode, encode-is_kind}
use debot.Queue.Enqueueing.{enqueue_rows-Enqueues}
use debot.Queue.Distinct.{All-row}
use debot.Queue.Validity.{All-written}
use debot.Queue.Invariant.{
  IsEncoded, IsQueue, stored, claim_rows-IsQueue, ack_rows-IsQueue, fail_rows-IsQueue,
  Priced-IsQueue,
}
use debot.Queue.Service.{
  JobQueue, transaction, enqueue, claim, ack, fail, get, reprioritize_pending, close, or_default,
}
use debot.Queue.Requests.{
  Request, enqueues, claims, acks, fails, gets, reprioritizes, closes, serve, run, Keeps-lift,
  Keeps-bind, Keeps-guard, Keeps-read, Keeps-transaction, keeps_rules,
}
use debot.Queue.Requests
use debot.Queue.Changes.{claim_rows, ack_rows, fail_rows}
use debot.Queue.Repricing.{reprioritize_rows-keeps}

module _ (codec : Codec) where
  open codec use {Payload}

  new_row-IsEncoded :
      (p : Payload) (priority max_attempts ready now : ℕ)
      → IsEncoded codec (new_row (encode codec p) priority max_attempts ready now)
  new_row-IsEncoded p priority max_attempts ready now = record {
    payload = p;
    same_id = refl;
    same_kind = refl;
    same_digest = refl;
    same_document = refl;
  }

  append-IsEncoded :
      (rows : List Row) (r : Row)
      → All (IsEncoded codec) rows
      → IsEncoded codec r
      → All (IsEncoded codec) (rows ++ r ∷ [])
  append-IsEncoded [] r h k = (k, tt)
  append-IsEncoded (x ∷ xs) r h k = (h.0, append-IsEncoded xs r h.1 k)

  -- A merge writes the document of the same content into the one row with its id.
  merged-IsEncoded :
      (p : Payload) (priority now : ℕ) (rows : List Row)
      → IsQueue codec rows
      → same_content (encode codec p) (find? (has_id (encode codec p).job_id) rows) ≡ true
      → All (IsEncoded codec) (
          map
            (written
              (λ r. has_id (encode codec p).job_id r && is_pending r.status)
              (merge priority (encode codec p).document now))
            rows)
  unfolding same_content
  merged-IsEncoded p priority now rows h same =
      elim (Option-cases (find? (has_id (encode codec p).job_id) rows)) [
        | inl e ↦ absurd (ground arith)
        | inr (r, e) ↦
            let id : r.job_id ≡ (encode codec p).job_id =
              (eq_iff r.job_id (encode codec p).job_id).0 (find?-test _ rows r e) in
            let kind : r.kind ≡ (encode codec p).kind =
              (eq_iff r.kind (encode codec p).kind).0 (ground arith) in
            let digest : r.content_sha256 ≡ (encode codec p).content_sha256 =
              (eq_iff r.content_sha256 (encode codec p).content_sha256).0 (ground arith) in
            let test : Row → Bool =
              (λ x. has_id (encode codec p).job_id x && is_pending x.status) in
            All-written (IsEncoded codec) test _ rows h.encoded (
              All-row (λ x. IsEncoded codec (merge priority (encode codec p).document now x)) r test
                rows (λ x c. rw id (ground arith)) h.table.ids_distinct (find?-Memᴰ _ rows r e)
                (record {
                  payload = p;
                  same_id = sym id;
                  same_kind = sym kind;
                  same_digest = sym digest;
                  same_document = refl;
                }))
      ]

  enqueue_rows-IsQueue :
      (p : Payload) (priority max_attempts ready now : ℕ)
      → in_range 1 100 priority ≡ true
      → in_range 1 100 max_attempts ≡ true
      → (rows : List Row) → IsQueue codec rows
      → (u : Unit {0}) (rows' : List Row)
      → enqueue_rows (encode codec p) priority max_attempts ready now rows ≡ ok (u, rows')
      → IsQueue codec rows'
  enqueue_rows-IsQueue p priority max_attempts ready now range bound rows h u rows' e =
      elim (enqueue_rows-Enqueues (encode codec p) priority max_attempts ready now rows h.table
        (encode-is_kind codec p) range bound) [
          | inl (inserted, _, t) ↦ subst (IsQueue codec) (stored (sym inserted ∙ e)) (record {
            table = t;
            encoded =
                append-IsEncoded rows _ h.encoded
                  (new_row-IsEncoded p priority max_attempts ready now);
          })
          | inr (inl (merged, same, t)) ↦
              subst (IsQueue codec) (stored (sym merged ∙ e))
                (record { table = t; encoded = merged-IsEncoded p priority now rows h same })
          | inr (inr (conflict, _, _)) ↦ absurd (cc)
        ]

  claim_transaction :
      (owner token : String) (expires now : ℕ)
      → Requests.Keeps (IsQueue codec) (transaction (claim_rows owner token expires now))
  claim_transaction owner token expires now =
      Keeps-transaction (claim_rows owner token expires now)
        (claim_rows-IsQueue codec owner token expires now)

  ack_transaction :
      (job_id owner token : String) (now : ℕ)
      → Requests.Keeps (IsQueue codec) (transaction (ack_rows job_id owner token now))
  ack_transaction job_id owner token now =
      Keeps-transaction _ (ack_rows-IsQueue codec job_id owner token now)

  fail_transaction :
      (job_id owner token error_type : String) (retry : Bool) (delay now : ℕ)
      → Requests.Keeps
          (IsQueue codec)
          (transaction (fail_rows job_id owner token error_type retry delay now))
  fail_transaction job_id owner token error_type retry delay now =
      Keeps-transaction _ (fail_rows-IsQueue codec job_id owner token error_type retry delay now)

  pub claim-IsQueue :
      (worker : String) (lease_us now : ℕ) (token : String)
      → Requests.Keeps (IsQueue codec) (claim codec worker lease_us now token)
  unfolding claim
  claim-IsQueue worker lease_us now token = search (keeps_rules, claim_transaction)

  pub ack-IsQueue :
      (job_id worker token : String) (now : ℕ)
      → Requests.Keeps (IsQueue codec) (ack codec job_id worker token now)
  unfolding ack
  ack-IsQueue job_id worker token now = search (keeps_rules, ack_transaction)

  pub fail-IsQueue :
      (job_id worker token error : String) (retry : Bool) (delay now : ℕ)
      → Requests.Keeps (IsQueue codec) (fail codec job_id worker token error retry delay now)
  unfolding fail
  fail-IsQueue job_id worker token error retry delay now = search (keeps_rules, fail_transaction)

  get-IsQueue : (job_id : String) → Requests.Keeps (IsQueue codec) (get codec job_id)
  unfolding get
  get-IsQueue job_id = search (keeps_rules, Keeps-read)

  enqueue_transaction :
      (p : Payload) (priority max_attempts ready now : ℕ)
      → in_range 1 100 priority ≡ true
      → in_range 1 100 max_attempts ≡ true
      → Requests.Keeps
          (IsQueue codec)
          (transaction (enqueue_rows (encode codec p) priority max_attempts ready now))
  enqueue_transaction p priority max_attempts ready now range bound =
      Keeps-transaction _ (enqueue_rows-IsQueue p priority max_attempts ready now range bound)

  enqueue-IsQueue :
      (p : Payload) (max_attempts priority : ℕ) (available_at : Option ℕ) (now : ℕ)
      → Requests.Keeps (IsQueue codec) (enqueue codec p max_attempts priority available_at now)
  unfolding enqueue
  enqueue-IsQueue p max_attempts priority available_at now = Keeps-guard _ _ _ λ bound.
      Keeps-guard _ _ _ λ range.
        Keeps-bind _ _
          (enqueue_transaction p priority max_attempts (or_default available_at now) now range
            bound)
          (λ _. Keeps-lift _)

  reprioritize-IsQueue :
      (priority_for : Payload → Result ℕ) (now : ℕ)
      → Requests.Keeps (IsQueue codec) (reprioritize_pending codec priority_for now)
  unfolding reprioritize_pending
  reprioritize-IsQueue priority_for now = Keeps-transaction _ λ rows h n rows' e.
      reprioritize_rows-keeps codec priority_for now (IsQueue codec)
        (Priced-IsQueue codec priority_for now) rows rows' n h e

  -- Every request keeps the invariant.
  pub serve-IsQueue :
      (q : JobQueue) (r : Request codec)
      → IsQueue codec q.rows
      → IsQueue codec (serve codec q r).rows
  unfolding serve close
  serve-IsQueue q (enqueues p max_attempts priority available_at now) h =
      (enqueue-IsQueue p max_attempts priority available_at now).at q h
  serve-IsQueue q (claims worker lease_us now token) h =
      (claim-IsQueue worker lease_us now token).at q h
  serve-IsQueue q (acks job_id worker token now) h = (ack-IsQueue job_id worker token now).at q h
  serve-IsQueue q (fails job_id worker token error retry delay now) h =
      (fail-IsQueue job_id worker token error retry delay now).at q h
  serve-IsQueue q (gets job_id) h = (get-IsQueue job_id).at q h
  serve-IsQueue q (reprioritizes priority_for now) h =
      (reprioritize-IsQueue priority_for now).at q h
  serve-IsQueue q closes h = h

  -- After any requests to a queue that satisfies the invariant, every row satisfies the constraints of
  -- the table, has attempts left while it is pending, and holds the encoding of a payload; and no two
  -- rows share an id.
  pub run-IsQueue :
      (q : JobQueue) (rs : List (Request codec))
      → IsQueue codec q.rows
      → IsQueue codec (run codec q rs).rows
  unfolding run
  run-IsQueue q [] h = h
  run-IsQueue q (r ∷ rs) h = run-IsQueue (serve codec q r) rs (serve-IsQueue q r h)
