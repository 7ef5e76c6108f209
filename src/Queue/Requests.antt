-- ===== src/Queue/Requests.antt =====
-- The requests that the processes sharing a queue make, one after another, with what the clock and
-- the generator of lease tokens answered. A transaction is atomic, so an interleaving is a sequence.
use debot.Base.{
  false, true, guard, Error, refl, Bool-cases, inl, inr, ℕ, String, ◌≡◌, Bool, List, [], ◌∷◌,
  Option, Result, ok, err, true,
}
use debot.Queue.Row.{Row}
use debot.Queue.Codec.{Codec}
use debot.Queue.Service.{
  read, ◌>>◌, JobQueue, Call, ◌>>=◌, lift, proceed, transaction, settle, enqueue, claim, ack, fail,
  get, reprioritize_pending, close,
}

module _ (codec : Codec) where
  pub data Request : Type 0 where
    enqueues : codec.Payload → (max_attempts priority : ℕ) → Option ℕ → (now : ℕ) → Request
    claims : (worker : String) (lease_us now : ℕ) (token : String) → Request
    acks : (job_id worker token : String) (now : ℕ) → Request
    fails : (job_id worker token error : String) (retry : Bool) (retry_delay now : ℕ) → Request
    gets : (job_id : String) → Request
    reprioritizes : (codec.Payload → Result ℕ) → (now : ℕ) → Request
    closes : Request

  -- the queue that a request leaves
  unfoldable pub serve : JobQueue → Request → JobQueue
  serve q (enqueues payload max_attempts priority available_at now) =
      (enqueue codec payload max_attempts priority available_at now q).1
  serve q (claims worker lease_us now token) = (claim codec worker lease_us now token q).1
  serve q (acks job_id worker token now) = (ack codec job_id worker token now q).1
  serve q (fails job_id worker token error retry retry_delay now) =
      (fail codec job_id worker token error retry retry_delay now q).1
  serve q (gets job_id) = (get codec job_id q).1
  serve q (reprioritizes priority_for now) = (reprioritize_pending codec priority_for now q).1
  serve q closes = close q

  unfoldable pub run : JobQueue → List Request → JobQueue
  unfolding serve
  run q [] = q
  run q (r ∷ rs) = run (serve q r) rs

-- A call that keeps a predicate of the rows, whether it returns or raises.
pub record Keeps (P : List Row → Type 0) {A : Type 0} (m : Call A) : Type 0 where
  pub at : (q : JobQueue) → P q.rows → P (m q).1.rows

module _ {P : List Row → Type 0} {A : Type 0} where
  pub Keeps-lift : (r : Result A) → Keeps P (lift r)
  Keeps-lift r = record { at = λ q h. h }

  settle_keeps :
      (q : JobQueue) (r : Result (A × List Row))
      → P q.rows
      → ((a : A) (rows : List Row) → r ≡ ok (a, rows) → P rows)
      → P (settle q r).1.rows
  settle_keeps q (ok (a, rows)) p h = h a rows refl
  settle_keeps q (err e) p h = p

  -- A transaction keeps what each body that returns keeps: one that raises is rolled back.
  pub Keeps-transaction :
      (body : List Row → Result (A × List Row))
      → ((rows : List Row)
          → P rows
          → (a : A) (rows' : List Row) → body rows ≡ ok (a, rows')
          → P rows')
      → Keeps P (transaction body)
  unfolding transaction
  Keeps-transaction body h = record {
    at = λ q p. elim (Bool-cases q.closed) [
      | inl shut ↦ simp shut p
      | inr open_ ↦ simp open_ (settle_keeps q (body q.rows) p (λ a rows e. h q.rows p a rows e))
    ];
  }

pub Keeps-read :
    {P : List Row → Type 0} {A : Type 0} (select : List Row → Result A) → Keeps P (read select)
Keeps-read select = record { at = λ q h. h }

module _ {P : List Row → Type 0} {A B : Type 0} where
  proceed_keeps :
      (f : A → Call B)
      → ((a : A) → Keeps P (f a))
      → (r : Result A) (q : JobQueue) → P q.rows
      → P (proceed f r q).1.rows
  proceed_keeps f kf (ok a) q p = (kf a).at q p
  proceed_keeps f kf (err e) q p = p

  pub Keeps-bind :
      (m : Call A) (f : A → Call B) → Keeps P m → ((a : A) → Keeps P (f a)) → Keeps P (m >>= f)
  Keeps-bind m f km kf = record { at = λ q p. proceed_keeps f kf (m q).0 (m q).1 (km.at q p) }

-- after a guard that passes, its test holds
pub Keeps-guard :
    {P : List Row → Type 0} {A : Type 0} (b : Bool) (e : Error) (m : Call A)
    → (b ≡ true → Keeps P m)
    → Keeps P (lift (guard b e) >> m)
Keeps-guard true e m k = record { at = λ q h. (k refl).at q h }
Keeps-guard false e m k = record { at = λ q h. h }

pub ruleset keeps_rules = (Keeps-lift, proceed, Keeps-bind)
