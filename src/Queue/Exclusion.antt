-- ===== src/Queue/Exclusion.antt =====
-- Whose rows a call leaves alone: a lease that has not expired belongs to its holder, and a job that is
-- done or failed stays as it is.
use mathlib.Core.List.{Memᴰ}
use debot.Base.{
  ℕ, ◌+◌, String, ◌≡◌, refl, sym, ◌∙◌, ap, subst, Bool, true, false, ◌&&◌, not, List, [], ◌∷◌, map,
  Option, inl, inr, arith, Result, ok, ltb, leb,
}
use debot.Queue.Row.{Row, is_pending}
use debot.Queue.Codec.{Codec, NarrativeJob}
use debot.Queue.Identity.{worker_identity, lease_identity}
use debot.Queue.Changes.{lease_expired, claimable, lease, is_held, complete}
use debot.Queue.Validity.{written, recovered}
use debot.Queue.Service.{JobQueue, claim, ack, day_us}
use debot.Queue.Tables.{IsTable}
use debot.Queue.Contract.{claim-ClaimEnds, ClaimEnds}
use debot.Queue.Settlements.{ack-AckEnds, AckEnds}

-- The row is not free: it is no pending job, and no expired lease.
abbrev pub is_settled : ℕ → Row → Bool
is_settled now r = not (is_pending r.status) && not (lease_expired now r)

Memᴰ-map : (f : Row → Row) (r : Row) (rows : List Row) → f r ≡ r → Memᴰ r rows → Memᴰ r (map f rows)
Memᴰ-map f r [] same m = elim m [ ]
Memᴰ-map f r (x ∷ xs) same (Memᴰ.head e) = Memᴰ.head (sym same ∙ ap f e)
Memᴰ-map f r (x ∷ xs) same (Memᴰ.tail m) = Memᴰ.tail (Memᴰ-map f r xs same m)

recovered_settled : (now : ℕ) (r : Row) → is_settled now r ≡ true → recovered now r ≡ r
unfolding recovered
recovered_settled now r h = let live : lease_expired now r ≡ false = ground arith in simp live refl

written_miss :
    (test : Row → Bool) (change : Row → Row) (r : Row) → test r ≡ false → written test change r ≡ r
written_miss test change r h = rw h refl

-- A settled row that a change passes over stays, through the recovery and the change.
kept :
    (now : ℕ) (test : Row → Bool) (change : Row → Row) (r : Row) (rows : List Row)
    → is_settled now r ≡ true
    → test r ≡ false
    → Memᴰ r rows
    → Memᴰ r (map (written test change) (map (recovered now) rows))
kept now test change r rows h t m =
    Memᴰ-map _ r _ (written_miss test change r t)
      (Memᴰ-map (recovered now) r rows (recovered_settled now r h) m)

module _ (codec : Codec) where
  claim_kept :
      (owner token : String) (expires now : ℕ) (q : JobQueue) (r : Row)
      → is_settled now r ≡ true
      → Memᴰ r q.rows
      → (result : Result (Option (NarrativeJob codec.Payload)) × JobQueue)
      → ClaimEnds codec owner token expires now q result
      → Memᴰ r result.1.rows
  claim_kept owner token expires now q r h m result ends = elim ends [
    | inl (idle, _) ↦
        subst (λ x. Memᴰ r x.1.rows) (sym idle)
          (Memᴰ-map (recovered now) r q.rows (recovered_settled now r h) m)
    | inr (x, _, leases) ↦
        subst (λ x. Memᴰ r x.1.rows) (sym leases)
          (kept now (claimable x.job_id) (lease owner token expires now) r q.rows h (ground arith)
            m)
  ]

  ack_kept :
      (job_id owner token : String) (now : ℕ) (q : JobQueue) (r : Row)
      → is_settled now r ≡ true
      → is_held job_id owner token r ≡ false
      → Memᴰ r q.rows
      → (result : Result (NarrativeJob codec.Payload) × JobQueue)
      → AckEnds codec job_id owner token now q result
      → Memᴰ r result.1.rows
  ack_kept job_id owner token now q r h other m result ends = elim ends [
    | inl (lost, _) ↦ subst (λ x. Memᴰ r x.1.rows) (sym lost) m
    | inr (x, _, _, acks) ↦
        subst (λ x. Memᴰ r x.1.rows) (sym acks)
          (kept now (is_held job_id owner token) (complete now) r q.rows h other m)
  ]

  -- A claim on an open queue whose table is well formed takes no lease away and reopens no job: every
  -- row that is neither pending nor an expired lease is in the table afterwards as it was.
  pub claim-is_settled :
      (worker owner token : String) (lease_us now : ℕ) (q : JobQueue) (r : Row)
      → worker_identity worker ≡ ok owner
      → (ltb 0 lease_us && leb lease_us day_us) ≡ true
      → q.closed ≡ false
      → IsTable q.rows
      → is_settled now r ≡ true
      → Memᴰ r q.rows
      → Memᴰ r (claim codec worker lease_us now token q).1.rows
  claim-is_settled worker owner token lease_us now q r named bound o h s m =
      claim_kept owner token (now + lease_us) now q r s m _
        (claim-ClaimEnds codec worker owner token lease_us now q named bound o h)

  -- An acknowledgement on an open queue whose table is well formed leaves every row as it was that is
  -- neither pending nor an expired lease, and that the named lease does not hold.
  pub ack-is_settled :
      (job_id worker owner token lease_id : String) (now : ℕ) (q : JobQueue) (r : Row)
      → worker_identity worker ≡ ok owner
      → lease_identity token ≡ ok lease_id
      → q.closed ≡ false
      → IsTable q.rows
      → is_settled now r ≡ true
      → is_held job_id owner lease_id r ≡ false
      → Memᴰ r q.rows
      → Memᴰ r (ack codec job_id worker token now q).1.rows
  ack-is_settled job_id worker owner token lease_id now q r named drawn o h s other m =
      ack_kept job_id owner lease_id now q r s other m _
        (ack-AckEnds codec job_id worker owner token lease_id now q named drawn o h)
