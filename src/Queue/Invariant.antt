-- ===== src/Queue/Invariant.antt =====
-- The invariant of the queue: a well-formed table whose rows are encodings of payloads. Every request
-- keeps it, on every path.
use debot.Base.{
  ℕ, String, ◌≡◌, refl, sym, ◌∙◌, subst, Bool, List, map, Option, inl, inr, arith, Result, ok, All,
  All-map, Bool-cases,
}
use debot.Queue.Row.{Row}
use debot.Queue.Changes.{
  claim_rows, lease, claimable, ack_rows, is_held, complete, fail_rows, is_token_of,
}
use debot.Queue.Validity.{written, update-eq-map, recovered}
use debot.Queue.Tables.{IsTable, recovered-IsTable}
use debot.Queue.Codec.{Codec, encode}
use debot.Queue.Claiming.{claim_rows-Claims}
use debot.Queue.Settling.{ack_rows-Acks, fail_rows-Fails}
use debot.Queue.Repricing.{price-Keeps, Priced, IsTable-Priced}

pub stored :
    {A : Type 0} {a b : A} {xs ys : List Row}
    → ◌≡◌ {A = Result (A × List Row)} (ok (a, xs)) (ok (b, ys))
    → xs ≡ ys
stored h = cc

written_rows : {xs ys : List Row} → ok xs ≡ ok ys → xs ≡ ys
written_rows h = cc

module _ (codec : Codec) where
  open codec use {Payload}

  -- The row holds the encoding of a payload.
  pub record IsEncoded (r : Row) : Type 0 where
    pub payload : Payload
    pub same_id : (encode codec payload).job_id ≡ r.job_id
    pub same_kind : (encode codec payload).kind ≡ r.kind
    pub same_digest : (encode codec payload).content_sha256 ≡ r.content_sha256
    pub same_document : (encode codec payload).document ≡ r.payload_json

  pub record IsQueue (rows : List Row) : Type 0 where
    pub table : IsTable rows
    pub encoded : All IsEncoded rows

  -- a change that leaves the columns of the input alone
  abbrev pub KeepsInput : (Row → Row) → Type 0
  KeepsInput change =
      (r : Row)
      → ((change r).job_id ≡ r.job_id)
        × ((change r).kind ≡ r.kind)
        × ((change r).content_sha256 ≡ r.content_sha256)
        × ((change r).payload_json ≡ r.payload_json)

  pub change-IsEncoded :
      (change : Row → Row) → KeepsInput change → (r : Row) → IsEncoded r → IsEncoded (change r)
  change-IsEncoded change keep r h = record {
    payload = h.payload;
    same_id = h.same_id ∙ sym (keep r).0;
    same_kind = h.same_kind ∙ sym (keep r).1;
    same_digest = h.same_digest ∙ sym (keep r).2;
    same_document = h.same_document ∙ sym (keep r).3;
  }

  written-KeepsInput :
      (test : Row → Bool) (change : Row → Row)
      → KeepsInput change
      → KeepsInput (written test change)
  written-KeepsInput test change keep r = elim (Bool-cases (test r)) [
    | inl hit ↦ rw hit (keep r)
    | inr miss ↦ rw miss (refl, refl, refl, refl)
  ]

  recovered-KeepsInput : (now : ℕ) → KeepsInput (recovered now)
  unfolding recovered
  recovered-KeepsInput now r = (ground arith, ground arith, ground arith, ground arith)

  pub written-IsEncoded :
      (test : Row → Bool) (change : Row → Row) (rows : List Row)
      → KeepsInput change
      → All IsEncoded rows
      → All IsEncoded (map (written test change) rows)
  written-IsEncoded test change rows keep h =
      All-map _ (change-IsEncoded _ (written-KeepsInput test change keep)) rows h

  pub recovered-IsQueue :
      (now : ℕ) (rows : List Row) → IsQueue rows → IsQueue (map (recovered now) rows)
  recovered-IsQueue now rows h = record {
    table = recovered-IsTable now rows h.table;
    encoded = All-map _ (change-IsEncoded _ (recovered-KeepsInput now)) rows h.encoded;
  }

  pub claim_rows-IsQueue :
      (owner token : String) (expires now : ℕ) (rows : List Row)
      → IsQueue rows
      → (row : Option Row) (rows' : List Row)
      → claim_rows owner token expires now rows ≡ ok (row, rows')
      → IsQueue rows'
  claim_rows-IsQueue owner token expires now rows h row rows' e =
      elim (claim_rows-Claims owner token expires now rows h.table) [
        | inl (idle, _) ↦ subst IsQueue (stored (sym idle ∙ e)) (recovered-IsQueue now rows h)
        | inr (r, _, leases, t) ↦ subst IsQueue (stored (sym leases ∙ e)) (record {
          table = t;
          encoded =
              written-IsEncoded (claimable r.job_id) (lease owner token expires now) _
                (λ _. (refl, refl, refl, refl)) (recovered-IsQueue now rows h).encoded;
        })
      ]

  pub ack_rows-IsQueue :
      (job_id owner token : String) (now : ℕ) (rows : List Row)
      → IsQueue rows
      → (row : Row) (rows' : List Row) → ack_rows job_id owner token now rows ≡ ok (row, rows')
      → IsQueue rows'
  ack_rows-IsQueue job_id owner token now rows h row rows' e =
      elim (ack_rows-Acks job_id owner token now rows h.table) [
        | inl (lost, _) ↦ absurd (cc)
        | inr (r, _, _, done_, t) ↦ subst IsQueue (stored (sym done_ ∙ e)) (record {
          table = t;
          encoded =
              written-IsEncoded (is_held job_id owner token) (complete now) _
                (λ _. (refl, refl, refl, refl)) (recovered-IsQueue now rows h).encoded;
        })
      ]

  pub fail_rows-IsQueue :
      (job_id owner token error_type : String) (retry : Bool) (delay now : ℕ) (rows : List Row)
      → IsQueue rows
      → (row : Row) (rows' : List Row)
      → fail_rows job_id owner token error_type retry delay now rows ≡ ok (row, rows')
      → IsQueue rows'
  fail_rows-IsQueue job_id owner token error_type retry delay now rows h row rows' e =
      elim (fail_rows-Fails job_id owner token error_type retry delay now rows h.table) [
        | inl (lost, _) ↦ absurd (cc)
        | inr (r, _, _, released_, t) ↦ subst IsQueue (stored (sym released_ ∙ e)) (record {
          table = t;
          encoded =
              written-IsEncoded (is_token_of job_id token) _ _ (λ _. (refl, refl, refl, refl))
                (recovered-IsQueue now rows h).encoded;
        })
      ]

  pub Priced-IsQueue :
      (priority_for : Payload → Result ℕ) (now : ℕ) → Priced codec priority_for now IsQueue
  Priced-IsQueue priority_for now job_id priority rows rows' range h e = record {
    table = IsTable-Priced codec priority_for now job_id priority rows rows' range h.table e;
    encoded =
        subst (All IsEncoded)
          (written_rows (
            sym (
              update-eq-map (claimable job_id) _ rows (price-Keeps job_id priority now range)
                h.table.rows_ok)
            ∙ e))
          (written-IsEncoded (claimable job_id) _ rows (λ _. (refl, refl, refl, refl)) h.encoded);
  }
