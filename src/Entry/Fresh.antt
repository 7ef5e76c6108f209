-- ===== src/Entry/Fresh.antt =====
-- When the execution boundary passes (`evaluate_execution_boundary`).
use mathlib.Core.Logic.{◌↔◌}
use debot.Base.{
  ℕ, ◌+◌, ◌-◌, ◌≤◌, String, ◌≡◌, refl, Bool, true, false, ◌&&◌, not, List, [], ◌∷◌, some, arith,
  is_empty, is_empty-append, is_empty-when, Bool-cases, inl, inr, ltb, leb, eq_iff, str_eq,
}
use debot.Base.Int.{ℤ, pos, negsuc, ◌-ℤ◌, ltb_ℤ, eqb_ℤ, pos_part, neg_part, sub_ℕ}
use debot.Entry.Models.{
  QuoteBoundary, HeadBoundary, ExecutionPolicy, ExecutionMaterial, is_pass, is_block_hash,
  is_bsc_address,
}
use debot.Entry.Rules.{
  evaluate_execution_boundary, execution_status, all_rejects, all_waits, quote_rejections,
  head_rejections, head_waits, lag_waits,
}

-- The quote is of a token of the chain, at a block of the chain, fresh, and the head is fresh, is not
-- older than the quote, and extends the quote's block by at most the allowed number of blocks.
pub record IsExecutable (quote : QuoteBoundary) (now : ℕ) (head : HeadBoundary)
    (policy : ExecutionPolicy) : Type 0 where
  pub token_ok : is_bsc_address quote.token_address ≡ true
  pub quote_hash_ok : is_block_hash quote.block_hash ≡ true
  pub head_hash_ok : is_block_hash head.block_hash ≡ true
  pub quote_height : neg_part quote.block_number ≡ 0
  pub head_height : neg_part head.block_number ≡ 0
  pub quote_not_ahead : pos_part quote.block_number ≤ pos_part head.block_number
  pub head_near :
      pos_part head.block_number ≤ pos_part quote.block_number + policy.max_head_lag_blocks
  pub same_chain :
      pos_part head.block_number ≡ pos_part quote.block_number → head.block_hash ≡ quote.block_hash
  pub block_first : quote.block_timestamp ≤ quote.completed_at
  pub quote_known : quote.completed_at ≤ now + policy.max_future_skew
  pub head_known : head.observed_at ≤ now + policy.max_future_skew
  pub quote_first : quote.completed_at ≤ head.observed_at
  pub quote_fresh : now ≤ quote.completed_at + policy.max_quote_age
  pub head_fresh : now ≤ head.observed_at + policy.max_head_age

passes_when_empty :
    (rs ws : List String) → is_pass (execution_status rs ws) ≡ (is_empty rs && is_empty ws)
passes_when_empty [] [] = refl
passes_when_empty [] (w ∷ ws) = refl
passes_when_empty (r ∷ rs) ws = refl

height : (a : ℤ) → (ltb_ℤ a (pos 0) ≡ false) ↔ (neg_part a ≡ 0)
height (pos n) = ground arith
height (negsuc n) = ground arith

-- The tests on the lag, for heights that are not negative.
lag_tests :
    (m n limit : ℕ)
    → (ltb_ℤ (sub_ℕ m n) (pos 0) ≡ ltb m n)
      × (ltb_ℤ (pos limit) (sub_ℕ m n) ≡ ltb (n + limit) m)
      × (eqb_ℤ (sub_ℕ m n) (pos 0) ≡ leb m n && leb n m)
lag_tests m n limit = elim (Bool-cases (leb n m)) [
  | inl le ↦ simp le (ground arith, ground arith, ground arith)
  | inr gt ↦ simp gt (ground arith, ground arith, ground arith)
]

module _ (quote : QuoteBoundary) (now : ℕ) (head : HeadBoundary) (policy : ExecutionPolicy) where
  -- no reason to reject, as one test
  abbrev acceptable : Bool
  acceptable =
      (is_bsc_address quote.token_address
        && not (ltb_ℤ quote.block_number (pos 0))
        && is_block_hash quote.block_hash
        && leb quote.block_timestamp quote.completed_at
        && leb quote.completed_at (now + policy.max_future_skew))
      && not (ltb_ℤ head.block_number (pos 0))
      && is_block_hash head.block_hash
      && leb head.observed_at (now + policy.max_future_skew)

  -- no reason to wait, as one test
  abbrev timely : Bool
  timely =
      let lag = head.block_number -ℤ quote.block_number in
      leb (now - quote.completed_at) policy.max_quote_age
      && leb quote.completed_at head.observed_at
      && leb (now - head.observed_at) policy.max_head_age
      && not (ltb_ℤ lag (pos 0))
      && not (ltb_ℤ (pos policy.max_head_lag_blocks) lag)
      && not (eqb_ℤ lag (pos 0) && not (str_eq head.block_hash quote.block_hash))

  rejects-acceptable : is_empty (all_rejects quote now (some head) policy) ≡ acceptable
  unfolding all_rejects quote_rejections head_rejections
  rejects-acceptable = simp (is_empty-append, is_empty-when) (ground arith)

  lag_waits_lem : is_empty (lag_waits quote head policy) ≡ (
      not (ltb_ℤ (head.block_number -ℤ quote.block_number) (pos 0))
      && not (ltb_ℤ (pos policy.max_head_lag_blocks) (head.block_number -ℤ quote.block_number))
      && not (
          eqb_ℤ (head.block_number -ℤ quote.block_number) (pos 0)
          && not (str_eq head.block_hash quote.block_hash)))
  unfolding lag_waits
  lag_waits_lem = elim (Bool-cases (ltb_ℤ (head.block_number -ℤ quote.block_number) (pos 0))) [
    | inl behind ↦ rw behind refl
    | inr ahead ↦
        elim (Bool-cases
          (ltb_ℤ (pos policy.max_head_lag_blocks) (head.block_number -ℤ quote.block_number))) [
            | inl far ↦ rw (ahead, far) refl
            | inr near ↦ rw (ahead, near, is_empty-when) refl
          ]
  ]

  waits-timely : is_empty (all_waits quote now (some head) policy) ≡ timely
  unfolding all_waits head_waits
  waits-timely = simp (is_empty-append, is_empty-when, lag_waits_lem) (ground arith)

  -- the lag as the numbers that it is the difference of
  near_tests :
      (ltb_ℤ (head.block_number -ℤ quote.block_number) (pos 0)
        ≡ ltb
            (pos_part head.block_number + neg_part quote.block_number)
            (neg_part head.block_number + pos_part quote.block_number))
      × (ltb_ℤ (pos policy.max_head_lag_blocks) (head.block_number -ℤ quote.block_number)
          ≡ ltb
              (neg_part head.block_number
                + pos_part quote.block_number
                + policy.max_head_lag_blocks)
              (pos_part head.block_number + neg_part quote.block_number))
      × (eqb_ℤ (head.block_number -ℤ quote.block_number) (pos 0) ≡ (
          leb
            (pos_part head.block_number + neg_part quote.block_number)
            (neg_part head.block_number + pos_part quote.block_number)
          && leb
              (neg_part head.block_number + pos_part quote.block_number)
              (pos_part head.block_number + neg_part quote.block_number)))
  near_tests = lag_tests _ _ policy.max_head_lag_blocks

  executable : acceptable ≡ true → timely ≡ true → IsExecutable quote now head policy
  executable a t =
      let qh : neg_part quote.block_number ≡ 0 = (height quote.block_number).0 (ground arith) in
      let hh : neg_part head.block_number ≡ 0 = (height head.block_number).0 (ground arith) in
      record {
        token_ok = ground arith;
        quote_hash_ok = ground arith;
        head_hash_ok = ground arith;
        quote_height = qh;
        head_height = hh;
        quote_not_ahead = ground (arith, near_tests);
        head_near = ground (arith, near_tests);
        same_chain = λ e. (eq_iff head.block_hash quote.block_hash).0 (ground (arith, near_tests));
        block_first = ground arith;
        quote_known = ground arith;
        head_known = ground arith;
        quote_first = ground arith;
        quote_fresh = ground arith;
        head_fresh = ground arith;
      }

  acceptable_of : IsExecutable quote now head policy → acceptable ≡ true
  acceptable_of h =
      let qh = (height quote.block_number).1 h.quote_height in
      let hh = (height head.block_number).1 h.head_height in
      let t = h.token_ok in
      let a = h.quote_hash_ok in
      let b = h.head_hash_ok in
      let c = h.block_first in let d = h.quote_known in let e = h.head_known in ground arith

  timely_of : IsExecutable quote now head policy → timely ≡ true
  timely_of h =
      let qh = h.quote_height in
      let hh = h.head_height in
      let ahead = h.quote_not_ahead in
      let near = h.head_near in
      let same : pos_part head.block_number ≡ pos_part quote.block_number
          → str_eq head.block_hash quote.block_hash ≡ true =
        (λ e. (eq_iff head.block_hash quote.block_hash).1 (h.same_chain e)) in
      let f = h.quote_first in
      let g = h.quote_fresh in let k = h.head_fresh in ground (arith, near_tests)

  -- With a head, the boundary passes exactly when the quote is executable: a valid token, both block
  -- hashes and heights valid, the block not after the quote, neither instant beyond the allowed skew,
  -- the quote and the head fresh, the head not older than the quote, not behind its block, at most the
  -- allowed number of blocks ahead, and the same block at the same height.
  pub passes-IsExecutable :
      (digest : ExecutionMaterial → String)
      → (is_pass (evaluate_execution_boundary digest quote now (some head) policy).status ≡ true)
        ↔ IsExecutable quote now head policy
  unfolding evaluate_execution_boundary
  passes-IsExecutable digest =
      let split =
        passes_when_empty (all_rejects quote now (some head) policy)
          (all_waits quote now (some head) policy) in
      (
        λ h.
            executable (ground (arith, split, rejects-acceptable, waits-timely))
              (ground (arith, split, rejects-acceptable, waits-timely)),
        λ h.
            let a = acceptable_of h in
            let t = timely_of h in rw (split, rejects-acceptable, waits-timely, a, t) refl,
      )
