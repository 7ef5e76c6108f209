-- ===== src/Entry/Rules.antt =====
-- `evaluate_execution_boundary`, `_quote_rejections`, `_head_rejections` and `authorize_entry` of
-- src/debot4/v6/narrative/entry.py. The digest of a dictionary (`canonical_sha256`) is a parameter.
use debot.Base.{
  ℕ, ◌+◌, ◌-◌, String, ◌&&◌, not, List, [], ◌∷◌, ◌++◌, Option, none, some, if◌then◌else◌, ltb,
  str_eq, str_append, when, or_else, unique,
}
use debot.Base.Int.{ℤ, pos, ◌-ℤ◌, ltb_ℤ, eqb_ℤ}
use debot.Entry.Models.{
  ExecutionStatus, pass, requote, EntryStatus, commit, wait, QuoteBoundary, HeadBoundary,
  ExecutionPolicy, ExecutionDecision, ExecutionMaterial, execution_schema, is_block_hash,
  is_bsc_address,
}

unfoldable pub quote_rejections : QuoteBoundary → ℕ → ExecutionPolicy → List String
quote_rejections quote checked policy =
    when (not (is_bsc_address quote.token_address)) "invalid_quote_token"
    ++ when (ltb_ℤ quote.block_number (pos 0)) "invalid_quote_block_number"
    ++ when (not (is_block_hash quote.block_hash)) "invalid_quote_block_hash"
    ++ when (ltb quote.completed_at quote.block_timestamp) "quote_time_order_invalid"
    ++ when (ltb (checked + policy.max_future_skew) quote.completed_at) "quote_time_in_future"

unfoldable pub head_rejections : HeadBoundary → ℕ → ExecutionPolicy → List String
head_rejections head checked policy =
    when (ltb_ℤ head.block_number (pos 0)) "invalid_head_block_number"
    ++ when (not (is_block_hash head.block_hash)) "invalid_head_block_hash"
    ++ when (ltb (checked + policy.max_future_skew) head.observed_at) "head_time_in_future"

-- the waits for the distance of the head to the quote's block
unfoldable pub lag_waits : QuoteBoundary → HeadBoundary → ExecutionPolicy → List String
lag_waits quote head policy =
    let lag = head.block_number -ℤ quote.block_number in
    if ltb_ℤ lag (pos 0)
    then "current_head_behind_quote" ∷ []
    else if ltb_ℤ (pos policy.max_head_lag_blocks) lag
    then "quote_behind_current_head" ∷ []
    else when (eqb_ℤ lag (pos 0) && not (str_eq head.block_hash quote.block_hash))
        "quote_reorged_at_current_height"

unfoldable pub head_waits : QuoteBoundary → HeadBoundary → ℕ → ExecutionPolicy → List String
unfolding lag_waits
head_waits quote head checked policy =
    when (ltb head.observed_at quote.completed_at) "head_predates_quote"
    ++ when (ltb policy.max_head_age (checked - head.observed_at)) "current_head_expired"
    ++ lag_waits quote head policy

unfoldable pub all_rejects : QuoteBoundary → ℕ → Option HeadBoundary → ExecutionPolicy → List String
unfolding quote_rejections head_rejections
all_rejects quote checked none policy = quote_rejections quote checked policy
all_rejects quote checked (some head) policy =
    quote_rejections quote checked policy ++ head_rejections head checked policy

unfoldable pub all_waits : QuoteBoundary → ℕ → Option HeadBoundary → ExecutionPolicy → List String
unfolding head_waits
all_waits quote checked none policy =
    when (ltb policy.max_quote_age (checked - quote.completed_at)) "quote_expired"
    ++ "current_head_unavailable" ∷ []
all_waits quote checked (some head) policy =
    when (ltb policy.max_quote_age (checked - quote.completed_at)) "quote_expired"
    ++ head_waits quote head checked policy

-- REJECT if rejects else REQUOTE if waits else PASS
abbrev pub execution_status : List String → List String → ExecutionStatus
execution_status [] [] = pass
execution_status [] (w ∷ ws) = requote
execution_status (r ∷ rs) ws = ExecutionStatus.reject

-- REJECT if rejects else WAIT if waits else COMMIT
abbrev pub entry_status : List String → List String → EntryStatus
entry_status [] [] = commit
entry_status [] (w ∷ ws) = wait
entry_status (r ∷ rs) ws = EntryStatus.reject

abbrev pub head_age : ℕ → Option HeadBoundary → Option ℕ
head_age checked none = none
head_age checked (some head) = some (checked - head.observed_at)

abbrev pub head_lag : QuoteBoundary → Option HeadBoundary → Option ℤ
head_lag quote none = none
head_lag quote (some head) = some (head.block_number -ℤ quote.block_number)

unfoldable pub evaluate_execution_boundary :
    (ExecutionMaterial → String)
    → QuoteBoundary
    → (now : ℕ) → Option HeadBoundary
    → ExecutionPolicy
    → ExecutionDecision
unfolding all_rejects all_waits
evaluate_execution_boundary digest quote now current_head policy =
    let rejects = all_rejects quote now current_head policy in
    let waits = all_waits quote now current_head policy in
    let status = execution_status rejects waits in
    let reasons = unique (or_else rejects (or_else waits ("execution_boundary_passed" ∷ []))) in
    let hash = digest (record {
      checked_at = now;
      quote = quote;
      current_head = current_head;
      policy = policy;
      status = status;
      reasons = reasons;
    }) in
    record {
      status = status;
      reasons = reasons;
      checked_at = now;
      identity = str_append execution_schema (str_append ":" hash);
      identity_hash = hash;
      quote_age = now - quote.completed_at;
      head_age = head_age now current_head;
      head_lag_blocks = head_lag quote current_head;
    }
