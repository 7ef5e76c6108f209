-- ===== src/Entry/Models.antt =====
-- The types of src/debot4/v6/narrative/entry_models.py, as their constructors leave them, and the
-- texts that the entry decision tests. Instants and ages are microseconds.
use debot.Queue.Identity.{strip}
use debot.Base.{
  ℕ, String, Bool, true, false, ◌&&◌, ◌||◌, List, ◌∷◌, Option, ◌==◌, length, every, codes, in_range,
}
use debot.Base.Int.{ℤ}

pub data ExecutionStatus : Type 0 where
  pass requote reject : ExecutionStatus

pub data EntryStatus : Type 0 where
  commit wait reject : EntryStatus

-- A quote of the route and the valuation at one exact block.
pub record QuoteBoundary : Type 0 where
  pub token_address : String
  pub block_number : ℤ
  pub block_hash : String
  pub block_timestamp : ℕ
  pub completed_at : ℕ

pub record HeadBoundary : Type 0 where
  pub block_number : ℤ
  pub block_hash : String
  pub observed_at : ℕ

pub record ExecutionPolicy : Type 0 where
  pub max_quote_age : ℕ
  pub max_head_age : ℕ
  pub max_head_lag_blocks : ℕ
  pub max_future_skew : ℕ

pub record ExecutionDecision : Type 0 where
  pub status : ExecutionStatus
  pub reasons : List String
  pub checked_at : ℕ
  pub identity : String
  pub identity_hash : String
  pub quote_age : ℕ
  pub head_age : Option ℕ
  pub head_lag_blocks : Option ℤ

pub record EntryAuthorization : Type 0 where
  pub status : EntryStatus
  pub reasons : List String
  pub identity : String
  pub identity_hash : String

-- The dictionaries whose digests are the identities of the two decisions.
pub record ExecutionMaterial : Type 0 where
  pub checked_at : ℕ
  pub quote : QuoteBoundary
  pub current_head : Option HeadBoundary
  pub policy : ExecutionPolicy
  pub status : ExecutionStatus
  pub reasons : List String

abbrev pub execution_schema : String
execution_schema = "v6.execution_boundary.v1"

abbrev pub entry_schema : String
entry_schema = "v6.entry_authorization.v1"

abbrev pub is_pass : ExecutionStatus → Bool
is_pass pass = true
is_pass _ = false

abbrev pub is_commit : EntryStatus → Bool
is_commit commit = true
is_commit _ = false

-- [0-9a-f]
abbrev pub lower_hex : ℕ → Bool
lower_hex c = in_range b'0' b'9' c || in_range b'a' b'f' c

-- [0-9a-fA-F]
abbrev pub any_hex : ℕ → Bool
any_hex c = lower_hex c || in_range b'A' b'F' c

-- `0x[class]{n}` under `fullmatch`
abbrev pub is_hex_text : (ℕ → Bool) → ℕ → List ℕ → Bool
is_hex_text class n (head ∷ x ∷ digits) =
    head == b'0' && x == b'x' && length digits == n && every class digits
is_hex_text class n _ = false

-- `_HASH.fullmatch(value)`
unfoldable pub is_block_hash : String → Bool
is_block_hash value = is_hex_text lower_hex 64 (codes value)

-- `_BSC_ADDRESS.fullmatch(address)`
unfoldable pub is_bsc_address : String → Bool
is_bsc_address address = is_hex_text any_hex 40 (codes address)

-- `QuoteBoundary.__post_init__`; `str.lower` is a parameter
unfoldable pub make_quote : (String → String) → QuoteBoundary → QuoteBoundary
make_quote lower given = record given {
  token_address = lower (strip given.token_address);
  block_hash = lower (strip given.block_hash);
}

-- `HeadBoundary.__post_init__`
unfoldable pub make_head : (String → String) → HeadBoundary → HeadBoundary
make_head lower given = record given { block_hash = lower (strip given.block_hash) }
