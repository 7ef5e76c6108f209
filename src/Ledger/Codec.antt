-- ===== src/Ledger/Codec.antt =====
-- The normalisation of what a caller of the ledger gives (src/debot4/v6/ledger/codec.py), and the
-- identities of observations and head sightings (ledger/trades.py, ledger/heads.py). `str.lower`, SHA-256,
-- the decimal text of a number and `json.dumps` are parameters.
use debot.Base.{
  Option, none, some, ℕ, String, Bool, true, false, ◌&&◌, not, List, [], ◌∷◌, Result, ok, err,
  guard, ◌>>=◌, ◌>>◌, value_error, if◌then◌else◌, leb, ltb, ◌==◌, length, codes, str_eq, str_append,
  Option, some,
}
use debot.Queue.Identity.{strip}
use debot.Entry.Models.{is_hex_text, any_hex}

-- A value of a metadata mapping; `number` is an integer.
pub data Scalar : Type 0 where
  text : String → Scalar
  flag : Bool → Scalar
  number : ℕ → Scalar

abbrev pub Metadata : Type 0
Metadata = List (String × Scalar)

-- The functions of Python's library that the ledger calls. `rounded` is the amount that `normalize` leaves in
-- `decimal_text`, and may be 0 for a positive one; `quotient` and `difference` are the texts of the Decimal
-- operations, which may raise.
pub record Python : Type 0 where
  pub lower : String → String
  pub sha256 : String → String
  pub decimal : ℕ → String
  pub dumps : Metadata → String
  pub rounded : ℕ → ℕ
  pub quotient : (amount divisor : ℕ) → Result String
  pub difference : (amount other : ℕ) → Result String

-- `text`
unfoldable pub clean_text : String → ℕ → Result String
clean_text value maximum = do
  let normalized = strip value
  guard (not (str_eq normalized "")) value_error
  guard (leb (length (codes normalized)) maximum) value_error
  ok normalized

-- `text` of an optional value
unfoldable pub clean_optional : Option String → ℕ → Result (Option String)
unfolding clean_text
clean_optional none maximum = ok none
clean_optional (some value) maximum = do clean ← clean_text value maximum; ok (some clean)

abbrev starts_0x : List ℕ → Bool
starts_0x (x ∷ y ∷ rest) = x == b'0' && y == b'x'
starts_0x _ = false

module _ (python : Python) where
  open python use {lower, sha256, decimal, rounded}

  -- `decimal_text` of `decimal_value(…, positive=True)`: the test comes before the rounding.
  abbrev pub positive : ℕ → Result ℕ
  positive amount = do guard (ltb 0 amount) value_error; ok (rounded amount)

  -- `chain`
  unfoldable pub clean_chain : String → Result String
  unfolding clean_text
  clean_chain value = do clean ← clean_text value 64; ok (lower clean)

  abbrev token_text : String → Result String
  token_text normalized =
      if starts_0x (codes (lower normalized))
      then (if is_hex_text any_hex 40 (codes (lower normalized))
          then ok (lower normalized)
          else err value_error)
      else ok normalized

  -- `token`
  unfoldable pub clean_token : String → Result String
  unfolding clean_text
  clean_token value = do normalized ← clean_text value 128; token_text normalized

  -- `block_hash`
  unfoldable pub clean_block_hash : String → Result String
  unfolding clean_text
  clean_block_hash value = do
    normalized ← clean_text value 66
    guard (is_hex_text any_hex 64 (codes normalized)) value_error
    ok (lower normalized)

  -- `_observation_id`
  unfoldable pub observation_identity : String → String → String
  observation_identity buy_id hash = sha256 (str_append buy_id (str_append "\0" hash))

  -- `_sighting_id`
  unfoldable pub sighting_identity : String → String → ℕ → String
  sighting_identity buy_id hash sighted_at =
      sha256 (
        str_append buy_id
          (str_append "\0" (str_append hash (str_append "\0" (decimal sighted_at)))))

abbrev pub official_source : String
official_source = "debot:bsc:official-signal"

abbrev pub ranks_source : String
ranks_source = "debot:bsc:ranks-kol-increase"

-- `_RANKS_ANNOTATIONS`
abbrev pub ranks_annotations : Metadata
ranks_annotations =
    ("claim_type", text "kol_count_increase")
    ∷ ("evidence_quality", text "provider_aggregate_asserted")
    ∷ ("evidence_semantics", text "provider_aggregate_proxy")
    ∷ ("chain_verified", flag false)
    ∷ ("wallet_buy_claim", flag false)
    ∷ []

-- The equality of Python's values, where `False == 0` and `True == 1`.
abbrev pub same_value : Scalar → Scalar → Bool
same_value (text s) (text t) = str_eq s t
same_value (flag true) (flag b) = b
same_value (flag false) (flag b) = not b
same_value (number m) (number n) = m == n
same_value (flag true) (number n) = n == 1
same_value (flag false) (number n) = n == 0
same_value (number n) (flag true) = n == 1
same_value (number n) (flag false) = n == 0
same_value _ _ = false

-- `key in result and result[key] != expected`
abbrev disagrees : String → Scalar → Metadata → Bool
disagrees key expected [] = false
disagrees key expected ((k, v) ∷ rest) =
    let later = disagrees key expected rest in
    if str_eq k key then not (same_value v expected) else later

-- `result[key] = expected`
abbrev pub assign : String → Scalar → Metadata → Metadata
assign key expected [] = (key, expected) ∷ []
assign key expected ((k, v) ∷ rest) =
    if str_eq k key then (key, expected) ∷ rest else (k, v) ∷ assign key expected rest

-- The loop over `_RANKS_ANNOTATIONS`
unfoldable pub annotate : Metadata → Metadata → Result Metadata
annotate [] result = ok result
annotate ((key, expected) ∷ rest) result = do
  guard (not (disagrees key expected result)) value_error
  annotate rest (assign key expected result)

-- `_evidence_metadata`, before `canonical_json`
unfoldable pub evidence_metadata : String → Metadata → Result Metadata
unfolding annotate
evidence_metadata source metadata =
    if str_eq source ranks_source then annotate ranks_annotations metadata else ok metadata
