-- ===== src/Ledger/Settlement.antt =====
-- `finalize_one_hour` over the ledger's tables (src/debot4/v6/ledger/outcomes.py): the rows that its queries
-- give to `_canonical_path` and to the verdict, and its insertion.
use debot.Base.{
  Result, guard, value_error, ◌>>=◌, ◌>>◌, ℕ, String, Bool, ◌&&◌, ◌||◌, List, [], ◌∷◌, map, Option,
  none, some, ok, err, if◌then◌else◌, leb, ltb, ◌==◌, find?, str_eq, str_ltb, satisfying,
}
use debot.Ledger.Schema.{BuyRow, ObservationRow, HeadSighting}
use debot.Ledger.Codec.{Python, clean_text}
use debot.Ledger.Outcomes.{hour_us, SimulatedBuy, BlockObservation, ChainPath, canonical_path}
pub use debot.Ledger.Finalize.{Window}
use debot.Ledger.Finalize.{
  OneHourResult, StoredBuy, Ledger, is_of, visible_buy, settle_result, settle_visible,
}
use debot.Ledger.Transaction.{Stored, Tables, Tx}

-- The rows as `_canonical_path` reads them.
abbrev pub observation_view : Stored ObservationRow → BlockObservation
observation_view row = record {
  block_number = row.content.block_number;
  block_hash = row.content.block_hash;
  parent_hash = row.content.parent_hash;
  observed_at = row.content.observed_at;
  fdv_usd = row.content.fdv_usd;
  position_value_usd = row.content.position_value_usd;
  available_at = row.content.available_at;
  inserted_at = row.inserted_at;
}

abbrev pub buy_view : Stored BuyRow → StoredBuy
buy_view row = record {
  buy = record {
    buy_id = row.content.buy_id;
    block_number = row.content.block_number;
    block_hash = row.content.block_hash;
    executed_at = row.content.executed_at;
    notional_usd = row.content.notional_usd;
    entry_fdv_usd = row.content.entry_fdv_usd;
    entry_position_value_usd = row.content.entry_position_value_usd;
  };
  inserted_at = row.inserted_at;
}

-- `ORDER BY commit_seq DESC, sighting_id DESC LIMIT 1` of the visible heads of a buy
abbrev pub latest_head :
    (Stored HeadSighting → Bool) → List (Stored HeadSighting) → Option (Stored HeadSighting)
latest_head test [] = none
latest_head test (row ∷ rows) =
    let rest = latest_head test rows in
    if test row
    then elim rest [
      | none ↦ some row
      | some other ↦
          if ltb row.commit_seq other.commit_seq
            || (row.commit_seq == other.commit_seq
                && str_ltb row.content.sighting_id other.content.sighting_id)
          then some other
          else some row
    ]
    else rest

-- `WHERE buy_id = ? AND available_at_us <= ? AND inserted_at_us <= ?`
abbrev pub is_head : String → ℕ → Stored HeadSighting → Bool
is_head buy_id cutoff row =
    str_eq row.content.buy_id buy_id
    && (leb row.content.available_at cutoff && leb row.inserted_at cutoff)

-- `str(head["block_hash"])`
abbrev pub head_hash : Option (Stored HeadSighting) → Option String
head_hash none = none
head_hash (some row) = some row.content.block_hash

-- `_canonical_path(buy, cutoff)` over the tables
unfoldable pub path_of : Tables → ℕ → SimulatedBuy → ChainPath
path_of tables cutoff bought =
    canonical_path bought (head_hash (latest_head (is_head bought.buy_id cutoff) tables.heads))
      (map observation_view
        (satisfying (λ row. str_eq row.content.buy_id bought.buy_id) tables.observations))
      cutoff

abbrev pub outcome_view : Tables → Ledger
outcome_view tables = record { buys = map buy_view tables.buys; results = tables.results }

-- The checks of `finalize_one_hour` before its transaction.
unfoldable pub check_window : ℕ → String → Window → Result String
check_window clock buy_id w = do
  identity ← clean_text buy_id 128
  guard (leb w.as_of clock) value_error
  guard (ltb 0 w.gap && leb w.gap hour_us) value_error
  ok identity

abbrev pub with_results :
    Tables → Result ((OneHourResult × Bool) × Ledger) → Result ((OneHourResult × Bool) × Tables)
with_results tables (err error) = err error
with_results tables (ok (result, ledger)) = ok (result, record tables { results = ledger.results })

-- The transaction of `finalize_one_hour`.
unfoldable pub add_result : Python → String → Window → Tx (OneHourResult × Bool)
unfolding path_of
add_result python buy_id w stamp tables = with_results tables (
    settle_result (find? (is_of buy_id) tables.results) (outcome_view tables) (
      settle_visible python w stamp (path_of tables w.as_of) (outcome_view tables)
        (visible_buy buy_id w.as_of (outcome_view tables).buys)))
