-- ===== src/Market/Selection.antt =====
-- The quality gate of market anomalies (src/debot4/v6/narrative/market_signal.py): `select`, `_qualify` and
-- the constructor of MarketQualityPolicy. A bound on a ratio counts ten-thousandths, and the ratio is
-- compared by the products.
use debot.Base.{
  ℕ, zero, suc, ◌*◌, String, Bool, true, false, ◌&&◌, ◌||◌, not, List, [], ◌∷◌, ◌++◌, Option, none,
  some, Result, ok, err, guard, ◌>>=◌, ◌>>◌, value_error, arithmetic_error, max, if◌then◌else◌, leb,
  ltb, length, every, str_eq, is_empty,
}
use debot.Market.Anomaly.{MarketText, Gainer, Board, MarketAnomaly, value_of, market_anomaly}

pub record MarketRejection : Type 0 where
  pub rejected_ca : String
  pub reason : String

pub record MarketSelection : Type 0 where
  pub anomalies : List MarketAnomaly
  pub rejections : List MarketRejection

pub record MarketQualityPolicy : Type 0 where
  pub min_change_pct : ℕ
  pub min_liquidity_usd : ℕ
  pub min_volume_h1_usd : ℕ
  pub min_txns_h1 : ℕ
  pub max_valuation_liquidity_ratio : ℕ
  pub min_volume_liquidity_ratio : ℕ
  pub max_anomalies : ℕ
  pub stages : List ℕ

-- `tuple(sorted(set(stages))) == stages`
abbrev pub is_increasing : List ℕ → Bool
is_increasing [] = true
is_increasing (x ∷ []) = true
is_increasing (x ∷ y ∷ xs) = ltb x y && is_increasing (y ∷ xs)

-- `min_change_pct < stages[0]`
abbrev pub below_first : ℕ → List ℕ → Bool
below_first change [] = false
below_first change (stage ∷ stages) = ltb change stage

-- `MarketQualityPolicy.__post_init__`
unfoldable pub check_policy : MarketQualityPolicy → Result (Unit {0})
check_policy policy = do
  guard (leb 1 policy.max_anomalies && leb policy.max_anomalies 100) value_error
  guard (not (is_empty policy.stages) && is_increasing policy.stages) value_error
  guard (every (ltb 0) policy.stages) value_error
  guard (not (below_first policy.min_change_pct policy.stages)) value_error

-- `value is None or value < bound`
abbrev pub is_below : Option ℕ → ℕ → Bool
is_below none bound = true
is_below (some value) bound = ltb value bound

-- `row.market_cap_usd or row.fdv_usd`
abbrev pub or_fdv : Option ℕ → Option ℕ → Option ℕ
or_fdv none fdv = fdv
or_fdv (some zero) fdv = fdv
or_fdv (some (suc cap)) fdv = some (suc cap)

abbrev pub larger : ℕ → Result ℕ → ℕ
larger stage (ok other) = max stage other
larger stage (err error) = stage

-- `max(item for item in stages if item <= change)`, which raises when there is none
abbrev pub top_stage : ℕ → List ℕ → Result ℕ
top_stage change [] = err value_error
top_stage change (stage ∷ stages) =
    let rest = top_stage change stages in if leb stage change then ok (larger stage rest) else rest

-- What `_qualify` returns.
pub data Qualified : Type 0 where
  accepted : MarketAnomaly → Qualified
  rejected : String → Qualified

module _ (text : MarketText) where
  abbrev pub qualified_anomaly : MarketQualityPolicy → Gainer → Board → Result Qualified
  qualified_anomaly policy row board = do
    stage ← top_stage row.h1_change_pct policy.stages
    anomaly ← market_anomaly text row (value_of (or_fdv row.market_cap_usd row.fdv_usd)) stage board
    ok (accepted anomaly)

  -- `_qualify`. A liquidity of 0 divides by zero.
  unfoldable pub qualify : MarketQualityPolicy → Gainer → Board → Result Qualified
  unfolding market_anomaly
  qualify policy row board =
      let valuation = or_fdv row.market_cap_usd row.fdv_usd in
      let liquidity = value_of row.liquidity_usd in
      if ltb row.h1_change_pct policy.min_change_pct
      then ok (rejected "change_below_threshold")
      else if is_below row.liquidity_usd policy.min_liquidity_usd
      then ok (rejected "liquidity_below_threshold")
      else if is_below valuation 1
      then ok (rejected "valuation_missing")
      else if leb liquidity 0
      then err arithmetic_error
      else if ltb (policy.max_valuation_liquidity_ratio * liquidity) (value_of valuation * 10_000)
      then ok (rejected "valuation_liquidity_ratio_too_high")
      else if is_below row.volume_h1_usd policy.min_volume_h1_usd
      then ok (rejected "volume_below_threshold")
      else if ltb (value_of row.volume_h1_usd * 10_000)
          (policy.min_volume_liquidity_ratio * liquidity)
      then ok (rejected "volume_liquidity_ratio_too_low")
      else if is_below row.txns_h1 policy.min_txns_h1
      then ok (rejected "transactions_below_threshold")
      else qualified_anomaly policy row board

  -- What the loop of `select` does with a row's verdict.
  abbrev pub take_in : MarketQualityPolicy → Gainer → MarketSelection → Qualified → MarketSelection
  take_in policy row selection (rejected reason) = record selection {
    rejections =
        selection.rejections ++ record { rejected_ca = row.token_address; reason = reason } ∷ [];
  }
  take_in policy row selection (accepted anomaly) =
      if ltb (length selection.anomalies) policy.max_anomalies
      then record selection { anomalies = selection.anomalies ++ anomaly ∷ [] }
      else selection

  unfoldable pub select_rows :
      MarketQualityPolicy → Board → List Gainer → MarketSelection → Result MarketSelection
  unfolding qualify
  select_rows policy board [] selection = ok selection
  select_rows policy board (row ∷ rows) selection = do
    verdict ← qualify policy row board
    select_rows policy board rows (take_in policy row selection verdict)

  -- `select`
  unfoldable pub select : MarketQualityPolicy → Board → Result MarketSelection
  unfolding select_rows
  select policy board =
      if not board.ranking_exact || not (str_eq board.board_source "coinmarketcap_datahub")
      then ok (record {
        anomalies = [];
        rejections = record { rejected_ca = ""; reason = "board_not_exact" } ∷ [];
      })
      else select_rows policy board board.rows (record { anomalies = []; rejections = [] })
