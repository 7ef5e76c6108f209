-- ===== src/Market/Qualifying.antt =====
-- What `_qualify` (src/debot4/v6/narrative/market_signal.py) accepts.
use debot.Base.{
  ℕ, [], ◌∷◌, ◌*◌, ◌≤◌, ◌<◌, String, Bool, true, false, ◌&&◌, not, ◌≡◌, refl, subst, Option, none,
  some, Result, ok, err, guard, ◌>>=◌, ◌>>◌, value_error, arithmetic_error, arith, if◌then◌else◌,
  leb, ltb, str_eq, >>=-eq-ok,
}
use debot.Queue.Identity.{strip}
use debot.Market.Anomaly.{
  MarketText, Gainer, Board, MarketAnomaly, value_of, bsc_address, str_take, clean_source,
  clean_url, anomaly_of, market_anomaly,
}
use debot.Market.Selection.{
  MarketQualityPolicy, Qualified, accepted, rejected, is_below, or_fdv, top_stage,
  qualified_anomaly, qualify,
}
use debot.Market.Stages.{IsTopStage, top_stage-IsTopStage}

-- The anomaly is of the row's token and names it, the board and the day; the row is within the bounds
-- of the policy, at its highest stage.
pub record IsEmitted (text : MarketText) (policy : MarketQualityPolicy) (board : Board)
    (row : Gainer) (anomaly : MarketAnomaly) : Type 0 where
  pub address : bsc_address text row.token_address ≡ ok anomaly.exact_ca
  pub symbol : anomaly.symbol ≡ str_take 80 (strip row.symbol)
  pub name : anomaly.name ≡ str_take 160 (strip row.name)
  pub observed : anomaly.observed_at ≡ board.as_of_us
  pub source : anomaly.source ≡ str_take 80 (strip board.board_source)
  pub source_url : anomaly.source_url ≡ str_take 500 (strip board.board_url)
  pub identity :
      anomaly.anomaly_id
      ≡ text.stable_id "market-anomaly" (
          anomaly.source
          ∷ anomaly.exact_ca
          ∷ text.iso_day board.as_of_us
          ∷ text.decimal anomaly.stage_pct
          ∷ [])
  pub change : anomaly.h1_change_pct ≡ row.h1_change_pct
  pub liquidity : row.liquidity_usd ≡ some anomaly.liquidity_usd
  pub valuation : or_fdv row.market_cap_usd row.fdv_usd ≡ some anomaly.valuation_usd
  pub volume : row.volume_h1_usd ≡ some anomaly.volume_h1_usd
  pub txns : row.txns_h1 ≡ some anomaly.txns_h1
  pub min_change : policy.min_change_pct ≤ row.h1_change_pct
  pub min_liquidity : policy.min_liquidity_usd ≤ anomaly.liquidity_usd
  pub min_valuation : 0 < anomaly.valuation_usd
  pub min_volume : policy.min_volume_h1_usd ≤ anomaly.volume_h1_usd
  pub min_txns : policy.min_txns_h1 ≤ anomaly.txns_h1
  pub valuation_ratio :
      anomaly.valuation_usd * 10_000 ≤ policy.max_valuation_liquidity_ratio * anomaly.liquidity_usd
  pub volume_ratio :
      policy.min_volume_liquidity_ratio * anomaly.liquidity_usd ≤ anomaly.volume_h1_usd * 10_000
  pub stage : IsTopStage row.h1_change_pct policy.stages anomaly.stage_pct

pub ok_value {ℓ} : {A : Type ℓ} {x y : A} → ok x ≡ ok y → x ≡ y
ok_value e = cc e

not_below :
    (value : Option ℕ) (bound : ℕ)
    → is_below value bound ≡ false
    → (value ≡ some (value_of value)) × (bound ≤ value_of value)
not_below none bound h = absurd (ground arith)
not_below (some value) bound h = (refl, ground arith)

-- A call, two checks, and the value that is returned then.
two_guards {ℓ} :
    {A : Type ℓ} (first : Result String) (b c : Bool) (next : String → A) {value : A}
    → (first >>= λ text. guard b value_error >> (guard c value_error >> ok (next text))) ≡ ok value
    → (text : String) × (first ≡ ok text) × (next text ≡ value)
two_guards (ok text) true true next h = (text, refl, ok_value h)
two_guards (ok text) true false next h = absurd (ground arith)
two_guards (ok text) false c next h = absurd (ground arith)
two_guards (err error) b c next h = absurd (ground arith)

-- What the constructor returns.
market_anomaly-eq-ok :
    (text : MarketText) (row : Gainer) (valuation stage : ℕ) (board : Board)
    {anomaly : MarketAnomaly}
    → market_anomaly text row valuation stage board ≡ ok anomaly
    → (exact_ca : String) × (bsc_address text row.token_address ≡ ok exact_ca)
      × (anomaly_of text row valuation stage board exact_ca ≡ anomaly)
unfolding market_anomaly
market_anomaly-eq-ok text row valuation stage board h =
    two_guards (bsc_address text row.token_address) (ltb 0 stage && leb stage row.h1_change_pct)
      (not (str_eq (clean_source text board) "") && not (str_eq (clean_url text board) ""))
      (anomaly_of text row valuation stage board) h

-- What `_qualify` accepts, once its checks pass.
qualified_anomaly-eq-ok :
    (text : MarketText) (policy : MarketQualityPolicy) (row : Gainer) (board : Board)
    {anomaly : MarketAnomaly}
    → qualified_anomaly text policy row board ≡ ok (accepted anomaly)
    → (stage : ℕ) × (exact_ca : String) × (top_stage row.h1_change_pct policy.stages ≡ ok stage)
      × (bsc_address text row.token_address ≡ ok exact_ca)
      × (anomaly_of text row (value_of (or_fdv row.market_cap_usd row.fdv_usd)) stage board exact_ca
          ≡ anomaly)
qualified_anomaly-eq-ok text policy row board h =
    let valuation = value_of (or_fdv row.market_cap_usd row.fdv_usd) in
    let (stage, reached, h1) =
      >>=-eq-ok (top_stage row.h1_change_pct policy.stages)
        (λ stage.
          market_anomaly text row valuation stage board >>= λ anomaly. ok (accepted anomaly))
        h in
    let (built, kept, h2) =
      >>=-eq-ok (market_anomaly text row valuation stage board) (λ anomaly. ok (accepted anomaly))
        h1 in
    let (exact_ca, found, e) = market_anomaly-eq-ok text row valuation stage board kept in
    (stage, exact_ca, reached, found, cc (e, h2))

-- The checks of `_qualify`, in their order.
checks_passed :
    (b c d z e f g i : Bool) (last : Result Qualified) {anomaly : MarketAnomaly}
    → (if b
        then ok (rejected "change_below_threshold")
        else if c
        then ok (rejected "liquidity_below_threshold")
        else if d
        then ok (rejected "valuation_missing")
        else if z
        then err arithmetic_error
        else if e
        then ok (rejected "valuation_liquidity_ratio_too_high")
        else if f
        then ok (rejected "volume_below_threshold")
        else if g
        then ok (rejected "volume_liquidity_ratio_too_low")
        else if i
        then ok (rejected "transactions_below_threshold")
        else last)
      ≡ ok (accepted anomaly)
    → (b ≡ false)
      × (c ≡ false)
      × (d ≡ false)
      × (e ≡ false)
      × (f ≡ false)
      × (g ≡ false)
      × (i ≡ false)
      × (last ≡ ok (accepted anomaly))
checks_passed b c d z e f g i last h = ground arith

pub qualify-IsEmitted :
    (text : MarketText) (policy : MarketQualityPolicy) (row : Gainer) (board : Board)
    {anomaly : MarketAnomaly}
    → qualify text policy row board ≡ ok (accepted anomaly)
    → IsEmitted text policy board row anomaly
unfolding qualify
qualify-IsEmitted text policy row board h =
    let valuation = or_fdv row.market_cap_usd row.fdv_usd in
    let liquidity = value_of row.liquidity_usd in
    let (b, c, d, e, f, g, i, last) =
      checks_passed (ltb row.h1_change_pct policy.min_change_pct)
        (is_below row.liquidity_usd policy.min_liquidity_usd) (is_below valuation 1)
        (leb liquidity 0)
        (ltb (policy.max_valuation_liquidity_ratio * liquidity) (value_of valuation * 10_000))
        (is_below row.volume_h1_usd policy.min_volume_h1_usd)
        (ltb (value_of row.volume_h1_usd * 10_000) (policy.min_volume_liquidity_ratio * liquidity))
        (is_below row.txns_h1 policy.min_txns_h1) (qualified_anomaly text policy row board) h in
    let (stage, exact_ca, reached, found, same) =
      qualified_anomaly-eq-ok text policy row board last in
    let (known_liquidity, liquid) = not_below row.liquidity_usd policy.min_liquidity_usd c in
    let (known_valuation, valued) = not_below valuation 1 d in
    let (known_volume, traded) = not_below row.volume_h1_usd policy.min_volume_h1_usd f in
    let (known_txns, active) = not_below row.txns_h1 policy.min_txns_h1 i in
    subst (IsEmitted text policy board row) same (record {
      address = found;
      symbol = refl;
      name = refl;
      observed = refl;
      source = refl;
      source_url = refl;
      identity = refl;
      change = refl;
      liquidity = known_liquidity;
      valuation = known_valuation;
      volume = known_volume;
      txns = known_txns;
      min_change = ground (arith, b);
      min_liquidity = liquid;
      min_valuation = valued;
      min_volume = traded;
      min_txns = active;
      valuation_ratio = ground (arith, e);
      volume_ratio = ground (arith, g);
      stage = top_stage-IsTopStage row.h1_change_pct policy.stages stage reached;
    })
