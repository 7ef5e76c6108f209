-- ===== src/Market/Gates.antt =====
-- The hard gates of the strategy (src/debot4/v6/strategy.py): `signal_gate`, `security_gate` and
-- `quote_gate`. Instants and ages are microseconds, amounts natural numbers in one unit, percentages and
-- basis points natural numbers of one scale. The round-trip loss, a quotient of Decimals, is compared with
-- its bound by the products.
use debot.Base.{
  ℕ, ◌+◌, ◌-◌, ◌*◌, String, Bool, true, false, ◌&&◌, ◌||◌, not, List, [], ◌∷◌, ◌++◌, Option, none,
  some, if◌then◌else◌, leb, ltb, str_eq, str_append, when, is_empty,
}

-- The rules that the gates read.
pub record StrategyConfig : Type 0 where
  pub signal_max_age : ℕ
  pub min_fdv_usd : ℕ
  pub max_fdv_usd : ℕ
  pub min_liquidity_usd : ℕ
  pub max_buy_tax_pct : ℕ
  pub max_sell_tax_pct : ℕ
  pub max_price_impact_bps : ℕ
  pub max_round_trip_loss_bps : ℕ
  pub max_block_age : ℕ
  pub max_quote_age : ℕ
  pub require_open_source : Bool

-- The fields of a signal that the gate reads.
pub record DeBotSignal : Type 0 where
  pub signal_kind : String
  pub channel_id : String
  pub event_at : ℕ
  pub pair_address : Option String
  pub kol_buy_qualified : Bool
  pub kol_buy_reason : String

pub record SecuritySnapshot : Type 0 where
  pub is_honeypot : Option Bool
  pub cannot_buy : Option Bool
  pub cannot_sell_all : Option Bool
  pub buy_tax_pct : Option ℕ
  pub sell_tax_pct : Option ℕ
  pub is_open_source : Option Bool
  pub is_proxy : Option Bool
  pub hidden_owner : Option Bool
  pub owner_change_balance : Option Bool

-- The fields of a quote that the gate reads, with the two instants of its head.
pub record ExecutionQuote : Type 0 where
  pub head_timestamp : ℕ
  pub head_fetched_at : ℕ
  pub notional_usd : ℕ
  pub spot_fdv_usd : ℕ
  pub fill_fdv_usd : ℕ
  pub liquidity_usd : ℕ
  pub price_impact_bps : ℕ
  pub immediate_exit_usd : ℕ

pub record GateResult : Type 0 where
  pub passed : Bool
  pub reason : String
  pub all_reasons : List String

-- `passed if not reasons else reasons[0]`
abbrev first_reason : String → List String → String
first_reason passed [] = passed
first_reason passed (r ∷ rs) = r

abbrev pub gate_result : String → List String → GateResult
gate_result passed reasons = record {
  passed = is_empty reasons;
  reason = first_reason passed reasons;
  all_reasons = reasons;
}

abbrev pub second_us : ℕ
second_us = 1_000_000

-- `not signal.pair_address`
abbrev pub is_missing : Option String → Bool
is_missing none = true
is_missing (some address) = str_eq address ""

-- `age < -1`, and `age > limit` otherwise
abbrev age_reasons : (event now limit : ℕ) → List String
age_reasons event now limit =
    if ltb (now + second_us) event
    then "signal_from_future" ∷ []
    else when (ltb (event + limit) now) "signal_stale"

unfoldable pub signal_reasons : DeBotSignal → StrategyConfig → ℕ → List String
signal_reasons signal rules now =
    when (not (str_eq signal.signal_kind "kol" || str_eq signal.signal_kind "smart_money"))
      "unsupported_debot_signal"
    ++ when (not (str_eq signal.channel_id "2")) "not_official_debot_channel"
    ++ when (str_eq signal.signal_kind "kol" && not signal.kol_buy_qualified)
        (str_append "kol_not_qualified:" signal.kol_buy_reason)
    ++ age_reasons signal.event_at now rules.signal_max_age
    ++ when (is_missing signal.pair_address) "pair_missing"

unfoldable pub signal_gate : DeBotSignal → StrategyConfig → ℕ → GateResult
unfolding signal_reasons
signal_gate signal rules now = gate_result "signal_passed" (signal_reasons signal rules now)

-- `required_false`
abbrev pub required_false : SecuritySnapshot → List (String × Option Bool)
required_false s =
    ("honeypot", s.is_honeypot)
    ∷ ("cannot_buy", s.cannot_buy)
    ∷ ("cannot_sell_all", s.cannot_sell_all)
    ∷ ("proxy", s.is_proxy)
    ∷ ("hidden_owner", s.hidden_owner)
    ∷ ("owner_change_balance", s.owner_change_balance)
    ∷ []

unfoldable pub unknown_flags : List (String × Option Bool) → List String
unknown_flags [] = []
unknown_flags ((name, none) ∷ flags) = str_append "security_unknown:" name ∷ unknown_flags flags
unknown_flags ((name, some value) ∷ flags) = unknown_flags flags

unfoldable pub rejected_flags : List (String × Option Bool) → List String
rejected_flags [] = []
rejected_flags ((name, some true) ∷ flags) =
    str_append "security_reject:" name ∷ rejected_flags flags
rejected_flags ((name, some false) ∷ flags) = rejected_flags flags
rejected_flags ((name, none) ∷ flags) = rejected_flags flags

-- `value is not True`
abbrev pub is_not_true : Option Bool → Bool
is_not_true (some true) = false
is_not_true (some false) = true
is_not_true none = true

abbrev pub tax_reasons : Option ℕ → Option ℕ → StrategyConfig → List String
tax_reasons (some buy) (some sell) rules =
    when (ltb rules.max_buy_tax_pct buy) "buy_tax_too_high"
    ++ when (ltb rules.max_sell_tax_pct sell) "sell_tax_too_high"
tax_reasons none sell rules = "tax_unknown" ∷ []
tax_reasons (some buy) none rules = "tax_unknown" ∷ []

unfoldable pub security_reasons : SecuritySnapshot → StrategyConfig → List String
unfolding unknown_flags rejected_flags
security_reasons snapshot rules =
    unknown_flags (required_false snapshot)
    ++ rejected_flags (required_false snapshot)
    ++ when (rules.require_open_source && is_not_true snapshot.is_open_source)
        "contract_not_verified_open_source"
    ++ tax_reasons snapshot.buy_tax_pct snapshot.sell_tax_pct rules

unfoldable pub security_gate : SecuritySnapshot → StrategyConfig → GateResult
unfolding security_reasons
security_gate snapshot rules = gate_result "security_passed" (security_reasons snapshot rules)

unfoldable pub quote_reasons : ExecutionQuote → StrategyConfig → ℕ → List String
quote_reasons quote rules now =
    when (ltb (now + second_us) quote.head_timestamp || ltb (now + second_us) quote.head_fetched_at)
      "quote_from_future"
    ++ when (ltb (quote.head_timestamp + rules.max_block_age) now) "quote_block_stale"
    ++ when (ltb (quote.head_fetched_at + rules.max_quote_age) now) "quote_fetch_stale"
    ++ when (ltb quote.spot_fdv_usd rules.min_fdv_usd) "fdv_below_minimum"
    ++ when (ltb rules.max_fdv_usd quote.fill_fdv_usd) "fill_fdv_above_maximum"
    ++ when (ltb quote.liquidity_usd rules.min_liquidity_usd) "liquidity_below_minimum"
    ++ when (ltb rules.max_price_impact_bps quote.price_impact_bps) "price_impact_too_high"
    ++ when
        (ltb (rules.max_round_trip_loss_bps * quote.notional_usd)
          ((quote.notional_usd - quote.immediate_exit_usd) * 10_000))
        "round_trip_loss_too_high"

-- With a notional of 0 the division raises.
unfoldable pub quote_gate : ExecutionQuote → StrategyConfig → ℕ → Option GateResult
unfolding quote_reasons
quote_gate quote rules now =
    if leb quote.notional_usd 0
    then none
    else some (gate_result "quote_passed" (quote_reasons quote rules now))
