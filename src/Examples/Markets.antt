-- ===== src/Examples/Markets.antt =====
-- The theorems on the quotes and on the gates of the strategy, at concrete inputs, and runs of the gates.
use debot.Base.{ℕ, ◌+◌, ◌-◌, ◌*◌, ◌≤◌, ◌<◌, true, false, ◌≡◌, ◌↔◌, refl, [], ◌∷◌, none, some, arith}
use debot.Base.{ok}
use debot.Queue.Identity.{strip}
use debot.Market.Anomaly.{MarketText, Gainer, Board, MarketAnomaly, bsc_address, market_anomaly}
use debot.Market.Selection.{
  MarketSelection, MarketQualityPolicy, check_policy, qualify, select_rows, select,
}
use debot.Market.Selected.{IsSelected, select-IsSelected}
use debot.Market.Quote.{amount_out, amount_out-keeps_product}
use debot.Market.Gates.{
  StrategyConfig, DeBotSignal, SecuritySnapshot, ExecutionQuote, signal_gate, signal_reasons,
  security_gate, security_reasons, unknown_flags, rejected_flags, quote_gate, second_us,
}
use debot.Market.Passing.{
  IsFollowed, IsSafe, IsAffordable, Passes, signal_gate-IsFollowed, security_gate-IsSafe,
  quote_gate-IsAffordable,
}

abbrev rules : StrategyConfig
rules = record {
  signal_max_age = 90 * second_us;
  min_fdv_usd = 20_000;
  max_fdv_usd = 2_000_000;
  min_liquidity_usd = 10_000;
  max_buy_tax_pct = 5;
  max_sell_tax_pct = 5;
  max_price_impact_bps = 300;
  max_round_trip_loss_bps = 800;
  max_block_age = 15 * second_us;
  max_quote_age = 10 * second_us;
  require_open_source = true;
}

abbrev now : ℕ
now = 1_000 * second_us

abbrev kol_signal : DeBotSignal
kol_signal = record {
  signal_kind = "kol";
  channel_id = "2";
  event_at = 950 * second_us;
  pair_address = some "0xpair";
  kol_buy_qualified = true;
  kol_buy_reason = "";
}

abbrev stale_signal : DeBotSignal
stale_signal = record {
  signal_kind = "kol";
  channel_id = "2";
  event_at = 900 * second_us;
  pair_address = none;
  kol_buy_qualified = false;
  kol_buy_reason = "sold";
}

abbrev clean_contract : SecuritySnapshot
clean_contract = record {
  is_honeypot = some false;
  cannot_buy = some false;
  cannot_sell_all = some false;
  buy_tax_pct = some 1;
  sell_tax_pct = some 5;
  is_open_source = some true;
  is_proxy = some false;
  hidden_owner = some false;
  owner_change_balance = some false;
}

abbrev odd_contract : SecuritySnapshot
odd_contract = record {
  is_honeypot = some true;
  cannot_buy = none;
  cannot_sell_all = some false;
  buy_tax_pct = some 1;
  sell_tax_pct = some 6;
  is_open_source = none;
  is_proxy = some false;
  hidden_owner = some false;
  owner_change_balance = some false;
}

abbrev fresh_quote : ExecutionQuote
fresh_quote = record {
  head_timestamp = 995 * second_us;
  head_fetched_at = 998 * second_us;
  notional_usd = 100;
  spot_fdv_usd = 50_000;
  fill_fdv_usd = 51_000;
  liquidity_usd = 15_000;
  price_impact_bps = 120;
  immediate_exit_usd = 97;
}

kol_signal_runs : (signal_gate kol_signal rules now).all_reasons ≡ []
unfolding signal_gate signal_reasons
kol_signal_runs = refl

stale_signal_runs :
    (signal_gate stale_signal rules now).all_reasons
    ≡ "kol_not_qualified:sold" ∷ "signal_stale" ∷ "pair_missing" ∷ []
unfolding signal_gate signal_reasons
stale_signal_runs = refl

odd_contract_runs :
    (security_gate odd_contract rules).all_reasons
    ≡ "security_unknown:cannot_buy" ∷ "security_reject:honeypot"
      ∷ "contract_not_verified_open_source" ∷ "sell_tax_too_high" ∷ []
unfolding security_gate security_reasons unknown_flags rejected_flags
odd_contract_runs = refl

amount_out_runs : amount_out 1_000 1_000_000 500_000 ≡ 498
unfolding amount_out
amount_out_runs = refl

signal_gate-IsFollowed_example :
    ((signal_gate kol_signal rules now).passed ≡ true) ↔ IsFollowed kol_signal rules now
signal_gate-IsFollowed_example = signal_gate-IsFollowed kol_signal rules now

security_gate-IsSafe_example :
    ((security_gate clean_contract rules).passed ≡ true) ↔ IsSafe clean_contract rules
security_gate-IsSafe_example = security_gate-IsSafe clean_contract rules

quote_gate-IsAffordable_example :
    Passes (quote_gate fresh_quote rules now) ↔ IsAffordable fresh_quote rules now
quote_gate-IsAffordable_example = quote_gate-IsAffordable fresh_quote rules now

amount_out-keeps_product_example :
    let out = amount_out 1_000 1_000_000 500_000 in
    (out < 500_000)
    × (1_000_000 * 500_000 ≤ (1_000_000 + 1_000) * (500_000 - out))
    × (amount_out out (500_000 - out) (1_000_000 + 1_000) ≤ 1_000)
amount_out-keeps_product_example = amount_out-keeps_product 1_000 1_000_000 500_000 (omega arith)

abbrev market_text : MarketText
market_text = record {
  lower = λ text. text;
  stable_id = λ label parts. label;
  iso_day = λ at. "2025-01-01";
  decimal = λ stage. "5";
}

abbrev quality_policy : MarketQualityPolicy
quality_policy = record {
  min_change_pct = 3;
  min_liquidity_usd = 25_000;
  min_volume_h1_usd = 5_000;
  min_txns_h1 = 4;
  max_valuation_liquidity_ratio = 5_000_000;
  min_volume_liquidity_ratio = 500;
  max_anomalies = 10;
  stages = 3 ∷ 5 ∷ 10 ∷ 20 ∷ [];
}

quality_policy_passes : check_policy quality_policy ≡ ok tt
unfolding check_policy
quality_policy_passes = refl

abbrev rising : Gainer
rising = record {
  token_address = "0x00112233445566778899aabbccddeeff00112233";
  symbol = " UP ";
  name = "Up";
  h1_change_pct = 12;
  liquidity_usd = some 40_000;
  fdv_usd = some 900_000;
  market_cap_usd = none;
  volume_h1_usd = some 8_000;
  txns_h1 = some 90;
}

abbrev thin : Gainer
thin = record rising { liquidity_usd = none }

abbrev ranked : Board
ranked = record {
  as_of_us = 7;
  board_source = "coinmarketcap_datahub";
  board_url = "https://example.org";
  ranking_exact = true;
  rows = thin ∷ rising ∷ [];
}

abbrev emitted : MarketAnomaly
emitted = record {
  exact_ca = "0x00112233445566778899aabbccddeeff00112233";
  observed_at = 7;
  symbol = "UP";
  name = "Up";
  h1_change_pct = 12;
  liquidity_usd = 40_000;
  valuation_usd = 900_000;
  volume_h1_usd = 8_000;
  txns_h1 = 90;
  stage_pct = 10;
  source = "coinmarketcap_datahub";
  source_url = "https://example.org";
  anomaly_id = "market-anomaly";
}

abbrev selected : MarketSelection
selected = record {
  anomalies = emitted ∷ [];
  rejections =
      record {
        rejected_ca = "0x00112233445566778899aabbccddeeff00112233";
        reason = "liquidity_below_threshold";
      }
      ∷ [];
}

select_runs : select market_text quality_policy ranked ≡ ok selected
unfolding select select_rows qualify market_anomaly bsc_address strip
select_runs = refl

select-IsSelected_example : IsSelected market_text quality_policy ranked selected
select-IsSelected_example = select-IsSelected market_text quality_policy ranked selected select_runs
