-- ===== src/Market/Passing.antt =====
-- When the gates of the strategy pass.
use debot.Base.{
  ℕ, ◌+◌, ◌-◌, ◌*◌, ◌≤◌, ◌<◌, String, Bool, true, false, ◌&&◌, ◌||◌, not, ◌≡◌, ◌≢◌, ◌⊎◌, ◌↔◌, inl,
  inr, refl, List, [], ◌∷◌, ◌++◌, Option, none, some, arith, if◌then◌else◌, leb, str_eq, eq_iff,
  when, is_empty, is_empty-append, is_empty-when, All, Bool-cases,
}
use debot.Market.Gates.{
  StrategyConfig, DeBotSignal, SecuritySnapshot, ExecutionQuote, GateResult, gate_result,
  signal_gate, security_gate, quote_gate, second_us, signal_reasons, security_reasons,
  quote_reasons, unknown_flags, rejected_flags, required_false, tax_reasons, is_missing,
  is_not_true,
}

-- A signal of the official channel, of a kind that is followed, in its time, with a pair.
pub record IsFollowed (signal : DeBotSignal) (rules : StrategyConfig) (now : ℕ) : Type 0 where
  pub kind :
      ((signal.signal_kind ≡ "kol") × (signal.kol_buy_qualified ≡ true))
      ⊎ (signal.signal_kind ≡ "smart_money")
  pub channel : signal.channel_id ≡ "2"
  pub not_future : signal.event_at ≤ now + second_us
  pub fresh : now ≤ signal.event_at + rules.signal_max_age
  pub pair : (address : String) × (signal.pair_address ≡ some address) × (address ≢ "")

-- A gate that ends with a result that passes.
unfoldable pub Passes : Option GateResult → Type 0
Passes result = (gate : GateResult) × (result ≡ some gate) × (gate.passed ≡ true)

-- A quote that is fresh and within the bounds of the strategy.
pub record IsAffordable (quote : ExecutionQuote) (rules : StrategyConfig) (now : ℕ) : Type 0 where
  pub notional : 0 < quote.notional_usd
  pub block_known : quote.head_timestamp ≤ now + second_us
  pub fetch_known : quote.head_fetched_at ≤ now + second_us
  pub block_fresh : now ≤ quote.head_timestamp + rules.max_block_age
  pub fetch_fresh : now ≤ quote.head_fetched_at + rules.max_quote_age
  pub fdv : rules.min_fdv_usd ≤ quote.spot_fdv_usd
  pub fill : quote.fill_fdv_usd ≤ rules.max_fdv_usd
  pub liquidity : rules.min_liquidity_usd ≤ quote.liquidity_usd
  pub impact : quote.price_impact_bps ≤ rules.max_price_impact_bps
  pub loss :
      (quote.notional_usd - quote.immediate_exit_usd) * 10_000
      ≤ rules.max_round_trip_loss_bps * quote.notional_usd

quote_reasons_empty :
    (quote : ExecutionQuote) (rules : StrategyConfig) (now : ℕ)
    → (is_empty (quote_reasons quote rules now) ≡ true) × (0 < quote.notional_usd)
      ↔ IsAffordable quote rules now
unfolding quote_reasons
quote_reasons_empty quote rules now = simp (is_empty-append, is_empty-when) (ground arith)

guarded_gate :
    (is_raised : Bool) (passed : String) (reasons : List String)
    → Passes (if is_raised then none else some (gate_result passed reasons))
      ↔ ((is_empty reasons ≡ true) × (is_raised ≡ false))
unfolding Passes
guarded_gate true passed reasons =
    ((λ (g, e, p). absurd (ground arith)), λ (e, r). absurd (ground arith))
guarded_gate false passed reasons =
    ((λ (g, e, p). (cc (e, p), refl)), λ (e, r). (gate_result passed reasons, refl, e))

-- The quote gate passes exactly when the quote has a notional, is fresh and not from the future, and keeps
-- the bounds on the valuation, the liquidity, the impact and the loss of an immediate exit.
pub quote_gate-IsAffordable :
    (quote : ExecutionQuote) (rules : StrategyConfig) (now : ℕ)
    → Passes (quote_gate quote rules now) ↔ IsAffordable quote rules now
unfolding quote_gate
quote_gate-IsAffordable quote rules now =
    let e = quote_reasons_empty quote rules now in
    let g =
      guarded_gate (leb quote.notional_usd 0) "quote_passed" (quote_reasons quote rules now) in
    (
      (λ h. let (empty, raised) = g.0 h in e.0 (empty, ground arith)),
      λ f. let (empty, positive) = e.1 f in g.1 (empty, ground arith),
    )

pair_known :
    (pair : Option String)
    → (is_missing pair ≡ false) ↔ ((address : String) × (pair ≡ some address) × (address ≢ ""))
pair_known none = ((λ h. absurd (ground arith)), λ (a, e, n). absurd (ground arith))
pair_known (some address) = (
  (λ h. (address, refl, λ e. absurd (ground (arith, eq_iff address "")))),
  λ (a, e, n). ground (arith, eq_iff address "", n),
)

signal_reasons_empty :
    (signal : DeBotSignal) (rules : StrategyConfig) (now : ℕ)
    → is_empty (signal_reasons signal rules now) ≡ (
        (str_eq signal.signal_kind "kol" || str_eq signal.signal_kind "smart_money")
        && str_eq signal.channel_id "2"
        && (not (str_eq signal.signal_kind "kol") || signal.kol_buy_qualified)
        && (leb signal.event_at (now + second_us)
            && leb now (signal.event_at + rules.signal_max_age))
        && not (is_missing signal.pair_address))
unfolding signal_reasons
signal_reasons_empty signal rules now = simp (is_empty-append, is_empty-when) (ground arith)

kind_followed :
    (kind : String) (qualified : Bool)
    → (((str_eq kind "kol" || str_eq kind "smart_money") && (not (str_eq kind "kol") || qualified))
        ≡ true)
      ↔ (((kind ≡ "kol") × (qualified ≡ true)) ⊎ (kind ≡ "smart_money"))
kind_followed kind qualified = (
  (λ h. elim (Bool-cases (str_eq kind "kol")) [
    | inl kol ↦ inl ((eq_iff kind "kol").0 kol, ground arith)
    | inr other ↦ inr ((eq_iff kind "smart_money").0 (ground arith))
  ]),
  (λ f. elim f [ inl (k, q) ↦ rw (q, (eq_iff kind "kol").1 k) refl | inr m ↦ rw m refl ]),
)

-- The signal gate passes exactly when the signal is one of smart money or a qualified one of a KOL, on the
-- official channel, neither from the future nor stale, and names a pair.
pub signal_gate-IsFollowed :
    (signal : DeBotSignal) (rules : StrategyConfig) (now : ℕ)
    → ((signal_gate signal rules now).passed ≡ true) ↔ IsFollowed signal rules now
unfolding signal_gate
signal_gate-IsFollowed signal rules now =
    let e = signal_reasons_empty signal rules now in
    let kind = kind_followed signal.signal_kind signal.kol_buy_qualified in
    let pair = pair_known signal.pair_address in
    (
      (λ h. record {
        kind = kind.0 (ground (arith, e));
        channel = (eq_iff signal.channel_id "2").0 (ground (arith, e));
        not_future = ground (arith, e);
        fresh = ground (arith, e);
        pair = pair.0 (ground (arith, e));
      }),
      (λ f. ground (
        arith,
        e,
        kind.1 f.kind,
        (eq_iff signal.channel_id "2").1 f.channel,
        f.not_future,
        f.fresh,
        pair.1 f.pair,
      )),
    )

-- A contract without a known danger, with open source where it is asked for, and taxes within the bounds.
pub record IsSafe (s : SecuritySnapshot) (rules : StrategyConfig) : Type 0 where
  pub flags : All (λ (flag : String × Option Bool). flag.1 ≡ some false) (required_false s)
  pub source : rules.require_open_source ≡ true → s.is_open_source ≡ some true
  pub buy_tax : (tax : ℕ) × (s.buy_tax_pct ≡ some tax) × (tax ≤ rules.max_buy_tax_pct)
  pub sell_tax : (tax : ℕ) × (s.sell_tax_pct ≡ some tax) × (tax ≤ rules.max_sell_tax_pct)

flags_clear :
    (flags : List (String × Option Bool))
    → ((is_empty (unknown_flags flags) && is_empty (rejected_flags flags)) ≡ true)
      ↔ All (λ (flag : String × Option Bool). flag.1 ≡ some false) flags
unfolding unknown_flags rejected_flags
flags_clear [] = ((λ h. tt), λ h. refl)
flags_clear ((name, none) ∷ flags) =
    ((λ h. absurd (ground arith)), λ h. absurd (ground (arith, h.0)))
flags_clear ((name, some true) ∷ flags) =
    ((λ h. absurd (ground arith)), λ h. absurd (ground (arith, h.0)))
flags_clear ((name, some false) ∷ flags) =
    let rest = flags_clear flags in ((λ h. (refl, rest.0 h)), λ h. rest.1 h.1)

taxes_within :
    (buy sell : Option ℕ) (rules : StrategyConfig)
    → (is_empty (tax_reasons buy sell rules) ≡ true) ↔ (
        ((tax : ℕ) × (buy ≡ some tax) × (tax ≤ rules.max_buy_tax_pct))
        × ((tax : ℕ) × (sell ≡ some tax) × (tax ≤ rules.max_sell_tax_pct)))
taxes_within none sell rules =
    ((λ h. absurd (ground arith)), λ ((tax, e, l), s). absurd (ground arith))
taxes_within (some buy) none rules =
    ((λ h. absurd (ground arith)), λ (b, (tax, e, l)). absurd (ground arith))
taxes_within (some buy) (some sell) rules = (
  (λ h. ((buy, refl, ground arith), (sell, refl, ground arith))),
  λ ((b, e, l), (s, f, k)). ground arith,
)

source_open :
    (asked : Bool) (open_source : Option Bool)
    → (not (asked && is_not_true open_source) ≡ true) ↔ (asked ≡ true → open_source ≡ some true)
source_open false open_source = ((λ h e. absurd (ground arith)), λ h. refl)
source_open true none = ((λ h. absurd (ground arith)), λ h. absurd (ground (arith, h refl)))
source_open true (some true) = ((λ h e. refl), λ h. refl)
source_open true (some false) = ((λ h. absurd (ground arith)), λ h. absurd (ground (arith, h refl)))

security_reasons_empty :
    (s : SecuritySnapshot) (rules : StrategyConfig)
    → is_empty (security_reasons s rules) ≡ (
        (is_empty (unknown_flags (required_false s))
          && is_empty (rejected_flags (required_false s)))
        && (not (rules.require_open_source && is_not_true s.is_open_source)
            && is_empty (tax_reasons s.buy_tax_pct s.sell_tax_pct rules)))
unfolding security_reasons
security_reasons_empty s rules = empty_four _ _ _ _ _
  where
    empty_four :
        (a b : List String) (c : Bool) (reason : String) (d : List String)
        → is_empty (a ++ b ++ when c reason ++ d)
          ≡ ((is_empty a && is_empty b) && (not c && is_empty d))
    empty_four a b c reason d = simp (is_empty-append, is_empty-when) (ground arith)

-- The security gate passes exactly when every flag that must be false is known and false, the source is
-- open where that is required, and both taxes are known and within their bounds.
pub security_gate-IsSafe :
    (s : SecuritySnapshot) (rules : StrategyConfig)
    → ((security_gate s rules).passed ≡ true) ↔ IsSafe s rules
unfolding security_gate
security_gate-IsSafe s rules =
    let e = security_reasons_empty s rules in
    let flags = flags_clear (required_false s) in
    let source = source_open rules.require_open_source s.is_open_source in
    let taxes = taxes_within s.buy_tax_pct s.sell_tax_pct rules in
    (
      (λ h.
          let t = taxes.0 (ground (arith, e)) in
          record {
            flags = flags.0 (ground (arith, e));
            source = source.0 (ground (arith, e));
            buy_tax = t.0;
            sell_tax = t.1;
          }),
      (λ f. ground (arith, e, flags.1 f.flags, source.1 f.source, taxes.1 (f.buy_tax, f.sell_tax))),
    )
