-- ===== src/Market/Anomaly.antt =====
-- A ranked board and the anomaly that is made of its row: `MarketAnomaly.__post_init__`
-- (src/debot4/v6/narrative/market_signal.py), with Gainer and Board of dex_audit/models.py and bsc_address
-- of identity.py. Percentages are natural numbers of one scale, as are amounts; `str.lower`, `stable_id`,
-- the text of a day and that of a decimal are parameters.
use debot.Base.{
  ℕ, zero, suc, String, Bool, ◌&&◌, not, List, [], ◌∷◌, Option, none, some, Result, ok, err, guard,
  ◌>>=◌, ◌>>◌, value_error, if◌then◌else◌, leb, ltb, codes, str_eq,
}
use debot.Queue.Identity.{strip}
use debot.Entry.Models.{is_hex_text, any_hex}

pub record MarketText : Type 0 where
  pub lower : String → String
  pub stable_id : String → List String → String
  pub iso_day : ℕ → String
  pub decimal : ℕ → String

-- The fields of a ranked token that the gate reads.
pub record Gainer : Type 0 where
  pub token_address : String
  pub symbol : String
  pub name : String
  pub h1_change_pct : ℕ
  pub liquidity_usd : Option ℕ
  pub fdv_usd : Option ℕ
  pub market_cap_usd : Option ℕ
  pub volume_h1_usd : Option ℕ
  pub txns_h1 : Option ℕ

pub record Board : Type 0 where
  pub as_of_us : ℕ
  pub board_source : String
  pub board_url : String
  pub ranking_exact : Bool
  pub rows : List Gainer

pub record MarketAnomaly : Type 0 where
  pub exact_ca : String
  pub observed_at : ℕ
  pub symbol : String
  pub name : String
  pub h1_change_pct : ℕ
  pub liquidity_usd : ℕ
  pub valuation_usd : ℕ
  pub volume_h1_usd : ℕ
  pub txns_h1 : ℕ
  pub stage_pct : ℕ
  pub source : String
  pub source_url : String
  pub anomaly_id : String

-- `text[:count]`
abbrev pub str_take : ℕ → String → String
str_take zero s = String.[]
str_take (suc n) String.[] = String.[]
str_take (suc n) (String.◌∷◌ c s) = String.◌∷◌ c (str_take n s)

abbrev pub value_of : Option ℕ → ℕ
value_of none = 0
value_of (some value) = value

module _ (text : MarketText) where
  open text use {lower, stable_id, iso_day, decimal}

  unfoldable pub bsc_address : String → Result String
  bsc_address value =
      if is_hex_text any_hex 40 (codes (strip value))
      then ok (lower (strip value))
      else err value_error

  -- `source`, and `source_url`, of the anomaly
  abbrev pub clean_source : Board → String
  clean_source board = str_take 80 (strip board.board_source)

  abbrev pub clean_url : Board → String
  clean_url board = str_take 500 (strip board.board_url)

  -- The fields of the anomaly, with the address in its canonical form.
  abbrev pub anomaly_of :
      (row : Gainer) (valuation stage : ℕ) (board : Board) (exact_ca : String) → MarketAnomaly
  anomaly_of row valuation stage board exact_ca = record {
    exact_ca = exact_ca;
    observed_at = board.as_of_us;
    symbol = str_take 80 (strip row.symbol);
    name = str_take 160 (strip row.name);
    h1_change_pct = row.h1_change_pct;
    liquidity_usd = value_of row.liquidity_usd;
    valuation_usd = valuation;
    volume_h1_usd = value_of row.volume_h1_usd;
    txns_h1 = value_of row.txns_h1;
    stage_pct = stage;
    source = clean_source board;
    source_url = clean_url board;
    anomaly_id =
        stable_id "market-anomaly"
          (clean_source board ∷ exact_ca ∷ iso_day board.as_of_us ∷ decimal stage ∷ []);
  }

  -- `MarketAnomaly.__post_init__`
  unfoldable pub market_anomaly :
      (row : Gainer) (valuation stage : ℕ) (board : Board) → Result MarketAnomaly
  unfolding bsc_address
  market_anomaly row valuation stage board = do
    exact_ca ← bsc_address row.token_address
    guard (ltb 0 stage && leb stage row.h1_change_pct) value_error
    guard (not (str_eq (clean_source board) "") && not (str_eq (clean_url board) "")) value_error
    ok (anomaly_of row valuation stage board exact_ca)
