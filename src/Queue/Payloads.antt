-- ===== src/Queue/Payloads.antt =====
-- The inputs of a job and their dictionaries (src/debot4/v6/narrative/job_payloads.py,
-- market_job_payload.py), which make a codec of the queue. JSON values, `canonical_json`, SHA-256, the ISO
-- text of an instant, `format(…, "f")` of a decimal and `decode_job_input` are parameters.
use debot.Base.{ℕ, String, Bool, List, [], ◌∷◌, map, Option, none, some, Result, str_append}
use debot.Queue.Codec.{Codec, InputClass, x_post, telegram_post, debot_signal, market_anomaly}
use debot.Market.Anomaly.{MarketAnomaly}

pub record XPost : Type 0 where
  pub tweet_id : String
  pub author : String
  pub text : String
  pub created_at : ℕ
  pub fetched_at : ℕ
  pub post_type : String
  pub target_author : String
  pub target_text : String
  pub urls : List String
  pub bsc_contracts : List String

pub record TelegramPost : Type 0 where
  pub channel : String
  pub message_id : ℕ
  pub text : String
  pub created_at : ℕ
  pub fetched_at : ℕ
  pub urls : List String
  pub bsc_contracts : List String
  pub has_media : Bool

pub record WalletTrade : Type 0 where
  pub alias : String
  pub wallet : Option String
  pub traded_at : ℕ
  pub volume_usd : ℕ
  pub token_amount : ℕ

-- A DeBot signal; its two mappings are JSON values.
pub record DeBotInput (Json : Type 0) : Type 0 where
  pub signal_id : String
  pub token_address : String
  pub signal_kind : String
  pub group_name : String
  pub event_at : ℕ
  pub available_at : ℕ
  pub channel_id : String
  pub pair_address : Option String
  pub dex_name : Option String
  pub token_name : Option String
  pub token_symbol : Option String
  pub token_decimals : Option ℕ
  pub total_supply : Option ℕ
  pub created_at : Option ℕ
  pub provider_fdv_usd : Option ℕ
  pub provider_liquidity_usd : Option ℕ
  pub narrative_urls : List String
  pub description : Option String
  pub wallet_trades : List WalletTrade
  pub kol_buy_qualified : Bool
  pub kol_buy_reason : String
  pub security_hint : Json
  pub raw_context : Json

-- `NarrativeJobInput`
pub data JobInput (Json : Type 0) : Type 0 where
  x_input : XPost → JobInput Json
  telegram_input : TelegramPost → JobInput Json
  signal_input : DeBotInput Json → JobInput Json
  anomaly_input : MarketAnomaly → JobInput Json

-- The JSON values and texts of Python's library.
pub record Texts : Type 1 where
  pub Json : Type 0
  pub null : Json
  pub text : String → Json
  pub number : ℕ → Json
  pub flag : Bool → Json
  pub array : List Json → Json
  pub object : List (String × Json) → Json
  pub canonical_json : List (String × Json) → String
  pub sha256 : String → String
  pub iso : ℕ → String
  pub decimal : ℕ → String
  pub digits : ℕ → String

module _ (texts : Texts) where
  open texts use {
    Json, null, text, number, flag, array, object, canonical_json, sha256, iso, decimal, digits,
  }

  abbrev pub or_null {ℓ} : {A : Type ℓ} → (A → Json) → Option A → Json
  or_null encode none = null
  or_null encode (some value) = encode value

  -- `_x_post_payload`
  abbrev pub x_post_payload : XPost → List (String × Json)
  x_post_payload post =
      ("tweet_id", text post.tweet_id)
      ∷ ("author", text post.author)
      ∷ ("text", text post.text)
      ∷ ("created_at", text (iso post.created_at))
      ∷ ("fetched_at", text (iso post.fetched_at))
      ∷ ("post_type", text post.post_type)
      ∷ ("target_author", text post.target_author)
      ∷ ("target_text", text post.target_text)
      ∷ ("urls", array (map text post.urls))
      ∷ ("bsc_contracts", array (map text post.bsc_contracts))
      ∷ []

  -- `_telegram_post_payload`
  abbrev pub telegram_post_payload : TelegramPost → List (String × Json)
  telegram_post_payload post =
      ("channel", text post.channel)
      ∷ ("message_id", number post.message_id)
      ∷ ("text", text post.text)
      ∷ ("created_at", text (iso post.created_at))
      ∷ ("fetched_at", text (iso post.fetched_at))
      ∷ ("urls", array (map text post.urls))
      ∷ ("bsc_contracts", array (map text post.bsc_contracts))
      ∷ ("has_media", flag post.has_media)
      ∷ []

  -- `_wallet_payload`
  abbrev pub wallet_payload : WalletTrade → Json
  wallet_payload item = object (
      ("alias", text item.alias)
      ∷ ("wallet", or_null text item.wallet)
      ∷ ("traded_at", text (iso item.traded_at))
      ∷ ("volume_usd", text (decimal item.volume_usd))
      ∷ ("token_amount", text (decimal item.token_amount))
      ∷ [])

  abbrev pub decimal_json : ℕ → Json
  decimal_json amount = text (decimal amount)

  abbrev pub instant_json : ℕ → Json
  instant_json at = text (iso at)

  -- `_debot_signal_payload`
  abbrev pub debot_signal_payload : DeBotInput Json → List (String × Json)
  debot_signal_payload signal =
      ("signal_id", text signal.signal_id)
      ∷ ("token_address", text signal.token_address)
      ∷ ("signal_kind", text signal.signal_kind)
      ∷ ("group_name", text signal.group_name)
      ∷ ("event_at", text (iso signal.event_at))
      ∷ ("available_at", text (iso signal.available_at))
      ∷ ("channel_id", text signal.channel_id)
      ∷ ("pair_address", or_null text signal.pair_address)
      ∷ ("dex_name", or_null text signal.dex_name)
      ∷ ("token_name", or_null text signal.token_name)
      ∷ ("token_symbol", or_null text signal.token_symbol)
      ∷ ("token_decimals", or_null number signal.token_decimals)
      ∷ ("total_supply", or_null decimal_json signal.total_supply)
      ∷ ("created_at", or_null instant_json signal.created_at)
      ∷ ("provider_fdv_usd", or_null decimal_json signal.provider_fdv_usd)
      ∷ ("provider_liquidity_usd", or_null decimal_json signal.provider_liquidity_usd)
      ∷ ("narrative_urls", array (map text signal.narrative_urls))
      ∷ ("description", or_null text signal.description)
      ∷ ("wallet_trades", array (map wallet_payload signal.wallet_trades))
      ∷ ("kol_buy_qualified", flag signal.kol_buy_qualified)
      ∷ ("kol_buy_reason", text signal.kol_buy_reason)
      ∷ ("security_hint", signal.security_hint)
      ∷ ("raw_context", signal.raw_context)
      ∷ []

  -- `market_payload`
  abbrev pub market_payload : MarketAnomaly → List (String × Json)
  market_payload value =
      ("anomaly_id", text value.anomaly_id)
      ∷ ("exact_ca", text value.exact_ca)
      ∷ ("observed_at", text (iso value.observed_at))
      ∷ ("symbol", text value.symbol)
      ∷ ("name", text value.name)
      ∷ ("h1_change_pct", text (decimal value.h1_change_pct))
      ∷ ("liquidity_usd", text (decimal value.liquidity_usd))
      ∷ ("valuation_usd", text (decimal value.valuation_usd))
      ∷ ("volume_h1_usd", text (decimal value.volume_h1_usd))
      ∷ ("txns_h1", number value.txns_h1)
      ∷ ("stage_pct", text (decimal value.stage_pct))
      ∷ ("source", text value.source)
      ∷ ("source_url", text value.source_url)
      ∷ []

  abbrev pub input_class : JobInput Json → InputClass
  input_class (x_input post) = x_post
  input_class (telegram_input post) = telegram_post
  input_class (signal_input signal) = debot_signal
  input_class (anomaly_input anomaly) = market_anomaly

  abbrev pub input_source : JobInput Json → String
  input_source (x_input post) = post.tweet_id
  input_source (telegram_input post) =
      str_append "telegram:" (str_append post.channel (str_append ":" (digits post.message_id)))
  input_source (signal_input signal) = signal.signal_id
  input_source (anomaly_input anomaly) = anomaly.anomaly_id

  abbrev pub input_payload : JobInput Json → List (String × Json)
  input_payload (x_input post) = x_post_payload post
  input_payload (telegram_input post) = telegram_post_payload post
  input_payload (signal_input signal) = debot_signal_payload signal
  input_payload (anomaly_input anomaly) = market_payload anomaly

  -- The codec of job_payloads.py, over a `decode_job_input`.
  abbrev pub job_codec : (String → Result (String × JobInput Json)) → Codec
  job_codec decode = record {
    Payload = JobInput Json;
    Json = Json;
    class_of = input_class;
    source_id = input_source;
    payload_of = input_payload;
    text = text;
    object = object;
    canonical_json = canonical_json;
    sha256 = sha256;
    decode = decode;
  }
