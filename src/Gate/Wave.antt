-- ===== src/Gate/Wave.antt =====
-- `assess_current_wave` (src/debot4/v6/narrative/current_wave.py). `str.casefold` is a parameter: it is
-- a table of Unicode. The fields are of the types that the record declares, so that
-- `current_wave_boolean_contract_invalid` cannot arise.
use Prim.Native.Char.{code}
use debot.Base.{
  ℕ, String, Bool, true, false, ◌&&◌, not, List, [], ◌∷◌, ◌++◌, Option, none, some, leb, ◌==◌,
  if◌then◌else◌, is_empty, str_eq, when, or_else, unique,
}
use debot.Base.Int.{ℤ, pos, sub_ℕ, ltb_ℤ}
use debot.Gate.Domain.{
  GateStatus, TokenRef, is_exact_bsc_token, CurrentWaveInput, CurrentWaveAssessment,
}

-- `group.split("#", 1)[0]`
before_hash : String → String
before_hash String.[] = String.[]
before_hash (String.◌∷◌ c s) =
    let rest = before_hash s in if code c == b'#' then String.[] else String.◌∷◌ c rest

-- `.replace(c, "")` for the one character `gone`
without : ℕ → String → String
without gone String.[] = String.[]
without gone (String.◌∷◌ c s) =
    let rest = without gone s in if code c == gone then rest else String.◌∷◌ c rest

unfoldable pub normal_group : (String → String) → String → String
unfolding before_hash without
normal_group casefold group = casefold (without b' ' (without b'_' (before_hash group)))

-- `_QUALITY.get(group)`
unfoldable pub expected_quality : String → Option String
expected_quality group =
    if str_eq group "kol"
    then some "provider_ui_asserted"
    else if str_eq group "smartmoney"
    then some "provider_aggregate_asserted"
    else none

abbrev pub unsupported : Option String → Bool
unsupported none = true
unsupported (some _) = false

abbrev pub differs : Option String → String → Bool
differs none quality = false
differs (some expected) quality = not (str_eq quality expected)

abbrev pub in_time_order : CurrentWaveInput → ℕ → Bool
in_time_order wave cutoff =
    leb wave.provider_at wave.available_at
    && leb wave.available_at wave.assessed_at
    && leb wave.assessed_at cutoff

-- `if test: reasons.extend(given or (default,))`
abbrev pub when_any : Bool → List String → String → List String
when_any true given default = or_else given (default ∷ [])
when_any false given default = []

unfoldable pub wave_rejects : (String → String) → CurrentWaveInput → TokenRef → ℕ → List String
wave_rejects casefold wave token cutoff =
    let expected = expected_quality (normal_group casefold wave.group) in
    when (not (is_exact_bsc_token token && str_eq wave.token_address token.address))
      "current_wave_token_mismatch"
    ++ when (unsupported expected) "current_wave_group_unsupported"
    ++ when (str_eq wave.signal_identity "") "current_wave_identity_missing"
    ++ when (not (in_time_order wave cutoff)) "current_wave_time_order_invalid"
    ++ when wave.chain_verified "provider_wave_false_chain_verification_claim"
    ++ when (differs expected wave.evidence_quality) "current_wave_evidence_quality_invalid"
    ++ when_any (not wave.security_passed) wave.reasons "current_wave_security_rejected"

abbrev pub max_ℤ : ℤ → ℤ → ℤ
max_ℤ a b = if ltb_ℤ a b then b else a

-- the greatest of the three ages
unfoldable pub wave_age : CurrentWaveInput → ℕ → ℤ
wave_age wave cutoff =
    max_ℤ (max_ℤ (sub_ℕ cutoff wave.provider_at) (sub_ℕ cutoff wave.available_at))
      (sub_ℕ cutoff wave.assessed_at)

unfoldable pub wave_waits : (String → String) → CurrentWaveInput → TokenRef → ℕ → ℕ → List String
wave_waits casefold wave token cutoff maximum_age =
    when_any (not wave.qualified) wave.reasons "current_wave_not_qualified"
    ++ when
        (is_empty (wave_rejects casefold wave token cutoff)
          && ltb_ℤ (pos maximum_age) (wave_age wave cutoff))
        "current_debot_wave_stale"

-- REJECT if rejects else WAIT if waits else PASS
abbrev pub gate_status : List String → List String → GateStatus
gate_status [] [] = GateStatus.pass
gate_status [] (w ∷ ws) = GateStatus.wait
gate_status (r ∷ rs) ws = GateStatus.reject

unfoldable pub assess_current_wave :
    (String → String) → Option CurrentWaveInput → TokenRef → ℕ → ℕ → CurrentWaveAssessment
assess_current_wave casefold none token cutoff maximum_age = record {
  status = GateStatus.wait;
  reasons = "current_debot_wave_missing" ∷ [];
  wave = none;
  age = none;
  maximum_age = maximum_age;
}
assess_current_wave casefold (some wave) token cutoff maximum_age =
    let rejects = wave_rejects casefold wave token cutoff in
    let waits = wave_waits casefold wave token cutoff maximum_age in
    record {
      status = gate_status rejects waits;
      reasons = unique (or_else rejects (or_else waits ("current_debot_wave_fresh" ∷ [])));
      wave = some wave;
      age = some (wave_age wave cutoff);
      maximum_age = maximum_age;
    }
