-- ===== src/Gate/FreshWave.antt =====
-- When the current wave passes (`assess_current_wave`).
use debot.Base.{
  ℕ, ◌+◌, ◌-◌, ◌≤◌, String, ◌≡◌, refl, Bool, true, false, ◌&&◌, not, List, [], ◌∷◌, Option, none,
  some, arith, is_empty, is_empty-append, is_empty-when, ltb, leb, eq_iff, str_eq, ◌↔◌,
}
use debot.Base.Int.{pos, ltb_ℤ, sub_ℕ}
use debot.Gate.Domain.{TokenRef, is_exact_bsc_token, CurrentWaveInput}
use debot.Gate.Rules.{is_pass}
use debot.Gate.Wave.{
  assess_current_wave, gate_status, wave_rejects, wave_waits, wave_age, normal_group,
  expected_quality, when_any, differs, unsupported,
}

-- The wave is about the token, of a supported group with that group's quality, qualified and secure,
-- in order of time, and its oldest instant is at most the maximum age before the cutoff.
pub record IsFresh (casefold : String → String) (wave : CurrentWaveInput) (token : TokenRef)
    (cutoff maximum_age : ℕ) : Type 0 where
  pub token_ok : is_exact_bsc_token token ≡ true
  pub same_token : wave.token_address ≡ token.address
  pub quality : expected_quality (normal_group casefold wave.group) ≡ some wave.evidence_quality
  pub named : str_eq wave.signal_identity "" ≡ false
  pub provided_first : wave.provider_at ≤ wave.available_at
  pub available_first : wave.available_at ≤ wave.assessed_at
  pub assessed_before : wave.assessed_at ≤ cutoff
  pub no_chain_claim : wave.chain_verified ≡ false
  pub secure : wave.security_passed ≡ true
  pub is_qualified : wave.qualified ≡ true
  pub recent : cutoff ≤ wave.provider_at + maximum_age

pub passes_when_empty :
    (rs ws : List String) → is_pass (gate_status rs ws) ≡ (is_empty rs && is_empty ws)
passes_when_empty [] [] = refl
passes_when_empty [] (w ∷ ws) = refl
passes_when_empty (r ∷ rs) ws = refl

is_empty-when_any :
    (b : Bool) (given : List String) (default : String)
    → is_empty (when_any b given default) ≡ not b
is_empty-when_any true [] default = refl
is_empty-when_any true (x ∷ xs) default = refl
is_empty-when_any false given default = refl

-- In order of time, the provider's age is the greatest.
oldest :
    (wave : CurrentWaveInput) (cutoff maximum_age : ℕ)
    → wave.provider_at ≤ wave.available_at
    → wave.available_at ≤ wave.assessed_at
    → wave.assessed_at ≤ cutoff
    → ltb_ℤ (pos maximum_age) (wave_age wave cutoff) ≡ ltb maximum_age (cutoff - wave.provider_at)
unfolding wave_age
oldest wave cutoff maximum_age p a s =
    let e0 : sub_ℕ cutoff wave.provider_at ≡ pos (cutoff - wave.provider_at) = ground arith in
    let e1 : sub_ℕ cutoff wave.available_at ≡ pos (cutoff - wave.available_at) = ground arith in
    let e2 : sub_ℕ cutoff wave.assessed_at ≡ pos (cutoff - wave.assessed_at) = ground arith in
    let m1 : ltb (cutoff - wave.provider_at + 0) (cutoff - wave.available_at + 0) ≡ false =
      ground arith in
    let m2 : ltb (cutoff - wave.provider_at + 0) (cutoff - wave.assessed_at + 0) ≡ false =
      ground arith in
    simp (e0, e1, e2) (simp (m1, m2) (ground arith))

module _ (casefold : String → String) (wave : CurrentWaveInput) (token : TokenRef)
    (cutoff maximum_age : ℕ) where
  abbrev acceptable : Bool
  acceptable =
      let expected = expected_quality (normal_group casefold wave.group) in
      (is_exact_bsc_token token && str_eq wave.token_address token.address)
      && not (unsupported expected)
      && not (str_eq wave.signal_identity "")
      && (leb wave.provider_at wave.available_at
          && leb wave.available_at wave.assessed_at
          && leb wave.assessed_at cutoff)
      && not wave.chain_verified
      && not (differs expected wave.evidence_quality)
      && wave.security_passed

  rejects-acceptable : is_empty (wave_rejects casefold wave token cutoff) ≡ acceptable
  unfolding wave_rejects
  rejects-acceptable = simp (is_empty-append, is_empty-when, is_empty-when_any) (ground arith)

  waits_lem :
      is_empty (wave_waits casefold wave token cutoff maximum_age)
      ≡ (wave.qualified && not (acceptable && ltb_ℤ (pos maximum_age) (wave_age wave cutoff)))
  unfolding wave_waits
  waits_lem =
      simp (is_empty-append, is_empty-when, is_empty-when_any, rejects-acceptable) (ground arith)

  quality_of :
      (o : Option String)
      → unsupported o ≡ false
      → differs o wave.evidence_quality ≡ false
      → o ≡ some wave.evidence_quality
  quality_of none u d = cc
  quality_of (some q) u d = rw ((eq_iff wave.evidence_quality q).0 (ground arith)) refl

  acceptable_of : IsFresh casefold wave token cutoff maximum_age → acceptable ≡ true
  acceptable_of h =
      let a = h.token_ok in
      let b = (eq_iff wave.token_address token.address).1 h.same_token in
      let c = h.named in
      let p = h.provided_first in
      let q = h.available_first in
      let r = h.assessed_before in
      let d = h.no_chain_claim in
      let e = h.secure in
      simp h.quality (ground (arith, eq_iff wave.evidence_quality wave.evidence_quality))

  -- A wave passes exactly when it is fresh: it is about the token, of a supported group with that
  -- group's quality, names its signal, claims no chain verification, is qualified and secure, its three
  -- instants are in order and not after the cutoff, and the provider's is at most the maximum age old.
  pub passes-IsFresh :
      (is_pass (assess_current_wave casefold (some wave) token cutoff maximum_age).status ≡ true)
      ↔ IsFresh casefold wave token cutoff maximum_age
  unfolding assess_current_wave
  passes-IsFresh =
      let split =
        passes_when_empty (wave_rejects casefold wave token cutoff)
          (wave_waits casefold wave token cutoff maximum_age) in
      (
        λ h. record {
          token_ok = ground (arith, split, rejects-acceptable);
          same_token =
              (eq_iff wave.token_address token.address).0
                (ground (arith, split, rejects-acceptable));
          quality =
              quality_of _ (ground (arith, split, rejects-acceptable))
                (ground (arith, split, rejects-acceptable));
          named = ground (arith, split, rejects-acceptable);
          provided_first = ground (arith, split, rejects-acceptable);
          available_first = ground (arith, split, rejects-acceptable);
          assessed_before = ground (arith, split, rejects-acceptable);
          no_chain_claim = ground (arith, split, rejects-acceptable);
          secure = ground (arith, split, rejects-acceptable);
          is_qualified = ground (arith, split, rejects-acceptable, waits_lem);
          recent =
              ground (arith, split, rejects-acceptable, waits_lem, oldest wave cutoff maximum_age);
        },
        λ h.
            let a = acceptable_of h in
            let q = h.is_qualified in
            let r = h.recent in
            let age =
              oldest wave cutoff maximum_age h.provided_first h.available_first h.assessed_before in
            ground (arith, split, rejects-acceptable, waits_lem),
      )
