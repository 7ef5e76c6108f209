-- ===== src/Gate/Evidence.antt =====
-- The constructors of tokens, findings and evidence (src/debot4/v6/narrative/domain.py, evidence.py), and
-- the evidence that an effective state rests on. `str.lower` is a parameter.
use mathlib.Core.List.{Memᴰ}
use debot.Base.{
  ℕ, String, ◌≡◌, refl, Bool, true, false, ◌&&◌, ◌||◌, not, List, [], ◌∷◌, Option, none, some,
  arith, Result, ok, value_error, ◌>>◌, guard, ltb, is_empty, str_eq, str_mem, Bool-cases, inl, inr,
}
use debot.Queue.Identity.{strip}
use debot.Entry.Models.{is_bsc_address}
use debot.Gate.Domain.{
  TokenRef, DimensionFinding, EvidenceItem, EvidenceRole, FindingState, NarrativeDossier, Dimension,
  usable_at,
}
use debot.Gate.Dossier.{
  is_debot, binds_token, binds_narrative, effective_state, usable_ids, found_state, meets, state_of,
  finding,
}
use debot.Gate.Readiness.{is_supported, is_contradicted}

-- `TokenRef.__post_init__`
unfoldable pub make_token : (String → String) → String → String → Result TokenRef
make_token lower chain address = do
  guard (str_eq (lower (strip chain)) "bsc" && is_bsc_address (lower (strip address))) value_error
  ok (record { chain = lower (strip chain); address = lower (strip address) })

-- `DimensionFinding.__post_init__`, for the text `text`
unfoldable pub make_finding : String → DimensionFinding → Result DimensionFinding
make_finding text item = do
  guard (not (str_eq (strip text) "")) value_error
  guard (not (is_supported item.state && is_empty item.supports)) value_error
  guard (not (is_contradicted item.state && is_empty item.contradicts)) value_error
  ok item

-- `role in {ORIGIN, TOKEN_BINDING}`
abbrev pub is_proof : EvidenceRole → Bool
is_proof EvidenceRole.origin = true
is_proof EvidenceRole.token_binding = true
is_proof _ = false

abbrev pub names_token : EvidenceItem → Bool
names_token item = item.exact_ca && not (str_eq item.token_address "")

-- `EvidenceItem.__post_init__`, for the claim `claim`
unfoldable pub make_evidence : (String → String) → String → EvidenceItem → Result EvidenceItem
make_evidence lower claim given =
    let item = record given { token_address = lower (strip given.token_address) } in
    do
      guard (not (str_eq (strip item.evidence_id) "" || str_eq (strip claim) "")) value_error
      guard (not (ltb item.first_seen_at item.published_at)) value_error
      guard (not (ltb item.captured_at item.first_seen_at)) value_error
      guard (not (is_debot item.source && is_proof item.role)) value_error
      guard (not (is_debot item.source && not (names_token item))) value_error
      guard (not (binds_token item.role && not (names_token item))) value_error
      guard (not (binds_narrative item.role && not (names_token item))) value_error
      ok item

-- An item of the evidence that is usable at the cutoff.
abbrev pub Usable : List EvidenceItem → ℕ → String → Type 0
Usable items as_of ref =
    (item : EvidenceItem) × Memᴰ item items
    × (str_eq item.evidence_id ref ≡ true)
    × (usable_at item as_of ≡ true)

usable_ids-Usable :
    (items : List EvidenceItem) (as_of : ℕ) (ref : String)
    → str_mem ref (usable_ids items as_of) ≡ true
    → Usable items as_of ref
unfolding usable_ids
usable_ids-Usable [] as_of ref h = cc
usable_ids-Usable (item ∷ items) as_of ref h = elim (Bool-cases (usable_at item as_of)) [
  | inl met ↦ elim (Bool-cases (str_eq item.evidence_id ref)) [
    | inl same ↦ (item, Memᴰ.head refl, same, met)
    | inr other ↦
        let (found, m, same, fit) = usable_ids-Usable items as_of ref (simp (met, other) at h) in
        (found, Memᴰ.tail m, same, fit)
  ]
  | inr unmet ↦
      let (found, m, same, fit) = usable_ids-Usable items as_of ref (simp unmet at h) in
      (found, Memᴰ.tail m, same, fit)
]

meets-Usable :
    (items : List EvidenceItem) (as_of : ℕ) (refs : List String)
    → meets (usable_ids items as_of) refs ≡ true
    → (ref : String) × Memᴰ ref refs × Usable items as_of ref
meets-Usable items as_of [] h = cc
meets-Usable items as_of (ref ∷ refs) h = elim (Bool-cases (str_mem ref (usable_ids items as_of))) [
  | inl met ↦ (ref, Memᴰ.head refl, usable_ids-Usable items as_of ref met)
  | inr unmet ↦
      let (found, m, u) = meets-Usable items as_of refs (simp unmet at h) in (found, Memᴰ.tail m, u)
]

state_of-met :
    (state : FindingState) (s c : Bool) → is_supported (state_of state s c) ≡ true → s ≡ true
state_of-met state s c h = ground arith

supported_by :
    (available : List String) (o : Option DimensionFinding)
    → is_supported (found_state available o) ≡ true
    → (item : DimensionFinding) × (o ≡ some item) × (meets available item.supports ≡ true)
supported_by available none h = cc
supported_by available (some item) h = (item, refl, state_of-met item.state _ _ h)

-- A dimension that counts as supported or confirmed at the dossier's cutoff has a finding that cites an
-- item of the dossier's evidence which was published, first seen and captured by the cutoff and is not
-- for postmortems only.
pub supported-Usable :
    (dossier : NarrativeDossier) (dimension : Dimension)
    → is_supported (effective_state dossier dimension) ≡ true
    → (item : DimensionFinding) × (finding dossier dimension ≡ some item)
      × ((ref : String) × Memᴰ ref item.supports × Usable dossier.evidence dossier.as_of ref)
unfolding effective_state
supported-Usable dossier dimension h =
    let (item, has, met) =
      supported_by (usable_ids dossier.evidence dossier.as_of) (finding dossier dimension) h in
    (item, has, meets-Usable dossier.evidence dossier.as_of item.supports met)
