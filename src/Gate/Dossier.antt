-- ===== src/Gate/Dossier.antt =====
-- The dossier's constructor checks and effective states (src/debot4/v6/narrative/dossier.py, evidence.py).
use debot.Base.{
  ℕ, String, Bool, true, false, ◌&&◌, ◌||◌, not, List, [], ◌∷◌, ◌++◌, map, Option, none, some,
  Result, ok, value_error, ◌>>◌, guard, if◌then◌else◌, find?, any, every, satisfying, is_empty,
  str_eq, str_mem,
}
use debot.Queue.Identity.{strip}
use debot.Gate.Domain.{
  FindingState, Dimension, Canonicality, EvidenceRole, EvidenceSource, DimensionFinding,
  EvidenceItem, NarrativeDossier, usable_at, is_dimension, is_capital,
}

-- `self.finding(dimension)`
abbrev pub finding : NarrativeDossier → Dimension → Option DimensionFinding
finding dossier dimension = find? (λ item. is_dimension item.dimension dimension) dossier.findings

-- `usable_ids`
unfoldable pub usable_ids : List EvidenceItem → ℕ → List String
usable_ids items as_of =
    map (λ item. item.evidence_id) (satisfying (λ item. usable_at item as_of) items)

-- `available.intersection(refs)` as a truth value
abbrev pub meets : List String → List String → Bool
meets available refs = any (λ ref. str_mem ref available) refs

abbrev pub state_of : FindingState → (supported contradicted : Bool) → FindingState
state_of FindingState.contradicted s c =
    if c then FindingState.contradicted else FindingState.unknown
state_of FindingState.confirmed s c = if s then FindingState.confirmed else FindingState.unknown
state_of FindingState.supported s c = if s then FindingState.supported else FindingState.unknown
state_of state s c = state

abbrev pub found_state : List String → Option DimensionFinding → FindingState
found_state available none = FindingState.unknown
found_state available (some item) =
    state_of item.state (meets available item.supports) (meets available item.contradicts)

-- `effective_state`
unfoldable pub effective_state : NarrativeDossier → Dimension → FindingState
effective_state dossier dimension =
    found_state (usable_ids dossier.evidence dossier.as_of) (finding dossier dimension)

-- `has_capital_confirmation`
unfoldable pub has_capital_confirmation : NarrativeDossier → Bool
has_capital_confirmation dossier =
    any (λ item. usable_at item dossier.as_of && is_capital item.role) dossier.evidence

-- `len({key(item): item}) == len(items)`
abbrev pub are_unique {ℓ} : {A : Type ℓ} → (A → A → Bool) → List A → Bool
are_unique same [] = true
are_unique same (x ∷ xs) = not (any (same x) xs) && are_unique same xs

abbrev pub evidence_by_id : NarrativeDossier → String → Option EvidenceItem
evidence_by_id dossier ref = find? (λ item. str_eq item.evidence_id ref) dossier.evidence

abbrev pub is_primary : EvidenceSource → Bool
is_primary EvidenceSource.primary_actor = true
is_primary _ = false

abbrev pub is_allowed : EvidenceSource → Bool
is_allowed EvidenceSource.primary_actor = true
is_allowed EvidenceSource.official_site = true
is_allowed _ = false

abbrev pub is_debot : EvidenceSource → Bool
is_debot EvidenceSource.debot_feed = true
is_debot _ = false

abbrev pub binds_token : EvidenceRole → Bool
binds_token EvidenceRole.token_binding = true
binds_token _ = false

abbrev pub binds_narrative : EvidenceRole → Bool
binds_narrative EvidenceRole.narrative_binding = true
binds_narrative _ = false

abbrev pub is_cultural : EvidenceRole → Bool
is_cultural EvidenceRole.origin = true
is_cultural EvidenceRole.cultural_context = true
is_cultural _ = false

-- `canonicality in {…} and (canonicality is COMMUNITY_CONSENSUS or state is SUPPORTED)`
abbrev pub community_allows : Canonicality → FindingState → Bool
community_allows Canonicality.community_consensus state = true
community_allows Canonicality.provisional_leader FindingState.supported = true
community_allows _ _ = false

abbrev pub is_creator_bound : List EvidenceItem → Bool
is_creator_bound binding =
    not (is_empty binding)
    && every (λ item. binds_token item.role && item.exact_ca && is_allowed item.source) binding

abbrev pub is_community_bound : Canonicality → FindingState → List EvidenceItem → Bool
is_community_bound canonicality state binding =
    community_allows canonicality state
    && any (λ item. binds_narrative item.role && is_debot item.source && item.exact_ca) binding
    && any (λ item. is_primary item.source && is_cultural item.role) binding

-- `finding.dimension is LEGITIMACY and finding.state in {CONFIRMED, SUPPORTED}`
abbrev pub claims_legitimacy : Dimension → FindingState → Bool
claims_legitimacy Dimension.legitimacy FindingState.confirmed = true
claims_legitimacy Dimension.legitimacy FindingState.supported = true
claims_legitimacy _ _ = false

-- `tuple(evidence_by_id[ref] for ref in refs)`; every reference is known here
abbrev pub cited : NarrativeDossier → List String → List EvidenceItem
cited dossier [] = []
cited dossier (ref ∷ refs) =
    let rest = cited dossier refs in
    elim (evidence_by_id dossier ref) [ none ↦ rest | some item ↦ item ∷ rest ]

abbrev pub is_known : NarrativeDossier → String → Bool
is_known dossier ref = any (λ item. str_eq item.evidence_id ref) dossier.evidence

unfoldable pub check_finding : NarrativeDossier → DimensionFinding → Result (Unit {0})
check_finding dossier item = do
  guard (every (is_known dossier) (item.supports ++ item.contradicts)) value_error
  guard (not (any (λ e. is_capital e.role) (cited dossier (item.supports ++ item.contradicts))))
      value_error
  guard
      (not (claims_legitimacy item.dimension item.state)
        || is_creator_bound (cited dossier item.supports)
        || is_community_bound dossier.canonicality item.state (cited dossier item.supports))
      value_error

unfoldable pub check_findings : NarrativeDossier → List DimensionFinding → Result (Unit {0})
check_findings dossier [] = ok tt
check_findings dossier (item ∷ items) = do check_finding dossier item; check_findings dossier items

-- `NarrativeDossier.__post_init__`: the dossier that the constructor returns
unfoldable pub make_dossier : NarrativeDossier → Result NarrativeDossier
unfolding check_findings
make_dossier dossier = do
  guard (not (str_eq (strip dossier.thesis) "")) value_error
  guard (are_unique (λ a b. str_eq a.evidence_id b.evidence_id) dossier.evidence) value_error
  guard (are_unique (λ a b. is_dimension a.dimension b.dimension) dossier.findings) value_error
  guard
      (every
        (λ item. str_eq item.token_address "" || str_eq item.token_address dossier.token.address)
        dossier.evidence)
      value_error
  check_findings dossier dossier.findings
  ok dossier
