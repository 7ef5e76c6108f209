-- ===== src/Market/Stages.antt =====
-- The highest stage that a change reaches (`max(…)` in `_qualify`, src/debot4/v6/narrative/market_signal.py).
use debot.Base.{
  ℕ, ◌≤◌, ◌<◌, ◌≡◌, ◌⊎◌, inl, inr, refl, subst, List, [], ◌∷◌, Result, ok, err, max, arith, leb,
  All, All-implies, Bool-cases,
}
use mathlib.Core.List.{Memᴰ}
use debot.Market.Selection.{top_stage, larger}

-- The highest stage that the change reaches.
pub record IsTopStage (change : ℕ) (stages : List ℕ) (stage : ℕ) : Type 0 where
  pub listed : Memᴰ stage stages
  pub reached : stage ≤ change
  pub highest : All (λ other. (other ≤ stage) ⊎ (change < other)) stages

-- What a search for the highest stage ends with.
unfoldable StageFound : (change : ℕ) (stages : List ℕ) → Result ℕ → Type 0
StageFound change stages (ok stage) = IsTopStage change stages stage
StageFound change stages (err error) = All (λ other. change < other) stages

larger-IsTopStage :
    (change x : ℕ) (stages : List ℕ) (found : Result ℕ)
    → x ≤ change
    → StageFound change stages found
    → IsTopStage change (x ∷ stages) (larger x found)
unfolding StageFound
larger-IsTopStage change x stages (err error) h miss = record {
  listed = Memᴰ.head refl;
  reached = h;
  highest = (inl (omega arith), All-implies (λ other above. inr above) stages miss);
}
larger-IsTopStage change x stages (ok stage) h top = elim (Bool-cases (leb stage x)) [
  | inl first ↦
      let e : x ≡ max x stage = ground arith in
      subst (IsTopStage change (x ∷ stages)) e (record {
        listed = Memᴰ.head refl;
        reached = h;
        highest = (
          inl (omega arith),
          All-implies (λ other below. ground (arith, below, first)) stages top.highest,
        );
      })
  | inr second ↦
      let e : stage ≡ max x stage = ground arith in
      subst (IsTopStage change (x ∷ stages)) e (record {
        listed = Memᴰ.tail top.listed;
        reached = top.reached;
        highest = (inl (ground arith), top.highest);
      })
]

top_stage-StageFound :
    (change : ℕ) (stages : List ℕ) → StageFound change stages (top_stage change stages)
unfolding StageFound
top_stage-StageFound change [] = tt
top_stage-StageFound change (x ∷ xs) = elim (Bool-cases (leb x change)) [
  | inl reached ↦ rw reached (
      larger-IsTopStage change x xs (top_stage change xs) (ground (arith, reached))
        (top_stage-StageFound change xs))
  | inr above ↦
      rw above
        (skipped (top_stage change xs) (ground (arith, above)) (top_stage-StageFound change xs))
]
  where
    skipped :
        (found : Result ℕ)
        → change < x
        → StageFound change xs found
        → StageFound change (x ∷ xs) found
    skipped (err error) h miss = (h, miss)
    skipped (ok stage) h top = record {
      listed = Memᴰ.tail top.listed;
      reached = top.reached;
      highest = (inr h, top.highest);
    }

pub top_stage-IsTopStage :
    (change : ℕ) (stages : List ℕ) (stage : ℕ)
    → top_stage change stages ≡ ok stage
    → IsTopStage change stages stage
unfolding StageFound
top_stage-IsTopStage change stages stage h =
    subst (StageFound change stages) h (top_stage-StageFound change stages)
