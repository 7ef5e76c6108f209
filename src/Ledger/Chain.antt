-- ===== src/Ledger/Chain.antt =====
-- The walk to the entry block (`_canonical_path`) ends, and the path that it returns is a chain.
use debot.Base.{
  ℕ, zero, suc, ◌+◌, ◌≤◌, ◌<◌, String, ◌≡◌, refl, sym, true, false, List, [], ◌∷◌, Option, none,
  some, arith, ltb, ◌==◌, ==_iff, str_eq, eq_iff, str_mem, Bool-cases, inl, inr, All,
}
use debot.Ledger.Outcomes.{
  BlockObservation, SimulatedBuy, ChainPath, incomplete, invalidated, canonical, unfinished,
  by_hash, path_goes_back, goes_back, reach_entry, go_parent, descend, visible, start_at,
  canonical_path, Peak, raise_peak, peak_of,
}

module _ (buy : SimulatedBuy) (observed : List BlockObservation) where
  -- each block is found by the parent hash of the next, one below it
  abbrev pub AreLinked : List BlockObservation → Type 0
  AreLinked [] = Unit
  AreLinked (o ∷ []) = Unit
  AreLinked (o ∷ p ∷ os) =
      (p.block_number ≡ o.block_number + 1)
      × (by_hash observed p.parent_hash ≡ some o)
      × AreLinked (p ∷ os)

  -- The path starts at the buy's own block, is linked to its end, and its instants never go back.
  abbrev pub StartsAtEntry : List BlockObservation → Type 0
  StartsAtEntry [] = ⊥
  StartsAtEntry (o ∷ os) = (o.block_number ≡ buy.block_number) × (o.block_hash ≡ buy.block_hash)

  abbrev pub IsCanonical : List BlockObservation → Type 0
  IsCanonical path = StartsAtEntry path × AreLinked path × (path_goes_back path ≡ false)

  -- A result that is no endless loop, and whose path is canonical if it has one.
  abbrev pub IsSettled : ChainPath → Type 0
  IsSettled (incomplete reason) = Unit
  IsSettled (invalidated reason) = Unit
  IsSettled (canonical path) = IsCanonical path
  IsSettled unfinished = ⊥

  reach_entry-IsSettled :
      (current : BlockObservation) (path : List BlockObservation)
      → (current.block_number == buy.block_number) ≡ true
      → AreLinked (current ∷ path)
      → IsSettled (reach_entry buy current (current ∷ path))
  reach_entry-IsSettled current path at linked =
      elim (Bool-cases (str_eq current.block_hash buy.block_hash)) [
        | inr other ↦ simp other tt
        | inl same ↦ elim (Bool-cases (goes_back current.observed_at path)) [
          | inl back ↦ simp (same, back) tt
          | inr forth ↦
              rw (same, forth)
                (
                  (
                    (==_iff current.block_number buy.block_number).0 at,
                    (eq_iff current.block_hash buy.block_hash).0 same,
                  ),
                  linked,
                  forth,
                )
        ]
      ]

  go_parent-IsSettled :
      (current : BlockObservation) (path : List BlockObservation) (o : Option BlockObservation)
      → by_hash observed current.parent_hash ≡ o
      → (next : BlockObservation → ChainPath) → AreLinked (current ∷ path)
      → ((p : BlockObservation)
          → p.block_number + 1 ≡ current.block_number
          → AreLinked (p ∷ current ∷ path)
          → IsSettled (next p))
      → IsSettled (go_parent current o next)
  go_parent-IsSettled current path none e next linked h = tt
  go_parent-IsSettled current path (some p) e next linked h =
      elim (Bool-cases (p.block_number + 1 == current.block_number)) [
        | inr gap ↦ simp gap tt
        | inl down ↦
            let one : p.block_number + 1 ≡ current.block_number =
              (==_iff (p.block_number + 1) current.block_number).0 down in
            rw down (h p one (sym one, e, linked))
      ]

  -- Fuel above the block's number is enough, as each parent's number is one less.
  descend-IsSettled :
      (fuel : ℕ) (seen : List String) (path : List BlockObservation) (current : BlockObservation)
      → current.block_number < fuel
      → AreLinked (current ∷ path)
      → IsSettled (descend buy observed fuel seen path current)
  unfolding descend
  descend-IsSettled zero seen path current lt linked = absurd (omega (arith, lt))
  descend-IsSettled (suc fuel) seen path current lt linked =
      elim (Bool-cases (str_mem current.block_hash seen)) [
        | inl twice ↦ simp twice tt
        | inr once ↦ elim (Bool-cases (ltb current.block_number buy.block_number)) [
          | inl below ↦ rw (once, below) tt
          | inr above ↦ elim (Bool-cases (current.block_number == buy.block_number)) [
            | inl at ↦ rw (once, above, at) (reach_entry-IsSettled current path at linked)
            | inr beyond ↦
                rw (once, above, beyond)
                  (go_parent-IsSettled current path _ refl _ linked (λ p one l.
                    descend-IsSettled fuel (current.block_hash ∷ seen) (current ∷ path) p
                      (omega (arith, lt, one)) l))
          ]
        ]
      ]

  start-IsSettled : (head : Option BlockObservation) → IsSettled (start_at buy observed head)
  start-IsSettled none = tt
  start-IsSettled (some head) =
      descend-IsSettled (head.block_number + 1) [] [] head (omega arith) tt

-- The walk always ends with a verdict on the chain, whatever the rows say, and a path that it returns
-- starts at the block of the buy with that block's hash, is linked by parent hashes through consecutive
-- numbers among the rows that are visible at the cutoff, and never goes back in time.
pub canonical_path-IsSettled :
    (buy : SimulatedBuy) (head_hash : Option String) (observations : List BlockObservation)
    (cutoff : ℕ)
    → IsSettled buy (visible cutoff observations) (canonical_path buy head_hash observations cutoff)
unfolding canonical_path
canonical_path-IsSettled buy none observations cutoff = tt
canonical_path-IsSettled buy (some hash) observations cutoff =
    start-IsSettled buy (visible cutoff observations) (by_hash (visible cutoff observations) hash)

-- The peak of the hour is at least the starting one and each observation's.
pub peak-greatest :
    (peak : Peak) (path : List BlockObservation)
    → (peak.fdv ≤ (peak_of peak path).fdv) × All (λ o. o.fdv_usd ≤ (peak_of peak path).fdv) path
unfolding peak_of
peak-greatest peak [] = (omega arith, tt)
peak-greatest peak (o ∷ os) =
    let (above, rest) = peak-greatest (raise_peak peak o) os in
    let step : (peak.fdv ≤ (raise_peak peak o).fdv) × (o.fdv_usd ≤ (raise_peak peak o).fdv) =
      elim (Bool-cases (ltb peak.fdv o.fdv_usd)) [
        | inl up ↦ rw up (ground arith, ground arith)
        | inr down ↦ rw down (ground arith, ground arith)
      ] in
    (omega (arith, above, step.0), (omega (arith, above, step.1), rest))
