-- ===== src/Market/Selected.antt =====
-- What `select` (src/debot4/v6/narrative/market_signal.py) lets through.
use debot.Base.{
  ◌≤◌, ◌<◌, Bool, true, ◌||◌, not, ◌≡◌, ◌⊎◌, inl, inr, refl, subst, List, [], ◌∷◌, ok, arith,
  if◌then◌else◌, ltb, length, str_eq, eq_iff, All, All-append, All-self, length-append, >>=-eq-ok,
  Bool-cases,
}
use mathlib.Core.List.{Memᴰ}
use debot.Market.Anomaly.{MarketText, Gainer, Board, MarketAnomaly}
use debot.Market.Selection.{
  MarketSelection, MarketQualityPolicy, Qualified, accepted, rejected, qualify, take_in,
  select_rows, select,
}
use debot.Market.Qualifying.{IsEmitted, ok_value, qualify-IsEmitted}

-- The anomalies that the loop has collected.
abbrev AreEmitted :
    MarketText → MarketQualityPolicy → Board → (Gainer → Type 0) → List MarketAnomaly → Type 0
AreEmitted text policy board P =
    All (λ anomaly. (row : Gainer) × P row × IsEmitted text policy board row anomaly)

take_in-keeps :
    (text : MarketText) (policy : MarketQualityPolicy) (row : Gainer) (board : Board)
    (P : Gainer → Type 0) (selection : MarketSelection) (verdict : Qualified)
    → P row
    → qualify text policy row board ≡ ok verdict
    → (length selection.anomalies ≤ policy.max_anomalies)
      × AreEmitted text policy board P selection.anomalies
    → (length (take_in text policy row selection verdict).anomalies ≤ policy.max_anomalies)
      × AreEmitted text policy board P (take_in text policy row selection verdict).anomalies
take_in-keeps text policy row board P selection (rejected reason) p h (few, all) = (few, all)
take_in-keeps text policy row board P selection (accepted anomaly) p h (few, all) =
    elim (Bool-cases (ltb (length selection.anomalies) policy.max_anomalies)) [
      | inl free ↦
          let room : length selection.anomalies < policy.max_anomalies = ground (arith, free) in
          rw free (
            omega (arith, length-append selection.anomalies (anomaly ∷ []), room),
            All-append _ selection.anomalies (anomaly ∷ []) all
                ((row, p, qualify-IsEmitted text policy row board h), tt),
          )
      | inr full ↦ rw full (few, all)
    ]

select_rows-keeps :
    (text : MarketText) (policy : MarketQualityPolicy) (board : Board) (P : Gainer → Type 0)
    (rows : List Gainer) (before : MarketSelection) {after : MarketSelection}
    → All P rows
    → (length before.anomalies ≤ policy.max_anomalies)
      × AreEmitted text policy board P before.anomalies
    → select_rows text policy board rows before ≡ ok after
    → (length after.anomalies ≤ policy.max_anomalies)
      × AreEmitted text policy board P after.anomalies
unfolding select_rows
select_rows-keeps text policy board P [] before all keeps h =
    subst
      (λ (s : MarketSelection).
        (length s.anomalies ≤ policy.max_anomalies) × AreEmitted text policy board P s.anomalies)
      (ok_value h) keeps
select_rows-keeps text policy board P (row ∷ rows) before all keeps h =
    let (verdict, e, rest) =
      >>=-eq-ok (qualify text policy row board)
        (λ verdict. select_rows text policy board rows (take_in text policy row before verdict))
        h in
    select_rows-keeps text policy board P rows (take_in text policy row before verdict) all.1
      (take_in-keeps text policy row board P before verdict all.0 e keeps) rest

-- At most `max_anomalies` anomalies, each for a row of the board that keeps the bounds of the policy, and
-- none when the board is not exact or of another source.
abbrev pub IsSelected : MarketText → MarketQualityPolicy → Board → MarketSelection → Type 0
IsSelected text policy board selection =
    (length selection.anomalies ≤ policy.max_anomalies)
    × All
        (λ anomaly. (row : Gainer) × Memᴰ row board.rows × IsEmitted text policy board row anomaly)
        selection.anomalies
    × ((selection.anomalies ≡ [])
        ⊎ ((board.ranking_exact ≡ true) × (board.board_source ≡ "coinmarketcap_datahub")))

-- When `select` returns, it returns at most `max_anomalies` anomalies, each of them for a row of the board
-- that keeps every bound of the policy: with the canonical form of this row's token address, its texts cut
-- to length, its figures, the highest stage that its change reaches, the board's time and source, and the
-- identity of source, address, day and stage; and none from a board that is not exact or of another source.
pub select-IsSelected :
    (text : MarketText) (policy : MarketQualityPolicy) (board : Board) (selection : MarketSelection)
    → select text policy board ≡ ok selection
    → IsSelected text policy board selection
unfolding select
select-IsSelected text policy board selection h =
    let test = not board.ranking_exact || not (str_eq board.board_source "coinmarketcap_datahub") in
    let none_yet : MarketSelection = record { anomalies = []; rejections = [] } in
    let refused : MarketSelection = record {
      anomalies = [];
      rejections = record { rejected_ca = ""; reason = "board_not_exact" } ∷ [];
    } in
    let chosen = λ (b : Bool).
      (if b then ok refused else select_rows text policy board board.rows none_yet)
      ≡ ok selection in
    elim (Bool-cases test) [
      | inl other ↦
          subst (IsSelected text policy board) (ok_value (subst chosen other h))
            (omega arith, tt, inl refl)
      | inr exact ↦
          let (few, all) =
            select_rows-keeps text policy board (λ row. Memᴰ row board.rows) board.rows none_yet
              {after = selection} (All-self board.rows) (omega arith, tt) (subst chosen exact h) in
          (
            few,
            all,
            inr (
              ground (arith, exact),
              (eq_iff board.board_source "coinmarketcap_datahub").0 (ground (arith, exact)),
            ),
          )
    ]
