-- ===== src/Ledger/Due.antt =====
-- A buy whose hour has passed is settled by `finalize_one_hour`.
use debot.Base.{
  ◌≢◌, ℕ, is_empty, Bool-cases, inl, inr, ◌+◌, ◌≤◌, ◌<◌, String, Bool, true, false, ◌≡◌, refl, ap,
  ◌∙◌, List, [], ◌∷◌, ◌++◌, Option, none, some, arith, Result, ok, leb, ltb, find?, any, map,
  satisfying, find?-test, str_eq, if◌then◌else◌,
}
use debot.Ledger.Codec.{clean_text}
use debot.Ledger.Outcomes.{
  SimulatedBuy, ChainPath, Verdict, visible, judge, hour_us, BlockObservation, Peak, peak_of,
  entry_peak, grade, max_gap, after_entry,
}
use debot.Ledger.Codec.{Python}
use debot.Ledger.Finalize.{
  OneHourResult, StoredBuy, Ledger, Metrics, is_of, is_complete, last_of, metrics_at, rounded_point,
  point_of, complete_metrics, metrics_of, visible_buy, settle_buy, settle_visible, settle_result,
  result_of,
}
use debot.Ledger.Chain.{IsSettled, canonical_path-IsSettled}
use debot.Ledger.Transaction.{Tx, Tables, Store, Stamp, write, ending, stamp_of}
use debot.Ledger.Reads.{is_finalized}
use debot.Ledger.Settlement.{
  check_window, with_results, observation_view, add_result, Window, outcome_view, path_of,
}
use debot.Ledger.Service.{finalize_one_hour, transact}

grade_full :
    (os : List BlockObservation) (gap allowed : ℕ)
    → is_complete (grade os gap allowed).status ≡ true
    → is_empty (grade os gap allowed).observations ≡ false
grade_full [] gap allowed h = absurd (ground arith)
grade_full (o ∷ os) gap allowed h = elim (Bool-cases (ltb allowed gap)) [
  | inl wide ↦ rw wide refl
  | inr narrow ↦ rw narrow refl
]

-- A settled path has a verdict, with an observation if it is complete.
judge-some :
    (bought : SimulatedBuy) (gap : ℕ) (path : ChainPath)
    → path ≢ ChainPath.unfinished
    → (v : Verdict) × (judge bought gap path ≡ some v)
      × (is_complete v.status ≡ true → is_empty v.observations ≡ false)
unfolding judge
judge-some bought gap ChainPath.unfinished h = absurd (h refl)
judge-some bought gap (ChainPath.incomplete reason) h = (_, refl, λ c. absurd (ground arith))
judge-some bought gap (ChainPath.invalidated reason) h = (_, refl, λ c. absurd (ground arith))
judge-some bought gap (ChainPath.canonical path) h = (
  _,
  refl,
  grade_full (after_entry path)
      (max_gap bought.executed_at (after_entry path) (bought.executed_at + hour_us)) gap,
)

-- The window of a buy has passed at the cutoff, and the coverage is known.
pub record IsDue (bought : SimulatedBuy) (w : Window) : Type 0 where
  pub passed : bought.executed_at + hour_us + w.lateness ≤ w.as_of
  pub covered : bought.executed_at + hour_us ≤ w.coverage
  pub known : w.coverage ≤ w.as_of

any-new :
    (buy_id : String) (rows : List OneHourResult) (r : OneHourResult)
    → str_eq r.buy_id buy_id ≡ true
    → any (is_of buy_id) (rows ++ r ∷ []) ≡ true
any-new buy_id [] r h = rw h refl
any-new buy_id (x ∷ xs) r h = ground (arith, any-new buy_id xs r h)

pub find?-any :
    (buy_id : String) (rows : List OneHourResult) (r : OneHourResult)
    → find? (is_of buy_id) rows ≡ some r
    → any (is_of buy_id) rows ≡ true
find?-any buy_id [] r h = cc
find?-any buy_id (x ∷ xs) r h = ground (arith, find?-any buy_id xs r)

-- The Decimal operations on amounts and the notional of the buy return.
pub record IsDivisible (python : Python) (notional : ℕ) : Type 0 where
  pub quotient : (amount : ℕ) → (text : String) × (python.quotient amount notional ≡ ok text)
  pub difference : (amount : ℕ) → (text : String) × (python.difference amount notional ≡ ok text)

metrics_at-ok :
    (python : Python) (notional : ℕ) (peak : Peak) (final : BlockObservation)
    → IsDivisible python notional
    → (metrics : Metrics) × (metrics_at python notional peak (some final) ≡ ok metrics)
unfolding metrics_at
metrics_at-ok python notional peak final d =
    let (a, e) = d.quotient peak.value in
    let (b, f) = d.quotient final.position_value_usd in
    let (c, g) = d.difference peak.value in
    let (i, h) = d.difference final.position_value_usd in
    (
      record {
        peak = rounded_point python peak;
        final = rounded_point python (point_of final);
        peak_multiple = a;
        final_multiple = b;
        peak_pnl = c;
        final_pnl = i;
      },
      rw (e, f, g, h) refl,
    )

-- A graded path that is complete has an observation.
last_of-some :
    (o : BlockObservation) (os : List BlockObservation)
    → (final : BlockObservation) × (last_of (o ∷ os) ≡ some final)
last_of-some o [] = (o, refl)
last_of-some o (p ∷ os) = last_of-some p os

nonempty_metrics :
    (python : Python) (bought : SimulatedBuy) (os : List BlockObservation)
    → is_empty os ≡ false
    → IsDivisible python bought.notional_usd
    → (metrics : Metrics) × (complete_metrics python bought os ≡ ok metrics)
unfolding complete_metrics
nonempty_metrics python bought [] empty d = absurd (ground arith)
nonempty_metrics python bought (o ∷ os) empty d =
    let (final, e) = last_of-some o os in
    let (metrics, f) =
      metrics_at-ok python bought.notional_usd (peak_of (entry_peak bought) (o ∷ os)) final d in
    (
      metrics,
      ap (metrics_at python bought.notional_usd (peak_of (entry_peak bought) (o ∷ os))) e ∙ f,
    )

metrics_of-ok :
    (python : Python) (bought : SimulatedBuy) (v : Verdict)
    → (is_complete v.status ≡ true → is_empty v.observations ≡ false)
    → IsDivisible python bought.notional_usd
    → (metrics : Option Metrics) × (metrics_of python bought v ≡ ok metrics)
unfolding metrics_of
metrics_of-ok python bought v full d = elim (Bool-cases (is_complete v.status)) [
  | inr other ↦ (none, rw other refl)
  | inl whole ↦
      let (metrics, e) = nonempty_metrics python bought v.observations (full whole) d in
      (some metrics, rw (whole, e) refl)
]

settle_buy-ok :
    (python : Python) (bought : SimulatedBuy) (w : Window) (stamp : Stamp) (path : ChainPath)
    (ledger : Ledger)
    → IsDue bought w
    → IsDivisible python bought.notional_usd
    → path ≢ ChainPath.unfinished
    → (v : Verdict) × (metrics : Option Metrics) × (settle_buy python bought w stamp path ledger
        ≡ ok (
          (result_of python bought w stamp v metrics, true),
          record ledger {
            results = ledger.results ++ result_of python bought w stamp v metrics ∷ [];
          },
        ))
unfolding settle_buy
settle_buy-ok python bought w stamp path ledger due d settled =
    let (v, e, full) = judge-some bought w.gap path settled in
    let (metrics, m) = metrics_of-ok python bought v full d in
    let a : leb (bought.executed_at + hour_us + w.lateness) w.as_of ≡ true =
      ground (arith, due.passed) in
    let b : leb (bought.executed_at + hour_us) w.coverage ≡ true = ground (arith, due.covered) in
    let c : leb w.coverage w.as_of ≡ true = ground (arith, due.known) in
    (v, metrics, rw (a, b, c, e, m) refl)

IsSettled-finished :
    (path : ChainPath) (bought : SimulatedBuy) (observed : List BlockObservation)
    → IsSettled bought observed path
    → path ≢ ChainPath.unfinished
IsSettled-finished ChainPath.unfinished bought observed s e = s
IsSettled-finished (ChainPath.incomplete reason) bought observed s e = cc
IsSettled-finished (ChainPath.invalidated reason) bought observed s e = cc
IsSettled-finished (ChainPath.canonical path) bought observed s e = cc

path_of-finished :
    (tables : Tables) (cutoff : ℕ) (bought : SimulatedBuy)
    → path_of tables cutoff bought ≢ ChainPath.unfinished
unfolding path_of
path_of-finished tables cutoff bought =
    IsSettled-finished (path_of tables cutoff bought) bought
      (visible cutoff (
        map observation_view
          (satisfying (λ row. str_eq row.content.buy_id bought.buy_id) tables.observations)))
      (canonical_path-IsSettled bought _ _ cutoff)

pub settle_result-held :
    (held : Option OneHourResult) (r : OneHourResult) (ledger : Ledger)
    (rest : Result ((OneHourResult × Bool) × Ledger))
    → held ≡ some r
    → settle_result held ledger rest ≡ ok ((r, false), ledger)
settle_result-held held r ledger rest e = rw e refl

settle_result-new :
    (python : Python) (held : Option OneHourResult) (shown : Option StoredBuy) (bought : StoredBuy)
    (w : Window) (stamp : Stamp) (path : SimulatedBuy → ChainPath) (ledger : Ledger)
    → held ≡ none
    → shown ≡ some bought
    → settle_result held ledger (settle_visible python w stamp path ledger shown)
      ≡ settle_buy python bought.buy w stamp (path bought.buy) ledger
settle_result-new python held shown bought w stamp path ledger e f = rw (e, f) refl

pub check_window-ok :
    (clock : ℕ) (buy_id id : String) (w : Window)
    → clean_text buy_id 128 ≡ ok id
    → w.as_of ≤ clock
    → 0 < w.gap
    → w.gap ≤ hour_us
    → check_window clock buy_id w ≡ ok id
unfolding check_window
check_window-ok clock buy_id id w clean past gap bounded =
    let a : leb w.as_of clock ≡ true = ground arith in
    let b : ltb 0 w.gap ≡ true = ground arith in
    let c : leb w.gap hour_us ≡ true = ground arith in rw (clean, a, b, c) refl

if_false {ℓ} : {A : Type ℓ} (b : Bool) (x y : A) → b ≡ false → (if b then x else y) ≡ y
if_false b x y h = rw h refl

pub write-ok :
    {A : Type 0} (raw : ℕ) (body : Tx A) (store : Store) (value : A) (after : Tables)
    → store.closed ≡ false
    → body (stamp_of raw store.commits) store.tables ≡ ok (value, after)
    → write raw body store ≡ (
      ok value,
      record store { tables = after; commits = (stamp_of raw store.commits).now ∷ store.commits },
    )
unfolding write
write-ok raw body store value after open_ e =
    if_false store.closed _ _ open_ ∙ ap (ending (stamp_of raw store.commits) store) e

add_result-settles :
    (python : Python) (stamp : Stamp) (t : Tables) (buy_id : String) (w : Window)
    (bought : StoredBuy)
    → visible_buy buy_id w.as_of (outcome_view t).buys ≡ some bought
    → IsDue bought.buy w
    → IsDivisible python bought.buy.notional_usd
    → (value : OneHourResult × Bool) × (after : Tables) × (add_result python buy_id w stamp t
        ≡ ok (value, after))
      × (is_finalized buy_id after ≡ true)
unfolding add_result
add_result-settles python stamp t buy_id w bought seen due d =
    split (find? (is_of buy_id) t.results) refl
  where
    split :
        (held : Option OneHourResult)
        → find? (is_of buy_id) t.results ≡ held
        → (value : OneHourResult × Bool) × (after : Tables) × (add_result python buy_id w stamp t
            ≡ ok (value, after))
          × (is_finalized buy_id after ≡ true)
    split (some r) e = (
      (r, false),
      t,
      ap (with_results t) (settle_result-held _ r _ _ e),
      find?-any buy_id t.results r e,
    )
    split none e =
        let (v, metrics, s) =
          settle_buy-ok python bought.buy w stamp (path_of t w.as_of bought.buy) (outcome_view t)
            due d (path_of-finished t w.as_of bought.buy) in
        let r : OneHourResult = result_of python bought.buy w stamp v metrics in
        let found : str_eq bought.buy.buy_id buy_id ≡ true =
          ground (arith, find?-test _ (outcome_view t).buys bought seen) in
        (
          (r, true),
          record t { results = t.results ++ r ∷ [] },
          ap (with_results t) (settle_result-new python _ _ bought w stamp _ _ e seen ∙ s),
          any-new buy_id t.results r found,
        )

-- On an open ledger that shows a buy as of a cutoff that is not in the future, a finalization of the buy
-- with an admissible gap and a covered window that has passed returns, whatever was observed of the chain,
-- provided that the Decimal quotients and differences of amounts and the buy's notional do not raise; and
-- the buy has a one-hour result afterwards.
pub finalize_one_hour-settles :
    (python : Python) (clock raw : ℕ) (buy_id id : String) (w : Window) (store : Store)
    (bought : StoredBuy)
    → store.closed ≡ false
    → clean_text buy_id 128 ≡ ok id
    → w.as_of ≤ clock
    → 0 < w.gap
    → w.gap ≤ hour_us
    → visible_buy id w.as_of (outcome_view store.tables).buys ≡ some bought
    → IsDue bought.buy w
    → IsDivisible python bought.buy.notional_usd
    → (value : OneHourResult × Bool) × (after : Store) × (finalize_one_hour python clock raw buy_id
          w store
        ≡ (ok value, after))
      × (is_finalized id after.tables ≡ true)
unfolding finalize_one_hour
finalize_one_hour-settles python clock raw buy_id id w store bought open_ clean past gap bounded
      seen due d =
    let stamp = stamp_of raw store.commits in
    let (value, after, e, f) =
      add_result-settles python stamp store.tables id w bought seen due d in
    (
      value,
      record store { tables = after; commits = stamp.now ∷ store.commits },
      ap (λ (r : Result String). transact r (λ identity. add_result python identity w) raw store)
            (check_window-ok clock buy_id id w clean past gap bounded)
          ∙ write-ok raw (add_result python id w) store value after open_ e,
      f,
    )
