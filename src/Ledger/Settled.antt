-- ===== src/Ledger/Settled.antt =====
-- What a finalization leaves among the one-hour results (src/debot4/v6/ledger/outcomes.py).
use debot.Base.{
  sym, ap, subst, ◌∙◌, find?-test, >>=-eq-ok, refl, ◌+◌, String, ◌≡◌, Bool, true, false, ◌&&◌, ◌||◌,
  List, [], ◌∷◌, ◌++◌, Option, none, some, arith, Result, ok, err, value_error, guard, leb, find?,
  any, str_eq, eq_iff, Bool-cases, inl, inr,
}
use debot.Ledger.Schema.{Stamp}
use debot.Ledger.Codec.{Python}
use debot.Ledger.Outcomes.{SimulatedBuy, ChainPath, Verdict, judge, hour_us}
use debot.Ledger.Finalize.{
  OneHourResult, StoredBuy, Ledger, Window, is_of, visible_buy, metrics_of, result_of,
  insert_result, verdict_result, settle_buy, settle_visible, settle_result,
}

find?-append :
    (test : OneHourResult → Bool) (xs : List OneHourResult) (r : OneHourResult)
    → find? test xs ≡ none
    → test r ≡ true
    → find? test (xs ++ r ∷ []) ≡ some r
find?-append test [] r h t = rw t refl
find?-append test (x ∷ xs) r h t = elim (Bool-cases (test x)) [
  | inl hit ↦ absurd (ground arith)
  | inr miss ↦ rw miss (find?-append test xs r (ground arith) t)
]

-- The row has the sequence number and the time of the commit.
pub record IsCommitted (stamp : Stamp) (r : OneHourResult) : Type 0 where
  pub sequence : r.commit_seq ≡ stamp.commit_seq
  pub time : r.inserted_at ≡ stamp.now

-- The row that a finalization inserts, and the ledger with it.
abbrev pub Inserts : SimulatedBuy → Stamp → Ledger → OneHourResult → Ledger → Type 0
Inserts buy stamp ledger result after =
    (result.buy_id ≡ buy.buy_id)
    × IsCommitted stamp result
    × (after ≡ record ledger { results = ledger.results ++ result ∷ [] })

module _ (python : Python) where
  insert_result-Inserts :
      (buy : SimulatedBuy) (stamp : Stamp) (ledger : Ledger) (row : Result OneHourResult)
      (result : OneHourResult) (inserted : Bool) (after : Ledger)
      → ((r : OneHourResult) → row ≡ ok r → (r.buy_id ≡ buy.buy_id) × IsCommitted stamp r)
      → insert_result ledger row ≡ ok ((result, inserted), after)
      → Inserts buy stamp ledger result after
  insert_result-Inserts buy stamp ledger (err error) result inserted after of e = absurd (cc)
  insert_result-Inserts buy stamp ledger (ok r) result inserted after of e =
      let same : r ≡ result = cc in
      let grown : record ledger { results = ledger.results ++ r ∷ [] } ≡ after = cc in
      let (id, committed) = of r refl in
      (
        ap (λ (x : OneHourResult). x.buy_id) (sym same) ∙ id,
        subst (IsCommitted stamp) same committed,
        sym grown ∙ ap (λ x. record ledger { results = ledger.results ++ x ∷ [] }) same,
      )

  verdict_result-of :
      (buy : SimulatedBuy) (w : Window) (stamp : Stamp) (verdict : Option Verdict)
      (r : OneHourResult)
      → verdict_result python buy w stamp verdict ≡ ok r
      → (r.buy_id ≡ buy.buy_id) × IsCommitted stamp r
  verdict_result-of buy w stamp none r e = absurd (cc)
  verdict_result-of buy w stamp (some v) r e =
      let (metrics, _, e1) =
        >>=-eq-ok (metrics_of python buy v) (λ m. ok (result_of python buy w stamp v m)) e in
      let same : result_of python buy w stamp v metrics ≡ r = cc e1 in
      subst (λ (x : OneHourResult). (x.buy_id ≡ buy.buy_id) × IsCommitted stamp x) same
        (refl, record { sequence = refl; time = refl })

  pub settle_buy-Inserts :
      (buy : SimulatedBuy) (w : Window) (stamp : Stamp) (path : ChainPath) (ledger : Ledger)
      (result : OneHourResult) (inserted : Bool) (after : Ledger)
      → settle_buy python buy w stamp path ledger ≡ ok ((result, inserted), after)
      → Inserts buy stamp ledger result after
  unfolding settle_buy
  settle_buy-Inserts buy w stamp path ledger result inserted after e =
      let (a, _, e1) =
        >>=-eq-ok (guard (leb (buy.executed_at + hour_us + w.lateness) w.as_of) value_error) _ e in
      let (b, _, e2) =
        >>=-eq-ok
          (guard (leb (buy.executed_at + hour_us) w.coverage && leb w.coverage w.as_of) value_error)
          _ e1 in
      insert_result-Inserts buy stamp ledger
        (verdict_result python buy w stamp (judge buy w.gap path)) result inserted after
        (verdict_result-of buy w stamp (judge buy w.gap path)) e2

  -- A finalization that returns leaves its result as the one that is found.
  pub outcome_settled :
      (buy_id : String) (w : Window) (stamp : Stamp) (path : SimulatedBuy → ChainPath)
      (ledger : Ledger) (result : OneHourResult) (inserted : Bool) (after : Ledger)
      (held : Option OneHourResult)
      → find? (is_of buy_id) ledger.results ≡ held
      → (stored : Option StoredBuy) → visible_buy buy_id w.as_of ledger.buys ≡ stored
      → settle_result held ledger (settle_visible python w stamp path ledger stored)
        ≡ ok ((result, inserted), after)
      → find? (is_of buy_id) after.results ≡ some result
  outcome_settled buy_id w stamp path ledger result inserted after (some r) f stored v e =
      let same : r ≡ result = cc in
      let kept : ledger ≡ after = cc in
      subst (λ (l : Ledger). find? (is_of buy_id) l.results ≡ some result) kept (f ∙ ap some same)
  outcome_settled buy_id w stamp path ledger result inserted after none f none v e = absurd (cc)
  outcome_settled buy_id w stamp path ledger result inserted after none f (some b) v e =
      let (id, _, grown) =
        settle_buy-Inserts b.buy w stamp (path b.buy) ledger result inserted after e in
      let found : str_eq b.buy.buy_id buy_id ≡ true =
        ground (arith, find?-test _ ledger.buys b v) in
      subst (λ (l : Ledger). find? (is_of buy_id) l.results ≡ some result) (sym grown)
        (find?-append (is_of buy_id) ledger.results result f (rw id found))

-- No two results are of the same buy.
abbrev pub ResultKeys : List OneHourResult → Type 0
ResultKeys [] = Unit
ResultKeys (r ∷ rs) = (any (is_of r.buy_id) rs ≡ false) × ResultKeys rs

any-append :
    (test : OneHourResult → Bool) (xs : List OneHourResult) (y : OneHourResult)
    → any test (xs ++ y ∷ []) ≡ (any test xs || test y)
any-append test [] y = ground arith
any-append test (x ∷ xs) y = ground (arith, any-append test xs y)

ResultKeys-append :
    (rows : List OneHourResult) (row : OneHourResult) (key : String)
    → row.buy_id ≡ key
    → find? (is_of key) rows ≡ none
    → ResultKeys rows
    → ResultKeys (rows ++ row ∷ [])
ResultKeys-append [] row key id free k = (refl, tt)
ResultKeys-append (x ∷ xs) row key id free k = (
  rw (any-append (is_of x.buy_id) xs row)
      (ground (arith, free, k.0, id, eq_iff x.buy_id key, eq_iff row.buy_id x.buy_id)),
  ResultKeys-append xs row key id (ground (arith, free)) k.1,
)

-- A finalization keeps the buys of the results apart.
pub settle-ResultKeys :
    (python : Python) (buy_id : String) (w : Window) (stamp : Stamp)
    (path : SimulatedBuy → ChainPath) (ledger : Ledger) (held : Option OneHourResult)
    → find? (is_of buy_id) ledger.results ≡ held
    → (stored : Option StoredBuy) → visible_buy buy_id w.as_of ledger.buys ≡ stored
    → (value : OneHourResult × Bool) (after : Ledger)
    → settle_result held ledger (settle_visible python w stamp path ledger stored)
      ≡ ok (value, after)
    → ResultKeys ledger.results
    → ResultKeys after.results
settle-ResultKeys python buy_id w stamp path ledger (some r) f stored v value after e k =
    let kept : ledger ≡ after = cc in subst (λ (l : Ledger). ResultKeys l.results) kept k
settle-ResultKeys python buy_id w stamp path ledger none f none v value after e k = absurd (cc)
settle-ResultKeys python buy_id w stamp path ledger none f (some b) v (result, inserted) after e k =
    let (id, _, grown) =
      settle_buy-Inserts python b.buy w stamp (path b.buy) ledger result inserted after e in
    let found : b.buy.buy_id ≡ buy_id =
      (eq_iff b.buy.buy_id buy_id).0 (ground (arith, find?-test _ ledger.buys b v)) in
    subst (λ (l : Ledger). ResultKeys l.results) (sym grown)
      (ResultKeys-append ledger.results result buy_id (id ∙ found) f k)
