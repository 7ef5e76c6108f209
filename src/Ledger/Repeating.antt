-- ===== src/Ledger/Repeating.antt =====
-- A finalization that is repeated, however much later (`finalize_one_hour`, src/debot4/v6/ledger/outcomes.py).
use debot.Base.{
  ℕ, ◌≤◌, ◌<◌, String, Bool, true, false, ◌≡◌, refl, sym, ap, subst, ◌∙◌, List, ◌∷◌, some, Result,
  ok, err, runtime_error, arith, find?, if◌then◌else◌,
}
use debot.Ledger.Codec.{Python, clean_text}
use debot.Ledger.Outcomes.{hour_us}
use debot.Ledger.Finalize.{OneHourResult, is_of, outcome, visible_buy}
use debot.Ledger.Transaction.{Stamp, Tx, Tables, Store, write, ending, stamp_of}
use debot.Ledger.Settlement.{Window, check_window, with_results, add_result, outcome_view, path_of}
use debot.Ledger.Settled.{outcome_settled}
use debot.Ledger.Growth.{result_eq_ok}
use debot.Ledger.Sealed.{run-Sealed}
use debot.Ledger.Due.{find?-any, settle_result-held, check_window-ok, write-ok}
use debot.Ledger.Service.{finalize_one_hour, transact}
use debot.Ledger.Requests.{Request, run}

module _ {A : Type 0} (stamp : Stamp) (store : Store) (value : A) (after : Store) where
  ending-eq-ok :
      (closed : Bool) (r : Result (A × Tables))
      → ◌≡◌ {A = Result A × Store}
          (if closed then (err runtime_error, store) else ending stamp store r)
          (ok value, after)
      → (tables : Tables) × (r ≡ ok (value, tables)) × (after.tables ≡ tables)
  ending-eq-ok true r h = absurd (ground arith)
  ending-eq-ok false (err error) h = absurd (ground arith)
  ending-eq-ok false (ok (v, tables)) h =
      (tables, ground arith, ap (λ (x : Result A × Store). x.1.tables) (sym h))

-- A transaction that returns has run its body.
write-eq-ok :
    {A : Type 0} (raw : ℕ) (body : Tx A) (store : Store) (value : A) (after : Store)
    → write raw body store ≡ (ok value, after)
    → (tables : Tables) × (body (stamp_of raw store.commits) store.tables ≡ ok (value, tables))
      × (after.tables ≡ tables)
unfolding write
write-eq-ok raw body store value after h =
    ending-eq-ok (stamp_of raw store.commits) store value after store.closed
      (body (stamp_of raw store.commits) store.tables) h

checked_identity :
    (clock : ℕ) (buy_id id : String) (w : Window) (checked : Result String)
    → check_window clock buy_id w ≡ checked
    → clean_text buy_id 128 ≡ ok id
    → (identity : String) → checked ≡ ok identity
    → identity ≡ id
unfolding check_window
checked_identity clock buy_id id w checked e clean identity h = ground (arith, e, clean, h)

module _ (python : Python) where
  -- A finalization that returns leaves its result for its buy.
  add_result-outcome :
      (stamp : Stamp) (t : Tables) (id : String) (w : Window) (result : OneHourResult)
      (inserted : Bool) (after : Tables)
      → add_result python id w stamp t ≡ ok ((result, inserted), after)
      → find? (is_of id) after.results ≡ some result
  unfolding add_result
  add_result-outcome stamp t id w result inserted after h =
      let (ledger, e, p) = result_eq_ok t _ (result, inserted) after h in
      ap (λ (x : Tables). find? (is_of id) x.results) p
      ∙ outcome_settled python id w stamp (path_of t w.as_of) (outcome_view t) result inserted
          ledger (find? (is_of id) t.results) refl (visible_buy id w.as_of (outcome_view t).buys)
          refl e

  add_result-held :
      (stamp : Stamp) (t : Tables) (id : String) (w : Window) (result : OneHourResult)
      → find? (is_of id) t.results ≡ some result
      → add_result python id w stamp t ≡ ok ((result, false), t)
  unfolding add_result
  add_result-held stamp t id w result held =
      ap (with_results t) (settle_result-held _ result _ _ held)

  transact_held :
      (raw : ℕ) (id : String) (w : Window) (store : Store) (result : OneHourResult)
      (inserted : Bool) (after : Store) (checked : Result String)
      → ((identity : String) → checked ≡ ok identity → identity ≡ id)
      → transact checked (λ identity. add_result python identity w) raw store
        ≡ (ok (result, inserted), after)
      → find? (is_of id) after.tables.results ≡ some result
  transact_held raw id w store result inserted after (err error) named h = absurd (ground arith)
  transact_held raw id w store result inserted after (ok identity) named h =
      let (tables, e, same) =
        write-eq-ok raw (add_result python identity w) store (result, inserted) after h in
      ap (λ (x : Tables). find? (is_of id) x.results) same
      ∙ subst (λ k. find? (is_of k) tables.results ≡ some result) (named identity refl)
          (add_result-outcome (stamp_of raw store.commits) store.tables identity w result inserted
            tables e)

  -- Once a finalization of a buy has returned, then after any history of calls that leaves the ledger open,
  -- `outcome` gives its result, and a finalization of the buy with an admissible cutoff and gap returns that
  -- result and inserts nothing: it leaves the tables as they are, with one new commit.
  pub finalize_one_hour-run :
      (clock raw : ℕ) (buy_id id : String) (w : Window) (store : Store) (result : OneHourResult)
      (inserted : Bool) (after : Store) (requests : List Request) (clock' raw' : ℕ) (w' : Window)
      → clean_text buy_id 128 ≡ ok id
      → finalize_one_hour python clock raw buy_id w store ≡ (ok (result, inserted), after)
      → (run python requests after).closed ≡ false
      → w'.as_of ≤ clock'
      → 0 < w'.gap
      → w'.gap ≤ hour_us
      → let later = run python requests after in
        (outcome id (outcome_view later.tables) ≡ some result)
        × (finalize_one_hour python clock' raw' buy_id w' later ≡ (
          ok (result, false),
          record later { commits = (stamp_of raw' later.commits).now ∷ later.commits },
        ))
  unfolding finalize_one_hour outcome
  finalize_one_hour-run clock raw buy_id id w store result inserted after requests clock' raw' w'
        clean first open_ past gap bounded =
      let held : find? (is_of id) after.tables.results ≡ some result =
        transact_held raw id w store result inserted after (check_window clock buy_id w)
          (checked_identity clock buy_id id w (check_window clock buy_id w) refl clean) first in
      let sealed =
        run-Sealed python requests after id (find?-any id after.tables.results result held) in
      let kept = sealed.result ∙ held in
      let later = run python requests after in
      (
        kept,
        ap
              (λ (r : Result String).
                transact r (λ identity. add_result python identity w') raw' later)
              (check_window-ok clock' buy_id id w' clean past gap bounded)
            ∙ write-ok raw' (add_result python id w') later (result, false) later.tables open_
                (add_result-held (stamp_of raw' later.commits) later.tables id w' result kept),
      )
