-- ===== src/Ledger/Grounding.antt =====
-- The transactions of the ledger's methods keep its invariant, and so does a history of calls.
use debot.Base.{find?, refl}
use debot.Base.{
  ◌≤◌, String, ◌≡◌, sym, ◌∙◌, List, arith, eq_iff, find?-Memᴰ, find?-test, ok, &&-true,
}
use debot.Ledger.Settled.{settle-ResultKeys}
use debot.Ledger.Schema.{EntryDecision, BuyRow, ObservationRow, HeadSighting}
use debot.Ledger.Columns.{
  candidate_columns, signal_columns, evidence_columns, decision_columns, buy_columns,
  observation_columns, head_columns,
}
use debot.Ledger.Transaction.{Tables, Stamp}
use debot.Ledger.Keys.{Memᴰ-Extends, any-Memᴰ}
use debot.Ledger.Checks.{clean_buy}
use debot.Ledger.Recording.{
  insert_head, add_buy, add_observation, add_head, require_bought, require_in_hour,
}
use debot.Ledger.Appending.{put-eq-ok}
use debot.Ledger.Keeps.{require_bought-Keeps, require_in_hour-Keeps, Methods, Keeps}
use debot.Ledger.Inversion.{
  Returns, the-Returns, require-Returns, select-Returns, pure-Returns, bind-Returns, last-Returns,
  when_inserted-Returns, Same-Preorder,
}
use debot.Ledger.Grounded.{IsInHour, IsLedger}
use debot.Ledger.Keeping.{insert_head-IsLedger}
use debot.Ledger.Causality.{
  KeepsLedger, insert_candidate-KeepsLedger, insert_evidence-KeepsLedger, Returns-Keeps,
  insert_buy-Returns, insert_observation-Returns, add_signal-Returns, add_decision-Returns,
}
use debot.Ledger.Keeping.{results-IsLedger}
use debot.Ledger.Growth.{settle-NewResults, result_eq_ok}
use debot.Ledger.Finalize.{is_of, visible_buy}
use debot.Ledger.Settlement.{path_of, outcome_view, add_result, Window}
use debot.Ledger.Requests.{Request, run}
use debot.Ledger.Effects.{run-keeps}
use debot.Ledger.Codec.{Python}
use debot.Ledger.Transaction.{Store, close}
use debot.Ledger.Keeps.{Methods}

clean_buy-given :
    (python : Python) (given clean : BuyRow)
    → clean_buy python given ≡ ok clean
    → (clean.decision_id ≡ given.decision_id)
unfolding clean_buy
clean_buy-given python given clean h = ground arith

-- What `_record_buy` checks of the decision.
abbrev Decides : EntryDecision → BuyRow → Type 0
Decides decision b =
    (decision.status ≡ "buy")
    × (decision.candidate_id ≡ b.candidate_id)
    × (decision.signal_id ≡ b.signal_id)
    × (decision.decided_at ≤ b.executed_at)

require_bought-Returns :
    (stamp : Stamp) (before : Tables) (decision : EntryDecision) (b : BuyRow)
    → Returns stamp before (require_bought decision b) (λ done after. Decides decision b)
unfolding require_bought
require_bought-Returns stamp before decision b = require-Returns stamp before _ _ _ _ (λ status.
    require-Returns stamp before _ _ _ _ (λ same. last-Returns stamp before _ _ _ (λ time.
      let (c, d) = &&-true _ _ same in
      ((eq_iff _ _).0 status, (eq_iff _ _).0 c, (eq_iff _ _).0 d, ground arith))))

add_buy-Returns :
    (python : Python) (stamp : Stamp) (before : Tables) (i : IsLedger before) (given : BuyRow)
    → Returns stamp before (add_buy python given) (λ value after. IsLedger after)
unfolding add_buy
add_buy-Returns python stamp before i given = select-Returns stamp before _ _ _ (
    the-Returns stamp before _ _ _ (λ decision found. select-Returns stamp before _ _ _ (
      the-Returns stamp before _ _ _ (λ owner known.
        pure-Returns stamp before _ _ _ (λ clean checked.
          bind-Returns stamp before _ _ _ _ (insert_buy-Returns stamp before i _)
            (λ result middle pending.
              when_inserted-Returns stamp middle result _ (Decides decision.content clean) _
                (require_bought-Keeps _ Same-Preorder decision.content clean)
                (require_bought-Returns stamp middle decision.content clean)
                (λ decides. pending.2 (λ new. record {
                  decision = decision;
                  member =
                      Memᴰ-Extends _ _ _ _ pending.1.decisions
                        (find?-Memᴰ _ before.decisions decision found);
                  identity =
                      (eq_iff _ _).0 (find?-test _ before.decisions decision found)
                      ∙ sym (clean_buy-given python given clean checked);
                  status = (decides new).0;
                  candidate = (decides new).1;
                  signal = (decides new).2;
                  decided = (decides new).3;
                }))))))))

require_in_hour-Returns :
    (stamp : Stamp) (before : Tables) (values : ObservationRow)
    → Returns stamp before (require_in_hour values) (λ done after. IsInHour before values)
unfolding require_in_hour
require_in_hour-Returns stamp before values = select-Returns stamp before _ _ _ (
    the-Returns stamp before _ _ _ (λ bought found. require-Returns stamp before _ _ _ _ (λ within.
      last-Returns stamp before _ _ _ (λ block. record {
        bought = bought;
        member = find?-Memᴰ _ before.buys bought found;
        identity = (eq_iff _ _).0 (find?-test _ before.buys bought found);
        after_entry = ground arith;
        within = ground arith;
        block = ground arith;
      }))))

add_observation-Returns :
    (stamp : Stamp) (before : Tables) (i : IsLedger before) (values : ObservationRow)
    → Returns stamp before (add_observation values) (λ value after. IsLedger after)
unfolding add_observation
add_observation-Returns stamp before i values = select-Returns stamp before _ _ _ (
    require-Returns stamp before _ _ _ _ (λ open_.
      bind-Returns stamp before _ _ _ _ (insert_observation-Returns stamp before i values)
        (λ result middle pending.
          when_inserted-Returns stamp middle result _ (IsInHour middle values) _
            (require_in_hour-Keeps _ Same-Preorder values)
            (require_in_hour-Returns stamp middle values) pending.2)))

add_head-Returns :
    (stamp : Stamp) (before : Tables) (i : IsLedger before) (values : HeadSighting)
    → Returns stamp before (add_head values) (λ value after. IsLedger after)
unfolding add_head insert_head
add_head-Returns stamp before i values = select-Returns stamp before _ _ _ (
    require-Returns stamp before _ _ _ _ (λ open_. select-Returns stamp before _ _ _ (
      require-Returns stamp before _ _ _ _ (λ observed. record {
        apply = λ value after h.
            let (rows, e, p) = put-eq-ok (λ rows. record before { heads = rows }) _ value after h in
            let (row, m, t) = any-Memᴰ _ before.observations observed in
            rw p (
              insert_head-IsLedger stamp before _ values value rows e i (λ new. record {
                observed = row;
                member = m;
                buy = ground (arith, eq_iff row.content.buy_id values.buy_id);
                number = ground arith;
                hash = ground (arith, eq_iff row.content.block_hash values.block_hash);
              }));
      }))))

add_result-KeepsLedger :
    (python : Python) (buy_id : String) (w : Window)
    → Keeps KeepsLedger (add_result python buy_id w)
unfolding add_result
add_result-KeepsLedger python buy_id w = record {
  apply = λ stamp before value after h i.
      let (ledger, e, p) = result_eq_ok before _ value after h in
      rw p (
        results-IsLedger stamp before ledger.results
          (settle-NewResults python w stamp _ _ _ _ value ledger e)
          (settle-ResultKeys python buy_id w stamp (path_of before w.as_of) (outcome_view before)
            (find? (is_of buy_id) before.results) refl
            (visible_buy buy_id w.as_of (outcome_view before).buys) refl value ledger e
            i.result_keys)
          i);
}

KeepsLedger-Methods : Methods KeepsLedger
KeepsLedger-Methods = record {
  preorder = record { same = λ stamp t i. i; compose = λ stamp a b c f g i. g (f i) };
  candidates = insert_candidate-KeepsLedger;
  signals = λ given. Returns-Keeps _ (λ stamp before i. add_signal-Returns stamp before i given);
  evidence = insert_evidence-KeepsLedger;
  decisions =
      λ values. Returns-Keeps _ (λ stamp before i. add_decision-Returns stamp before i values);
  buys = λ python given.
      Returns-Keeps _ (λ stamp before i. add_buy-Returns python stamp before i given);
  observations =
      λ values. Returns-Keeps _ (λ stamp before i. add_observation-Returns stamp before i values);
  heads = λ values. Returns-Keeps _ (λ stamp before i. add_head-Returns stamp before i values);
  results = add_result-KeepsLedger;
}

-- After any history of calls on a ledger that satisfies the invariant, no two rows of a table share their
-- key; every signal is of a stored candidate, with its chain and token; every decision rests on a candidate
-- and a signal of it that were available and inserted by its instant, and on KOL evidence, if it names any,
-- for the same token, of an earlier event, available, qualified and committed before the signal; every
-- buy rests on a decision to buy that is not after it; every observation lies within its buy's hour; and
-- every head sighting is of an observed block.
pub run-IsLedger :
    (python : Python) (requests : List Request) (store : Store)
    → IsLedger store.tables
    → IsLedger (run python requests store).tables
unfolding close
run-IsLedger python requests store i =
    run-keeps KeepsLedger KeepsLedger-Methods python (λ s. IsLedger s.tables) (λ s j. j)
      (λ s raw after j keeps. keeps j) requests store i
