-- ===== src/Ledger/Selecting.antt =====
-- What the ledger's queries find: the rows of `current_signal` and of `eligible_historical_kol`.
use mathlib.Core.List.{Memᴰ}
use debot.Base.{
  ℕ, Bool, true, false, ◌≡◌, ◌⊎◌, inl, inr, refl, sym, subst, Option, none, some, List, [], ◌∷◌,
  arith, str_eq, eq_iff, Bool-cases,
}
use debot.Ledger.Schema.{CurrentSignal, HistoricalKolEvidence}
use debot.Ledger.Columns.{
  candidate_columns, signal_columns, evidence_columns, decision_columns, buy_columns,
  observation_columns, head_columns,
}
use debot.Ledger.Transaction.{Stored}
use debot.Ledger.Codec.{official_source, ranks_source}
use debot.Ledger.Reads.{is_historical, latest, comes_before, signal}
use debot.Ledger.Grounded.{IsHistorical}

-- The WHERE clause of `eligible_historical_kol` says what it means.
pub is_historical-IsHistorical :
    (signal : Stored CurrentSignal) (decided : ℕ) (row : Stored HistoricalKolEvidence)
    → is_historical signal decided row ≡ true
    → IsHistorical signal decided row
is_historical-IsHistorical signal decided row h = record {
  chain = ground (arith, eq_iff row.content.chain signal.content.chain);
  token = ground (arith, eq_iff row.content.token_address signal.content.token_address);
  source = elim (Bool-cases (str_eq row.content.source official_source)) [
    | inl is ↦ inl ((eq_iff row.content.source official_source).0 is)
    | inr other ↦ inr ((eq_iff row.content.source ranks_source).0 (ground arith))
  ];
  other = ground (arith, eq_iff row.content.signal_id signal.content.signal_id);
  event = ground arith;
  available = ground arith;
  qualified = ground arith;
  committed = ground arith;
  visible = ground arith;
}

-- `ORDER BY … LIMIT 1` gives a row that passes.
pub latest-Memᴰ :
    (test : Stored CurrentSignal → Bool) (rows : List (Stored CurrentSignal))
    (row : Stored CurrentSignal)
    → latest test rows ≡ some row
    → Memᴰ row rows × (test row ≡ true)
latest-Memᴰ test [] row h = absurd (ground arith)
latest-Memᴰ test (x ∷ xs) row h =
    pick (latest test xs) refl (Bool-cases (test x)) (latest-Memᴰ test xs row)
  where
    pick :
        (found : Option (Stored CurrentSignal))
        → latest test xs ≡ found
        → (test x ≡ true) ⊎ (test x ≡ false)
        → (latest test xs ≡ some row → Memᴰ row xs × (test row ≡ true))
        → Memᴰ row (x ∷ xs) × (test row ≡ true)
    pick none e (inl t) rest =
        let is : x ≡ row = ground arith in (Memᴰ.head (sym is), subst (λ r. test r ≡ true) is t)
    pick (some other) e (inl t) rest = elim (Bool-cases (comes_before other x)) [
      | inl first ↦ let (m, u) = rest (ground arith) in (Memᴰ.tail m, u)
      | inr second ↦
          let is : x ≡ row = ground arith in (Memᴰ.head (sym is), subst (λ r. test r ≡ true) is t)
    ]
    pick found e (inr f) rest = let (m, u) = rest (ground arith) in (Memᴰ.tail m, u)
