-- ===== src/Ledger/Inversion.antt =====
-- What holds where a transaction returns, from what its steps ask for.
use debot.Base.{
  subst, Bool, true, false, ◌≡◌, refl, sym, ap, ◌∙◌, Option, none, some, Result, ok, err, Error,
  arith, if◌then◌else◌,
}
use debot.Ledger.Transaction.{
  InsertResult, Tables, Stamp, Tx, ◌>>=◌, ◌>>◌, give, pure, require, select,
}
use debot.Ledger.Recording.{the, when_inserted}
use debot.Ledger.Keeps.{Relation, Keeps, Preorder, bind-eq-ok}

-- The tables are the same.
abbrev pub Same : Relation
Same stamp before after = before ≡ after

pub Same-Preorder : Preorder Same
Same-Preorder = record { same = λ stamp tables. refl; compose = λ stamp a b c e f. e ∙ f }

-- Where the transaction returns, `Q` holds of its value and the tables.
pub record Returns {A : Type 0} (stamp : Stamp) (before : Tables) (body : Tx A)
    (Q : A → Tables → Type 0) : Type 0 where
  pub apply : (value : A) (after : Tables) → body stamp before ≡ ok (value, after) → Q value after

module _ {A B : Type 0} (stamp : Stamp) (before : Tables) (Q : B → Tables → Type 0) where
  pub select-Returns :
      (query : Tables → A) (next : A → Tx B)
      → Returns stamp before (next (query before)) Q
      → Returns stamp before (select query >>= next) Q
  unfolding ◌>>=◌
  select-Returns query next r = record { apply = r.apply }

  pub the-Returns :
      (o : Option A) (next : A → Tx B)
      → ((value : A) → o ≡ some value → Returns stamp before (next value) Q)
      → Returns stamp before (the o >>= next) Q
  unfolding ◌>>=◌
  the-Returns none next r = record { apply = λ value after h. absurd (ground arith) }
  the-Returns (some a) next r = record { apply = (r a refl).apply }

  pub pure-Returns :
      (checks : Result A) (next : A → Tx B)
      → ((value : A) → checks ≡ ok value → Returns stamp before (next value) Q)
      → Returns stamp before (pure checks >>= next) Q
  unfolding ◌>>=◌
  pure-Returns (err e) next r = record { apply = λ value after h. absurd (ground arith) }
  pure-Returns (ok a) next r = record { apply = (r a refl).apply }

  pub bind-Returns :
      (first : Tx A) (next : A → Tx B) (P : A → Tables → Type 0)
      → Returns stamp before first P
      → ((value : A) (middle : Tables) → P value middle → Returns stamp middle (next value) Q)
      → Returns stamp before (first >>= next) Q
  bind-Returns first next P r n = record {
    apply = λ value after h.
        let (a, middle, e, f) = bind-eq-ok next stamp before first value after h in
        (n a middle (r.apply a middle e)).apply value after f;
  }

module _ {B : Type 0} (stamp : Stamp) (before : Tables) (Q : B → Tables → Type 0) where
  pub require-Returns :
      (test : Bool) (error : Error) (next : Tx B)
      → (test ≡ true → Returns stamp before next Q)
      → Returns stamp before (require test error >> next) Q
  unfolding ◌>>=◌
  require-Returns true error next r = record { apply = (r refl).apply }
  require-Returns false error next r = record { apply = λ value after h. absurd (ground arith) }

  pub give-Returns : (value : B) → Q value before → Returns stamp before (give value) Q
  give-Returns value q = record {
    apply = λ v after h.
        let e : value ≡ v = ground arith in
        let f : before ≡ after = ground arith in subst (λ t. Q v t) f (subst (λ w. Q w before) e q);
  }

pub last-Returns :
    (stamp : Stamp) (before : Tables) (F : Type 0) (test : Bool) (error : Error)
    → (test ≡ true → F)
    → Returns stamp before (require test error) (λ done after. F)
last-Returns stamp before F true error r = record { apply = λ value after h. r refl }
last-Returns stamp before F false error r = record {
  apply = λ value after h. absurd (ground arith);
}

module _ (stamp : Stamp) (before after : Tables) where
  -- A row that was there ends the transaction; for a new one the rest has returned.
  when_inserted-eq-ok :
      {A : Type 0} (result : InsertResult A) (rest : Tx (Unit {0})) (value : InsertResult A)
      → Keeps Same rest
      → when_inserted result rest stamp before ≡ ok (value, after)
      → (before ≡ after)
        × (result ≡ value)
        × (result.inserted ≡ true → rest stamp before ≡ ok (tt, before))
  unfolding ◌>>=◌
  when_inserted-eq-ok {A} result rest value k h = branch result.inserted h
    where
      branch :
          (b : Bool)
          → (if b then rest >> give result else give result) stamp before ≡ ok (value, after)
          → (before ≡ after) × (result ≡ value) × (b ≡ true → rest stamp before ≡ ok (tt, before))
      branch false h = (ground arith, ground arith, λ e. cc)
      branch true h =
          let (done, middle, e, f) =
            bind-eq-ok (λ _. give result) stamp before rest value after h in
          let same : before ≡ middle = k.apply stamp before done middle e in
          (same ∙ ground arith, ground arith, λ _. e ∙ ap (λ (t : Tables). ok (tt, t)) (sym same))

pub when_inserted-Returns :
    {A : Type 0} (stamp : Stamp) (before : Tables) (result : InsertResult A) (rest : Tx (Unit {0}))
    (F : Type 0) (Q : InsertResult A → Tables → Type 0)
    → Keeps Same rest
    → Returns stamp before rest (λ done after. F)
    → ((result.inserted ≡ true → F) → Q result before)
    → Returns stamp before (when_inserted result rest) Q
when_inserted-Returns stamp before result rest F Q k r q = record {
  apply = λ value after h.
      let (same, is, returns) = when_inserted-eq-ok stamp before after result rest value k h in
      subst (λ t. Q value t) same
        (subst (λ v. Q v before) is (q (λ new. r.apply tt before (returns new))));
}
