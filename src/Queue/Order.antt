-- ===== src/Queue/Order.antt =====
-- The order in which ready jobs are claimed: `ORDER BY … LIMIT 1` yields a least member.
use mathlib.Core.List.{Memᴰ}
use debot.Base.{
  ◌≡◌, refl, Bool, true, false, List, [], ◌∷◌, Option, none, some, inl, inr, arith, if◌then◌else◌,
  All, Bool-cases, satisfying, str_ltb_irrefl, str_ltb_trans,
}
use debot.Queue.Row.{Row}
use debot.Queue.Sql.{before, earliest, first_in_order}

pub before_irrefl : (a : Row) → before a a ≡ false
unfolding before
before_irrefl a = ground (arith, str_ltb_irrefl a.job_id)

pub before_trans : (a b c : Row) → before a b ≡ true → before b c ≡ true → before a c ≡ true
unfolding before
before_trans a b c h k = ground (arith, str_ltb_trans a.job_id b.job_id c.job_id)

abbrev better : Row → Row → Row
better x r = if before x r then x else r

better-Memᴰ : (r x : Row) (xs : List Row) → Memᴰ (better x r) (r ∷ x ∷ xs)
better-Memᴰ r x xs = elim (Bool-cases (before x r)) [
  | inl h ↦ Memᴰ.tail (Memᴰ.head (rw h))
  | inr h ↦ Memᴰ.head (rw h)
]

earliest-Memᴰ : (r : Row) (xs : List Row) → Memᴰ (earliest r xs) (r ∷ xs)
unfolding earliest
earliest-Memᴰ r [] = Memᴰ.head refl
earliest-Memᴰ r (x ∷ xs) = weaken (earliest-Memᴰ (better x r) xs)
  where
    weaken :
        Memᴰ (earliest (better x r) xs) (better x r ∷ xs)
        → Memᴰ (earliest (better x r) xs) (r ∷ x ∷ xs)
    weaken (Memᴰ.head e) = rw e (better-Memᴰ r x xs)
    weaken (Memᴰ.tail m) = Memᴰ.tail (Memᴰ.tail m)

-- nothing beats the result that did not beat what it replaced
earliest_keeps : (y r : Row) (xs : List Row) → before y r ≡ false → before y (earliest r xs) ≡ false
unfolding earliest
earliest_keeps y r [] h = h
earliest_keeps y r (x ∷ xs) h =
    earliest_keeps y (better x r) xs (ground (arith, before_trans y x r))

earliest_least : (r : Row) (xs : List Row) → All (λ y. before y (earliest r xs) ≡ false) (r ∷ xs)
unfolding earliest
earliest_least r [] = (before_irrefl r, tt)
earliest_least r (x ∷ xs) =
    let rest = earliest_least (better x r) xs in
    let first =
      earliest_keeps r (better x r) xs (ground (arith, before_irrefl r, before_trans r x r)) in
    let second = earliest_keeps x (better x r) xs (ground (arith, before_irrefl x)) in
    (first, (second, rest.1))

selected-cons :
    (test : Row → Bool) (r x : Row) (xs : List Row)
    → (Memᴰ r (satisfying test xs) → Memᴰ r xs × (test r ≡ true))
    → test x ≡ true
    → Memᴰ r (x ∷ satisfying test xs)
    → Memᴰ r (x ∷ xs) × (test r ≡ true)
selected-cons test r x xs rec hit (Memᴰ.head e) = (Memᴰ.head e, rw e hit)
selected-cons test r x xs rec hit (Memᴰ.tail m) = let (n, t) = rec m in (Memᴰ.tail n, t)

satisfying-Memᴰ :
    (test : Row → Bool) (r : Row) (rows : List Row)
    → Memᴰ r (satisfying test rows)
    → Memᴰ r rows × (test r ≡ true)
satisfying-Memᴰ test r [] m = elim m [ ]
satisfying-Memᴰ test r (x ∷ xs) m = elim (Bool-cases (test x)) [
  | inl hit ↦ selected-cons test r x xs (satisfying-Memᴰ test r xs) hit (rw hit at m)
  | inr miss ↦ let (n, t) = satisfying-Memᴰ test r xs (rw miss at m) in (Memᴰ.tail n, t)
]

-- every member that passes the test is among those selected
All-satisfying :
    (P : Row → Type 0) (test : Row → Bool) (rows : List Row)
    → All P (satisfying test rows)
    → All (λ r. test r ≡ true → P r) rows
All-satisfying P test [] h = tt
All-satisfying P test (x ∷ xs) h = elim (Bool-cases (test x)) [
  | inl hit ↦
      let (p, rest) = (let k : P x × All P (satisfying test xs) = (rw hit at h) in k) in
      ((λ _. p), All-satisfying P test xs rest)
  | inr miss ↦ ((λ hit. absurd (cc)), All-satisfying P test xs (rw miss at h))
]

none_pass :
    (test : Row → Bool) (rows : List Row)
    → All (λ x. test x ≡ true → ⊥) rows
    → All (λ x. test x ≡ false) rows
none_pass test [] h = tt
none_pass test (x ∷ xs) h = (ground (arith, h.0), none_pass test xs h.1)

-- What `SELECT … ORDER BY … LIMIT 1` yields.
pub record IsFirst (test : Row → Bool) (rows : List Row) (r : Row) : Type 0 where
  pub member : Memᴰ r rows
  pub passes : test r ≡ true
  pub least : All (λ x. test x ≡ true → before x r ≡ false) rows

abbrev pub Selected : (Row → Bool) → List Row → Option Row → Type 0
Selected test rows none = All (λ x. test x ≡ false) rows
Selected test rows (some r) = IsFirst test rows r

first_cases :
    (test : Row → Bool) (rows selected : List Row)
    → ((r : Row) → Memᴰ r selected → Memᴰ r rows × (test r ≡ true))
    → ((P : Row → Type 0) → All P selected → All (λ x. test x ≡ true → P x) rows)
    → Selected test rows (elim selected [ [] ↦ none | r ∷ rs ↦ some (earliest r rs) ])
first_cases test rows [] sound complete = none_pass test rows (complete (λ _. ⊥) tt)
first_cases test rows (r ∷ rs) sound complete =
    let (m, t) = sound (earliest r rs) (earliest-Memᴰ r rs) in
    record { member = m; passes = t; least = complete _ (earliest_least r rs) }

-- The result is a least member among those that pass, and there is none only where none passes.
pub first_in_order-Selected :
    (test : Row → Bool) (rows : List Row) → Selected test rows (first_in_order test rows)
unfolding first_in_order
first_in_order-Selected test rows =
    first_cases test rows (satisfying test rows) (λ r. satisfying-Memᴰ test r rows)
      (λ P. All-satisfying P test rows)
