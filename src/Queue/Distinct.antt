-- ===== src/Queue/Distinct.antt =====
-- `job_id` is the primary key: no two rows share it, so a statement with `WHERE job_id = ?` meets at
-- most one row.
use mathlib.Core.List.{Memᴰ}
use mathlib.Core.Option
use debot.Base.{
  ◌∙◌, suc, String, ◌≡◌, refl, ap, Bool, true, false, ◌||◌, List, [], ◌∷◌, ◌++◌, map, none, some,
  inl, inr, arith, Bool-cases, find?, count, str_eq, any, eq_iff, All,
}
use debot.Queue.Row.{Row}
use debot.Queue.Sql.{has_id}

pub has_id_self : (r : Row) → has_id r.job_id r ≡ true
has_id_self r = (eq_iff r.job_id r.job_id).1 refl

abbrev pub Distinct : List Row → Type 0
Distinct [] = Unit
Distinct (r ∷ rs) = (any (has_id r.job_id) rs ≡ false) × Distinct rs

abbrev pub KeepsId : (Row → Row) → Type 0
KeepsId f = (r : Row) → (f r).job_id ≡ r.job_id

any-map_id :
    (f : Row → Row)
    → KeepsId f
    → (k : String) (rows : List Row) → any (has_id k) (map f rows) ≡ any (has_id k) rows
any-map_id f keep k [] = refl
any-map_id f keep k (r ∷ rs) = rw (keep r, any-map_id f keep k rs) refl

pub Distinct-map :
    (f : Row → Row) → KeepsId f → (rows : List Row) → Distinct rows → Distinct (map f rows)
Distinct-map f keep [] d = tt
Distinct-map f keep (r ∷ rs) d =
    (rw (keep r, any-map_id f keep r.job_id rs) d.0, Distinct-map f keep rs d.1)

any-append :
    (test : Row → Bool) (xs : List Row) (y : Row)
    → any test (xs ++ y ∷ []) ≡ (any test xs || test y)
any-append test [] y = ground arith
any-append test (x ∷ xs) y = ground (arith, any-append test xs y)

-- Appending a row whose id is new keeps the ids distinct.
pub Distinct-append :
    (rows : List Row) (r : Row)
    → Distinct rows
    → any (has_id r.job_id) rows ≡ false
    → Distinct (rows ++ r ∷ [])
Distinct-append [] r d h = (refl, tt)
Distinct-append (x ∷ xs) r d h = (
  rw (any-append (has_id x.job_id) xs r)
      (ground (arith, d.0, eq_iff x.job_id r.job_id, eq_iff r.job_id x.job_id)),
  Distinct-append xs r d.1 (ground arith),
)

find?_of_any :
    (k : String) (rows : List Row) → any (has_id k) rows ≡ false → find? (has_id k) rows ≡ none
find?_of_any k [] h = refl
find?_of_any k (r ∷ rs) h = ground (arith, find?_of_any k rs)

any_of_Memᴰ :
    (test : Row → Bool) (r : Row) (rows : List Row)
    → Memᴰ r rows
    → test r ≡ true
    → any test rows ≡ true
any_of_Memᴰ test r [] m h = elim m [ ]
any_of_Memᴰ test r (x ∷ xs) (Memᴰ.head e) h = rw (← e, h) refl
any_of_Memᴰ test r (x ∷ xs) (Memᴰ.tail m) h = ground (arith, any_of_Memᴰ test r xs m h)

-- The row with the id of a member is that member.
pub find?-has_id :
    (r : Row) (rows : List Row)
    → Distinct rows
    → Memᴰ r rows
    → find? (has_id r.job_id) rows ≡ some r
find?-has_id r [] d m = elim m [ ]
find?-has_id r (x ∷ xs) d (Memᴰ.head e) = rw (← e, has_id_self r) refl
find?-has_id r (x ∷ xs) d (Memᴰ.tail m) = ground (
  arith,
  find?-has_id r xs d.1 m,
  d.0,
  eq_iff x.job_id r.job_id,
  any_of_Memᴰ (has_id r.job_id) r xs m (has_id_self r),
)

pub find?-map_id :
    (f : Row → Row)
    → KeepsId f
    → (k : String) (rows : List Row) (r : Row) → find? (has_id k) rows ≡ some r
    → find? (has_id k) (map f rows) ≡ some (f r)
find?-map_id f keep k [] r h = cc
find?-map_id f keep k (x ∷ xs) r h =
    let same = ap (λ j. str_eq j k) (keep x) in
    elim (Bool-cases (has_id k x)) [
      | inl hit ↦ rw (same ∙ hit) (ap (Option.map f) (rw hit at h))
      | inr miss ↦ rw (same ∙ miss) (find?-map_id f keep k xs r (rw miss at h))
    ]

-- Where a test implies an id, at most one row passes it.
abbrev pub Names : String → (Row → Bool) → Type 0
Names k test = (r : Row) → test r ≡ true → has_id k r ≡ true

count_of_any :
    (k : String) (test : Row → Bool) (rows : List Row)
    → Names k test
    → any (has_id k) rows ≡ false
    → count test rows ≡ 0
count_of_any k test [] names h = refl
count_of_any k test (r ∷ rs) names h = ground (arith, count_of_any k test rs names, names r)

pub count-eq-one :
    (r : Row) (test : Row → Bool) (rows : List Row)
    → Names r.job_id test
    → Distinct rows
    → Memᴰ r rows
    → test r ≡ true
    → count test rows ≡ 1
count-eq-one r test [] names d m h = elim m [ ]
count-eq-one r test (x ∷ xs) names d (Memᴰ.head e) h =
    rw (← e, h)
      (ap suc (count_of_any r.job_id test xs names (rw (ap (λ (y : Row). y.job_id) e) d.0)))
count-eq-one r test (x ∷ xs) names d (Memᴰ.tail m) h = ground (
  arith,
  count-eq-one r test xs names d.1 m h,
  names x,
  d.0,
  eq_iff x.job_id r.job_id,
  any_of_Memᴰ (has_id r.job_id) r xs m (has_id_self r),
)

-- Where a test implies an id, what holds of the row with that id holds of all rows that pass.
pub All-row {ℓ} :
    (P : Row → Type ℓ) (r : Row) (test : Row → Bool) (rows : List Row)
    → Names r.job_id test
    → Distinct rows
    → Memᴰ r rows
    → P r
    → All (λ x. test x ≡ true → P x) rows
All-row P r test [] names d m p = tt
All-row P r test (x ∷ xs) names d (Memᴰ.head e) p =
    ((λ _. rw e at p), none_pass xs (rw (ap (λ (y : Row). y.job_id) e) d.0))
  where
    none_pass :
        (ys : List Row) → any (has_id r.job_id) ys ≡ false → All (λ y. test y ≡ true → P y) ys
    none_pass [] h = tt
    none_pass (y ∷ ys) h = ((λ t. absurd (ground (arith, names y t))), none_pass ys (ground arith))
All-row P r test (x ∷ xs) names d (Memᴰ.tail m) p = (other, All-row P r test xs names d.1 m p)
  where
    other : test x ≡ true → P x
    other t = absurd (
        ground (
          arith,
          names x t,
          d.0,
          eq_iff x.job_id r.job_id,
          any_of_Memᴰ (has_id r.job_id) r xs m (has_id_self r),
        ))
