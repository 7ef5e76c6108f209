-- ===== src/Queue/Validity.antt =====
-- Every row of the table is well formed, and every operation keeps it so: no statement of the queue
-- ever meets an IntegrityError.
use debot.Base.{
  ℕ, ◌≤◌, ◌<◌, ◌≡◌, refl, Bool, true, ◌&&◌, List, [], ◌∷◌, map, inl, inr, arith, ok, if◌then◌else◌,
  All, All-map, Bool-cases, leb, ltb,
}
use debot.Queue.Row.{Row, pending, leased, satisfies_checks}
use debot.Queue.Sql.{update}
use debot.Queue.Changes.{lease_expired, give_up, requeue, recover_expired}

pub record IsRow (r : Row) : Type 0 where
  pub checks : satisfies_checks r ≡ true
  pub budget : r.attempts ≤ r.max_attempts
  pub waiting : r.status ≡ pending → r.attempts < r.max_attempts
  pub tried : r.status ≡ leased → 0 < r.attempts

abbrev pub AreRows : List Row → Type 0
AreRows = All IsRow

-- what UPDATE makes of one row
abbrev pub written : (Row → Bool) → (Row → Row) → Row → Row
written test change r = if test r then change r else r

abbrev pub Keeps : (Row → Bool) → (Row → Row) → Type 0
Keeps test change = (r : Row) → IsRow r → test r ≡ true → IsRow (change r)

-- Over rows that it keeps well formed an UPDATE is a plain map.
pub update-eq-map_of_All :
    (test : Row → Bool) (change : Row → Row) (rows : List Row)
    → All (λ r. test r ≡ true → IsRow (change r)) rows
    → update test change rows ≡ ok (map (written test change) rows)
unfolding update
update-eq-map_of_All test change [] keep = refl
update-eq-map_of_All test change (r ∷ rs) keep = elim (Bool-cases (test r)) [
  | inl hit ↦ rw (hit, (keep.0 hit).checks, update-eq-map_of_All test change rs keep.1) refl
  | inr miss ↦ rw (miss, update-eq-map_of_All test change rs keep.1) refl
]

Keeps-All :
    (test : Row → Bool) (change : Row → Row) (rows : List Row)
    → Keeps test change
    → AreRows rows
    → All (λ r. test r ≡ true → IsRow (change r)) rows
Keeps-All test change [] keep h = tt
Keeps-All test change (r ∷ rs) keep h = (keep r h.0, Keeps-All test change rs keep h.1)

pub update-eq-map :
    (test : Row → Bool) (change : Row → Row) (rows : List Row)
    → Keeps test change
    → AreRows rows
    → update test change rows ≡ ok (map (written test change) rows)
update-eq-map test change rows keep h =
    update-eq-map_of_All test change rows (Keeps-All test change rows keep h)

pub All-written {ℓ} :
    (P : Row → Type ℓ) (test : Row → Bool) (change : Row → Row) (rows : List Row)
    → All P rows
    → All (λ r. test r ≡ true → P (change r)) rows
    → All P (map (written test change) rows)
All-written P test change [] h keep = tt
All-written P test change (r ∷ rs) h keep = (one, All-written P test change rs h.1 keep.1)
  where
    one : P (written test change r)
    one = elim (Bool-cases (test r)) [ inl hit ↦ rw hit (keep.0 hit) | inr miss ↦ rw miss h.0 ]

pub written-IsRow :
    (test : Row → Bool) (change : Row → Row)
    → Keeps test change
    → (r : Row) → IsRow r
    → IsRow (written test change r)
written-IsRow test change keep r h = elim (Bool-cases (test r)) [
  | inl hit ↦ rw hit (keep r h hit)
  | inr miss ↦ rw miss h
]

pub give_up-Keeps :
    (now : ℕ) → Keeps (λ r. lease_expired now r && leb r.max_attempts r.attempts) (give_up now)
unfolding satisfies_checks
give_up-Keeps now r h t = ground arith

pub requeue-Keeps :
    (now : ℕ) → Keeps (λ r. lease_expired now r && ltb r.attempts r.max_attempts) (requeue now)
unfolding satisfies_checks
requeue-Keeps now r h t = ground arith

-- what `_recover_expired` makes of one row
unfoldable pub recovered : ℕ → Row → Row
recovered now r =
    written (λ x. lease_expired now x && ltb x.attempts x.max_attempts) (requeue now)
      (written (λ x. lease_expired now x && leb x.max_attempts x.attempts) (give_up now) r)

pub recovered-IsRow : (now : ℕ) (r : Row) → IsRow r → IsRow (recovered now r)
unfolding recovered
recovered-IsRow now r h =
    written-IsRow _ _ (requeue-Keeps now) _ (written-IsRow _ _ (give_up-Keeps now) r h)

map-map {ℓ} : {A : Type ℓ} (f g : A → A) (xs : List A) → map g (map f xs) ≡ map (λ x. g (f x)) xs
map-map f g [] = refl
map-map f g (x ∷ xs) = rw (map-map f g xs)

-- The recovery of expired leases never fails, and acts on each row by itself.
pub recover_expired-eq-map :
    (now : ℕ) (rows : List Row)
    → AreRows rows
    → recover_expired now rows ≡ ok (map (recovered now) rows)
unfolding recover_expired recovered
recover_expired-eq-map now rows h = rw (update-eq-map _ _ rows (give_up-Keeps now) h) (
    rw
      (update-eq-map _ _ _ (requeue-Keeps now)
        (All-map _ (written-IsRow _ _ (give_up-Keeps now)) rows h))
      (rw (map-map _ _ rows) refl))
