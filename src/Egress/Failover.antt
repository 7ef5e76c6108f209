-- ===== src/Egress/Failover.antt =====
-- How often `open` tries the pool's nodes, and what it counts.
use debot.Base.{
  zero, subst, ℕ, ◌+◌, ◌-◌, ◌≤◌, ◌<◌, suc, String, ◌≡◌, refl, List, [], ◌∷◌, arith, ◌==◌, length,
  Bool-cases, inl, inr, All,
}
use debot.Egress.Pool.{
  EgressNode, NodeRuntime, EgressPool, Answer, responded, http_error, os_error, uncaught, Opened,
  returned, raised_http, raised, egress_error, is_retryable, modify_at, mark_attempt, mark_success,
  mark_failure, places, route, ask, settle_answer, try_nodes, open_,
}

-- the sum of a counter over the nodes
abbrev pub total : (NodeRuntime → ℕ) → List NodeRuntime → ℕ
total f [] = 0
total f (r ∷ rs) = f r + total f rs

total-modify_at :
    (f : NodeRuntime → ℕ) (g : NodeRuntime → NodeRuntime) (by i : ℕ) (nodes : List NodeRuntime)
    → ((r : NodeRuntime) → f (g r) ≡ f r + by)
    → i < length nodes
    → total f (modify_at i g nodes) ≡ total f nodes + by
total-modify_at f g by i [] h lt = absurd (omega (arith, lt))
total-modify_at f g by i (r ∷ rs) h lt = elim (Bool-cases (i == 0)) [
  | inl here ↦ rw here (omega (arith, h r))
  | inr there ↦ rw there (omega (arith, total-modify_at f g by (i - 1) rs h (ground arith)))
]

length-modify_at :
    (g : NodeRuntime → NodeRuntime) (i : ℕ) (nodes : List NodeRuntime)
    → length (modify_at i g nodes) ≡ length nodes
length-modify_at g i [] = refl
length-modify_at g i (r ∷ rs) = elim (Bool-cases (i == 0)) [
  | inl here ↦ rw here refl
  | inr there ↦ rw there (omega (arith, length-modify_at g (i - 1) rs))
]

-- The counters of the pool after a loop of at most `limit` attempts.
pub record Counts (before : List NodeRuntime) (limit : ℕ) (opened : Opened)
    (after : List NodeRuntime) : Type 0 where
  pub same_nodes : length after ≡ length before
  pub bounded : total (λ r. r.attempts) after ≤ total (λ r. r.attempts) before + limit
  pub none_left :
      opened ≡ egress_error → total (λ r. r.attempts) after ≡ total (λ r. r.attempts) before + limit
  pub all_failed :
      opened ≡ egress_error → total (λ r. r.failures) after ≡ total (λ r. r.failures) before + limit
  pub balanced :
      total (λ r. r.successes) after
        + total (λ r. r.failures) after
        + total (λ r. r.attempts) before
      ≤ total (λ r. r.successes) before
        + total (λ r. r.failures) before
        + total (λ r. r.attempts) after

module _ (i : ℕ) (nodes : List NodeRuntime) (lt : i < length nodes) where
  abbrev asked : List NodeRuntime
  asked = modify_at i mark_attempt nodes

  asked_long : i < length asked
  asked_long = omega (arith, lt, length-modify_at mark_attempt i nodes)

  asked_totals :
      (total (λ r. r.attempts) asked ≡ total (λ r. r.attempts) nodes + 1)
      × (total (λ r. r.successes) asked ≡ total (λ r. r.successes) nodes + 0)
      × (total (λ r. r.failures) asked ≡ total (λ r. r.failures) nodes + 0)
  asked_totals = (
    total-modify_at (λ r. r.attempts) mark_attempt 1 i nodes (λ r. refl) lt,
    total-modify_at (λ r. r.successes) mark_attempt 0 i nodes (λ r. omega arith) lt,
    total-modify_at (λ r. r.failures) mark_attempt 0 i nodes (λ r. omega arith) lt,
  )

  -- A failed attempt, and a loop of `limit` attempts after it.
  failed-Counts :
      (error : String) (limit : ℕ) (opened : Opened) (after : List NodeRuntime)
      → Counts (modify_at i (mark_failure error) asked) limit opened after
      → Counts nodes (suc limit) opened after
  failed-Counts error limit opened after h =
      let (a, s, f) = asked_totals in
      let a' =
        total-modify_at (λ r. r.attempts) (mark_failure error) 0 i asked (λ r. omega arith)
          asked_long in
      let s' =
        total-modify_at (λ r. r.successes) (mark_failure error) 0 i asked (λ r. omega arith)
          asked_long in
      let f' =
        total-modify_at (λ r. r.failures) (mark_failure error) 1 i asked (λ r. refl) asked_long in
      record {
        same_nodes = omega (
          arith,
          h.same_nodes,
          length-modify_at mark_attempt i nodes,
          length-modify_at (mark_failure error) i asked,
        );
        bounded = omega (arith, h.bounded, a, a');
        none_left = λ e. omega (arith, h.none_left e, a, a');
        all_failed = λ e. omega (arith, h.all_failed e, f, f');
        balanced = omega (arith, h.balanced, a, s, f, a', s', f');
      }

  -- An attempt that ends the loop.
  served-Counts :
      (limit : ℕ) (opened : Opened)
      → (opened ≡ egress_error → ⊥)
      → Counts nodes (suc limit) opened (modify_at i mark_success asked)
  served-Counts limit opened not_left =
      let (a, s, f) = asked_totals in
      let a' =
        total-modify_at (λ r. r.attempts) mark_success 0 i asked (λ r. omega arith) asked_long in
      let s' = total-modify_at (λ r. r.successes) mark_success 1 i asked (λ r. refl) asked_long in
      let f' =
        total-modify_at (λ r. r.failures) mark_success 0 i asked (λ r. omega arith) asked_long in
      record {
        same_nodes =
            omega
              (arith, length-modify_at mark_attempt i nodes, length-modify_at mark_success i asked);
        bounded = omega (arith, a, a');
        none_left = λ e. absurd (not_left e);
        all_failed = λ e. absurd (not_left e);
        balanced = omega (arith, a, s, f, a', s', f');
      }

  raised-Counts :
      (limit : ℕ) (opened : Opened)
      → (opened ≡ egress_error → ⊥)
      → Counts nodes (suc limit) opened asked
  raised-Counts limit opened not_left =
      let (a, s, f) = asked_totals in
      record {
        same_nodes = length-modify_at mark_attempt i nodes;
        bounded = omega (arith, a);
        none_left = λ e. absurd (not_left e);
        all_failed = λ e. absurd (not_left e);
        balanced = omega (arith, a, s, f);
      }

  settle-Counts :
      (answer : Answer) (limit : ℕ) (next : List NodeRuntime → Opened × List NodeRuntime)
      → ((rs : List NodeRuntime)
          → length rs ≡ length nodes
          → Counts rs limit (next rs).0 (next rs).1)
      → Counts nodes
          (suc limit)
          (settle_answer answer i next asked).0
          (settle_answer answer i next asked).1
  settle-Counts (responded status) limit next h = elim (Bool-cases (is_retryable status)) [
    | inl again ↦ rw again (
        failed-Counts "HTTPError" limit _ _ (
          h _ (
            omega (
              arith,
              length-modify_at mark_attempt i nodes,
              length-modify_at (mark_failure "HTTPError") i asked,
            ))))
    | inr final ↦ rw final (served-Counts limit (returned status) (λ e. cc))
  ]
  settle-Counts (http_error status) limit next h = elim (Bool-cases (is_retryable status)) [
    | inl again ↦ rw again (
        failed-Counts "HTTPError" limit _ _ (
          h _ (
            omega (
              arith,
              length-modify_at mark_attempt i nodes,
              length-modify_at (mark_failure "HTTPError") i asked,
            ))))
    | inr final ↦ rw final (served-Counts limit (raised_http status) (λ e. cc))
  ]
  settle-Counts (os_error name) limit next h = failed-Counts name limit _ _ (
      h _ (
        omega (
          arith,
          length-modify_at mark_attempt i nodes,
          length-modify_at (mark_failure name) i asked,
        )))
  settle-Counts (uncaught name) limit next h = raised-Counts limit (raised name) (λ e. cc)

module _ (answer : EgressNode → (attempts : ℕ) → Answer) where
  try_nodes-Counts :
      (is : List ℕ) (nodes : List NodeRuntime)
      → All (λ i. i < length nodes) is
      → Counts nodes (length is) (try_nodes answer is nodes).0 (try_nodes answer is nodes).1
  unfolding try_nodes
  try_nodes-Counts [] nodes h = record {
    same_nodes = refl;
    bounded = omega arith;
    none_left = λ e. omega arith;
    all_failed = λ e. omega arith;
    balanced = omega arith;
  }
  try_nodes-Counts (i ∷ is) nodes h =
      settle-Counts i nodes h.0 (ask answer nodes i) (length is) (try_nodes answer is)
        (λ rs e. try_nodes-Counts is rs (rw e h.1))

  length-places : (start size offset count : ℕ) → length (places start size offset count) ≡ count
  length-places start size offset zero = refl
  length-places start size offset (suc count) =
      omega (arith, length-places start size (suc offset) count)

  places_inside :
      (start size offset count : ℕ)
      → 0 < size
      → All (λ i. i < size) (places start size offset count)
  places_inside start size offset zero h = tt
  places_inside start size offset (suc count) h =
      (omega (arith, h), places_inside start size (suc offset) count h)

  -- One call of a pool that is not empty makes at most `max_attempts` attempts; it raises
  -- `FxEgressError` only after exactly that many, each counted as a failure; and never does it count
  -- more outcomes than attempts.
  pub open-Counts :
      (pool : EgressPool)
      → 0 < length pool.nodes
      → Counts pool.nodes pool.max_attempts (open_ answer pool).0 (open_ answer pool).1.nodes
  unfolding open_ route
  open-Counts pool h =
      let tried = places pool.cursor (length pool.nodes) 0 pool.max_attempts in
      let (opened, nodes) = try_nodes answer tried pool.nodes in
      subst (λ n. Counts pool.nodes n opened nodes)
        (length-places pool.cursor (length pool.nodes) 0 pool.max_attempts)
        (try_nodes-Counts tried pool.nodes
          (places_inside pool.cursor (length pool.nodes) 0 pool.max_attempts h))
