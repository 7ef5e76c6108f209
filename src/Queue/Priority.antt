-- ===== src/Queue/Priority.antt =====
-- `narrative_job_priority` (src/debot4/v6/narrative/job_priority.py). The registry is an argument, as in
-- the source; instants are microseconds.
use debot.Base.{
  ◌⊎◌, leb, subst, ℕ, ◌+◌, ◌≤◌, String, ◌≡◌, refl, Bool, true, false, Option, none, some, arith,
  Result, ok, err, value_error, if◌then◌else◌, ltb, Bool-cases, inl, inr, in_range,
}

-- What the rule reads of each kind of payload.
pub data JobInput : Type 0 where
  x_post : (author : String) (created_at : ℕ) → JobInput
  telegram_post : (channel : String) (created_at : ℕ) → JobInput
  debot_signal : (kol_buy_qualified : Bool) (available_at : ℕ) → JobInput
  market_anomaly : (observed_at : ℕ) → JobInput

-- The priorities of the actors that `resolve` and `resolve_telegram` return.
pub record Registry : Type 0 where
  pub resolve : String → ℕ
  pub resolve_telegram : String → Option ℕ

abbrev pub qualified_debot_priority : ℕ
qualified_debot_priority = 6

abbrev pub unqualified_debot_priority : ℕ
unqualified_debot_priority = 40

abbrev pub market_anomaly_priority : ℕ
market_anomaly_priority = 8

abbrev pub realtime_window_us : ℕ
realtime_window_us = 120_000_000

abbrev pub replay_priority : ℕ
replay_priority = 80

abbrev pub larger : ℕ → ℕ → ℕ
larger a b = if ltb a b then b else a

-- the priority of an input whose event is at `event_at`
abbrev pub aged : (priority event_at now : ℕ) → ℕ
aged priority event_at now =
    if ltb (event_at + realtime_window_us) now then larger priority replay_priority else priority

abbrev pub telegram_priority : Option ℕ → ℕ → ℕ → Result ℕ
telegram_priority none event_at now = err value_error
telegram_priority (some priority) event_at now = ok (aged priority event_at now)

unfoldable pub narrative_job_priority : Registry → JobInput → (now : ℕ) → Result ℕ
narrative_job_priority registry (x_post author created_at) now =
    ok (aged (registry.resolve author) created_at now)
narrative_job_priority registry (telegram_post channel created_at) now =
    telegram_priority (registry.resolve_telegram channel) created_at now
narrative_job_priority registry (debot_signal qualified available_at) now = ok (
    aged (if qualified then qualified_debot_priority else unqualified_debot_priority) available_at
      now)
narrative_job_priority registry (market_anomaly observed_at) now =
    ok (aged market_anomaly_priority observed_at now)

-- The event's instant.
abbrev pub event_at : JobInput → ℕ
event_at (x_post author created_at) = created_at
event_at (telegram_post channel created_at) = created_at
event_at (debot_signal qualified available_at) = available_at
event_at (market_anomaly observed_at) = observed_at

-- The registry gives priorities from 1 to 100.
pub record IsRegistry (registry : Registry) : Type 0 where
  pub actor_range : (author : String) → in_range 1 100 (registry.resolve author) ≡ true
  pub channel_range :
      (channel : String) (p : ℕ)
      → registry.resolve_telegram channel ≡ some p
      → in_range 1 100 p ≡ true

-- a priority that `enqueue` takes, and that is low for an old event
abbrev pub IsRanked : (at now priority : ℕ) → Type 0
IsRanked at now priority =
    (in_range 1 100 priority ≡ true)
    × ((leb now (at + realtime_window_us) ≡ true) ⊎ (80 ≤ priority))

given : {A : Type 0} {a b : A} → ◌≡◌ {A = Result A} (ok a) (ok b) → a ≡ b
given h = cc

aged_range :
    (priority at now : ℕ)
    → in_range 1 100 priority ≡ true
    → (in_range 1 100 (aged priority at now) ≡ true)
      × ((leb now (at + realtime_window_us) ≡ true) ⊎ (80 ≤ aged priority at now))
aged_range priority at now h = elim (Bool-cases (ltb (at + realtime_window_us) now)) [
  | inr live ↦ simp live (h, inl (ground arith))
  | inl old ↦ elim (Bool-cases (ltb priority replay_priority)) [
    | inl low ↦ rw (old, low) (refl, inr (omega arith))
    | inr high ↦ rw (old, high) (h, inr (ground arith))
  ]
]

-- Over a registry whose priorities lie between 1 and 100, a priority that is given lies there too, so that
-- `enqueue` takes it; and an event of more than two minutes ago gets at least 80.
pub priority_range :
    (registry : Registry) (input : JobInput) (now priority : ℕ)
    → IsRegistry registry
    → narrative_job_priority registry input now ≡ ok priority
    → (in_range 1 100 priority ≡ true)
      × ((leb now (event_at input + realtime_window_us) ≡ true) ⊎ (80 ≤ priority))
unfolding narrative_job_priority
priority_range registry (x_post author at) now priority h e =
    subst (IsRanked at now) (given e)
      (aged_range (registry.resolve author) at now (h.actor_range author))
priority_range registry (telegram_post channel at) now priority h e = go _ refl e
  where
    go :
        (o : Option ℕ)
        → registry.resolve_telegram channel ≡ o
        → telegram_priority o at now ≡ ok priority
        → (in_range 1 100 priority ≡ true)
          × ((leb now (at + realtime_window_us) ≡ true) ⊎ (80 ≤ priority))
    go none r e = cc
    go (some p) r e =
        subst (IsRanked at now) (given e) (aged_range p at now (h.channel_range channel p r))
priority_range registry (debot_signal true at) now priority h e =
    subst (IsRanked at now) (given e) (aged_range qualified_debot_priority at now refl)
priority_range registry (debot_signal false at) now priority h e =
    subst (IsRanked at now) (given e) (aged_range unqualified_debot_priority at now refl)
priority_range registry (market_anomaly at) now priority h e =
    subst (IsRanked at now) (given e) (aged_range market_anomaly_priority at now refl)
