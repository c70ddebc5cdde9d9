-- ===== src/Evidence/Ceilings.antt =====
-- How the ceiling of an incident depends on the evidence (`classify_evidence` and `CEILINGS`).
use mathlib.Core.List.{map-append}
use coroner.Base.{
  ℕ, ◌≤◌, ◌<◌, ◌≡◌, refl, ◌⊎◌, Bool, true, Option, none, some, List, ◌++◌, arith, any, any-append,
  eq_iff,
}
use coroner.Base.Text.{names_any}
use coroner.Contract.{Contract, Event, Terminated}
use coroner.Evidence.{
  ceiling, classify_evidence, has_usable_logs, has_fatal_marker, registry_error_present,
  oom_marker_present, names_pull_failure, event_texts, termination_texts, oom_markers,
}

abbrev pub with_events : Contract → List Event → Contract
with_events c more = record c { events = c.events ++ more }

any_event :
    (p : List ℕ → Bool) (events more : List Event)
    → any p (event_texts events) ≡ true
    → any p (event_texts (events ++ more)) ≡ true
any_event p events more h = rw (map-append _ events more) (any-append p _ _ h)

any_termination :
    (p : List ℕ → Bool) (t : Option Terminated) (events more : List Event)
    → any p (termination_texts t (event_texts events)) ≡ true
    → any p (termination_texts t (event_texts (events ++ more))) ≡ true
any_termination p none events more h = any_event p events more h
any_termination p (some t) events more h = ground (arith, any_event p events more)

module _ (c : Contract) (more : List Event) where
  registry-with_events :
      registry_error_present c ≡ true → registry_error_present (with_events c more) ≡ true
  unfolding registry_error_present
  registry-with_events h = ground (arith, any_event names_pull_failure c.events more)

  oom-with_events : oom_marker_present c ≡ true → oom_marker_present (with_events c more) ≡ true
  unfolding oom_marker_present
  oom-with_events h =
      ground
        (arith, any_termination (names_any oom_markers) c.container.last_terminated c.events more)

  usable-with_events : has_usable_logs (with_events c more) ≡ has_usable_logs c
  unfolding has_usable_logs
  usable-with_events = refl

  fatal-with_events : has_fatal_marker (with_events c more) ≡ has_fatal_marker c
  unfolding has_fatal_marker
  fatal-with_events = refl

-- More events never lower the confidence that an incident's evidence supports.
ceiling_mono_events :
    (c : Contract) (more : List Event)
    → ceiling (classify_evidence c) ≤ ceiling (classify_evidence (with_events c more))
unfolding ceiling classify_evidence
ceiling_mono_events c more = ground (
  arith,
  registry-with_events c more,
  oom-with_events c more,
  usable-with_events c more,
  fatal-with_events c more,
)

-- A ceiling above one half is earned: the evidence holds a pull error, or the failure is one of
-- the two kinds of memory kill, or usable logs name a failure.
pub high_ceiling_is_earned :
    (c : Contract)
    → 500000 < ceiling (classify_evidence c)
    → (registry_error_present c ≡ true)
      ⊎ ((c.failure_type ≡ "OOMKilled") ⊎ (c.failure_type ≡ "OOMKilledDuringInit"))
      ⊎ ((has_usable_logs c ≡ true) × (has_fatal_marker c ≡ true))
unfolding ceiling classify_evidence
high_ceiling_is_earned c h =
    ground (arith, eq_iff c.failure_type "OOMKilled", eq_iff c.failure_type "OOMKilledDuringInit")
