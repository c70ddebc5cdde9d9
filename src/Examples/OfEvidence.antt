-- ===== src/Examples/OfEvidence.antt =====
-- The evidence gate on a crash loop, with and without its log.
use coroner.Base.{◌<◌, ◌≡◌, refl, ◌⊎◌, true, false, none, some, arith, is_some}
use coroner.Base.Text.{strip, contains, lower, names_any}
use coroner.Contract.{Contract}
use coroner.Evidence.{
  crashloop_with_fatal_log, crashloop_logs_unavailable, ceiling, classify_evidence, gate, value,
  of_value, has_usable_logs, has_fatal_marker, registry_error_present,
}
use coroner.Evidence.Gate.{gate-classify, is_blank}
use coroner.Evidence.Ceilings.{high_ceiling_is_earned}
use coroner.Examples.{crash_loop}

abbrev pub without_log : Contract
without_log = record crash_loop {
  logs = record {
    available = false;
    empty = true;
    from_previous = false;
    truncated = false;
    content = "";
  };
}

crash_loop_test : classify_evidence crash_loop ≡ crashloop_with_fatal_log
unfolding classify_evidence has_usable_logs has_fatal_marker strip names_any contains lower
crash_loop_test = refl

without_log_test : classify_evidence without_log ≡ crashloop_logs_unavailable
unfolding classify_evidence has_usable_logs
without_log_test = refl

passed_test : gate crash_loop crashloop_with_fatal_log ≡ none
unfolding gate has_usable_logs strip ceiling
passed_test = refl

gate-classify_example :
    is_some (gate without_log (classify_evidence without_log))
    ≡ is_blank (classify_evidence without_log)
gate-classify_example = gate-classify without_log

of_value_test : of_value "crashloop_with_fatal_log" ≡ some crashloop_with_fatal_log
unfolding of_value value
of_value_test = refl

crash_loop-ceiling : 500000 < ceiling (classify_evidence crash_loop)
unfolding ceiling classify_evidence has_usable_logs has_fatal_marker strip names_any contains lower
crash_loop-ceiling = omega arith

high_ceiling_is_earned_example :
    (registry_error_present crash_loop ≡ true)
    ⊎ ((crash_loop.failure_type ≡ "OOMKilled") ⊎ (crash_loop.failure_type ≡ "OOMKilledDuringInit"))
    ⊎ ((has_usable_logs crash_loop ≡ true) × (has_fatal_marker crash_loop ≡ true))
high_ceiling_is_earned_example = high_ceiling_is_earned crash_loop crash_loop-ceiling
