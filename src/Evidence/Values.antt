-- ===== src/Evidence/Values.antt =====
-- The values of the evidence classes (`EvidenceClass` of brain/src/coroner_brain/evidence.py).
use coroner.Base.{some, false, ◌==◌, ◌≡◌, refl}
use coroner.Evidence.{
  EvidenceClass, value, of_value, image_pull_with_registry_error, image_pull_without_detail,
  oom_with_limits, oom_without_limits, oom_during_init_with_marker, oom_during_init_without_marker,
  crashloop_with_fatal_log, crashloop_logs_no_error, crashloop_logs_unavailable, unknown,
}

-- A class is found again by its value, which is not empty.
pub of_value-value : (c : EvidenceClass) → of_value (value c) ≡ some c
unfolding of_value value
of_value-value image_pull_with_registry_error = refl
of_value-value image_pull_without_detail = refl
of_value-value oom_with_limits = refl
of_value-value oom_without_limits = refl
of_value-value oom_during_init_with_marker = refl
of_value-value oom_during_init_without_marker = refl
of_value-value crashloop_with_fatal_log = refl
of_value-value crashloop_logs_no_error = refl
of_value-value crashloop_logs_unavailable = refl
of_value-value unknown = refl

pub value-nonempty : (c : EvidenceClass) → (value c == "") ≡ false
unfolding value
value-nonempty image_pull_with_registry_error = refl
value-nonempty image_pull_without_detail = refl
value-nonempty oom_with_limits = refl
value-nonempty oom_without_limits = refl
value-nonempty oom_during_init_with_marker = refl
value-nonempty oom_during_init_without_marker = refl
value-nonempty crashloop_with_fatal_log = refl
value-nonempty crashloop_logs_no_error = refl
value-nonempty crashloop_logs_unavailable = refl
value-nonempty unknown = refl
