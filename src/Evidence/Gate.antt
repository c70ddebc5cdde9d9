-- ===== src/Evidence/Gate.antt =====
-- What the evidence gate decides (`gate` of brain/src/coroner_brain/evidence.py).
use coroner.Base.{◌≡◌, ◌⊎◌, Bool, true, false, arith, is_some, ◌==◌, eq_iff}
use coroner.Contract.{Contract}
use coroner.Evidence.{
  EvidenceClass, crashloop_logs_unavailable, oom_during_init_without_marker, ceiling,
  classify_evidence, gate, has_usable_logs,
}

abbrev pub is_blank : EvidenceClass → Bool
is_blank crashloop_logs_unavailable = true
is_blank oom_during_init_without_marker = true
is_blank _ = false

gate-class :
    (c : Contract) (cls : EvidenceClass)
    → (cls ≡ crashloop_logs_unavailable)
      ⊎ ((has_usable_logs c ≡ true) ⊎ ((c.failure_type == "CrashLoopBackOff") ≡ false))
    → is_some (gate c cls) ≡ is_blank cls
unfolding gate ceiling
gate-class c cls h = ground arith

classify_crash_loop :
    (c : Contract)
    → (classify_evidence c ≡ crashloop_logs_unavailable)
      ⊎ ((has_usable_logs c ≡ true) ⊎ ((c.failure_type == "CrashLoopBackOff") ≡ false))
unfolding classify_evidence
classify_crash_loop c = ground (
  arith,
  eq_iff c.failure_type "ImagePullBackOff",
  eq_iff c.failure_type "OOMKilled",
  eq_iff c.failure_type "OOMKilledDuringInit",
  eq_iff c.failure_type "CrashLoopBackOff",
  eq_iff "ImagePullBackOff" "CrashLoopBackOff",
  eq_iff "OOMKilled" "CrashLoopBackOff",
  eq_iff "OOMKilledDuringInit" "CrashLoopBackOff",
)

-- The gate abstains exactly on the two classes that carry no causal signal: a crash loop without
-- usable logs, whatever its exit code, and an init kill that no text names.
pub gate-classify :
    (c : Contract) → is_some (gate c (classify_evidence c)) ≡ is_blank (classify_evidence c)
gate-classify c = gate-class c (classify_evidence c) (classify_crash_loop c)
