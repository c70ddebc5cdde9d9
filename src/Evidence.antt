-- ===== src/Evidence.antt =====
-- Evidence classification and confidence ceilings (brain/src/coroner_brain/evidence.py).
-- A confidence is a count of millionths, so that a ceiling of 0.95 is 950000.
pub mod Gate
pub mod Ceilings
pub mod Values
use coroner.Base.{
  ℕ, String, Bool, true, false, not, ◌&&◌, ◌||◌, Option, none, some, List, [], ◌∷◌, map, ltb, eqb,
  if◌then◌else◌, is_some, any, ◌==◌,
}
use coroner.Base.Text.{codes, lower, strip, contains, names_any}
use coroner.Contract.{ℤ, pos, negsuc, Micro, Terminated, Event, Contract}

pub data EvidenceClass : Type 0 where
  image_pull_with_registry_error image_pull_without_detail : EvidenceClass
  oom_with_limits oom_without_limits : EvidenceClass
  oom_during_init_with_marker oom_during_init_without_marker : EvidenceClass
  crashloop_with_fatal_log crashloop_logs_no_error crashloop_logs_unavailable : EvidenceClass
  unknown : EvidenceClass

-- the values of the `StrEnum`
unfoldable pub value : EvidenceClass → String
value image_pull_with_registry_error = "image_pull_with_registry_error"
value image_pull_without_detail = "image_pull_without_detail"
value oom_with_limits = "oom_with_limits"
value oom_without_limits = "oom_without_limits"
value oom_during_init_with_marker = "oom_during_init_with_marker"
value oom_during_init_without_marker = "oom_during_init_without_marker"
value crashloop_with_fatal_log = "crashloop_with_fatal_log"
value crashloop_logs_no_error = "crashloop_logs_no_error"
value crashloop_logs_unavailable = "crashloop_logs_unavailable"
value unknown = "unknown"

abbrev pub all_classes : List EvidenceClass
all_classes =
    image_pull_with_registry_error ∷ image_pull_without_detail ∷ oom_with_limits
    ∷ oom_without_limits ∷ oom_during_init_with_marker ∷ oom_during_init_without_marker
    ∷ crashloop_with_fatal_log ∷ crashloop_logs_no_error ∷ crashloop_logs_unavailable ∷ unknown ∷ []

find_class : String → List EvidenceClass → Option EvidenceClass
find_class s [] = none
find_class s (c ∷ cs) = if value c == s then some c else find_class s cs

-- `EvidenceClass(s)`; `none` is the ValueError
unfoldable pub of_value : String → Option EvidenceClass
unfolding find_class value
of_value s = find_class s all_classes

-- `CEILINGS[evidence_class]`
unfoldable pub ceiling : EvidenceClass → Micro
ceiling image_pull_with_registry_error = 950000
ceiling image_pull_without_detail = 500000
ceiling oom_with_limits = 900000
ceiling oom_without_limits = 600000
ceiling oom_during_init_with_marker = 800000
ceiling oom_during_init_without_marker = 150000
ceiling crashloop_with_fatal_log = 800000
ceiling crashloop_logs_no_error = 400000
ceiling crashloop_logs_unavailable = 150000
ceiling unknown = 300000

abbrev pub abstain_below : Micro
abstain_below = 200000

abbrev pub fatal_markers : List String
fatal_markers =
    "fatal" ∷ "error" ∷ "panic" ∷ "exception" ∷ "traceback" ∷ "refused" ∷ "timeout" ∷ "timed out"
    ∷ "cannot" ∷ "could not" ∷ "unable" ∷ "failed" ∷ "denied" ∷ "unauthorized" ∷ "forbidden"
    ∷ "no such" ∷ "not found" ∷ []

abbrev pub oom_markers : List String
oom_markers =
    "oom-killed" ∷ "oom killed" ∷ "oomkilled" ∷ "out of memory" ∷ "cannot allocate memory" ∷ []

unfoldable pub has_usable_logs : Contract → Bool
has_usable_logs c = c.logs.available && not c.logs.empty && not (strip c.logs.content == "")

unfoldable pub has_fatal_marker : Contract → Bool
has_fatal_marker c = names_any fatal_markers (lower (codes c.logs.content))

abbrev event_texts : List Event → List (List ℕ)
event_texts = map (λ e. lower (codes e.message))

pub names_pull_failure : List ℕ → Bool
names_pull_failure h =
    contains h (codes "failed to pull")
    || contains h (codes "errimagepull")
    || contains h (codes "failed to resolve")

unfoldable pub registry_error_present : Contract → Bool
registry_error_present c =
    any names_pull_failure (lower (codes c.container.waiting_message) ∷ event_texts c.events)

-- the message of the last termination, if there was one, before the events
abbrev termination_texts : Option Terminated → List (List ℕ) → List (List ℕ)
termination_texts none rest = rest
termination_texts (some t) rest = lower (codes t.message) ∷ rest

unfoldable pub oom_marker_present : Contract → Bool
oom_marker_present c = any (names_any oom_markers) (
    lower (codes c.container.waiting_message)
    ∷ termination_texts c.container.last_terminated (event_texts c.events))

unfoldable pub classify_evidence : Contract → EvidenceClass
classify_evidence c =
    if c.failure_type == "ImagePullBackOff"
    then (if registry_error_present c
        then image_pull_with_registry_error
        else image_pull_without_detail)
    else if c.failure_type == "OOMKilled"
    then (if c.container.memory_limit == "" then oom_without_limits else oom_with_limits)
    else if c.failure_type == "OOMKilledDuringInit"
    then (if c.container.memory_limit == ""
        then oom_without_limits
        else if oom_marker_present c
        then oom_during_init_with_marker
        else oom_during_init_without_marker)
    else if c.failure_type == "CrashLoopBackOff"
    then (if not (has_usable_logs c)
        then crashloop_logs_unavailable
        else if has_fatal_marker c
        then crashloop_with_fatal_log
        else crashloop_logs_no_error)
    else unknown

-- The reasons of the gate, each with what its message shows.
pub data GateReason : Type 0 where
  -- the exit code, and whether logs were available
  no_causal_signal : Option ℤ → Bool → GateReason
  init_kill_unnamed : GateReason
  low_ceiling : EvidenceClass → GateReason

-- `exit_code not in INFORMATIVE_EXIT_CODES`
abbrev is_informative : ℤ → Bool
is_informative (pos n) = eqb n 137 || eqb n 139 || eqb n 143
is_informative (negsuc n) = false

abbrev pub exit_code_of : Option Terminated → Option ℤ
exit_code_of none = none
exit_code_of (some t) = some t.exit_code

unfoldable pub is_generic_exit : Option ℤ → Bool
is_generic_exit none = true
is_generic_exit (some n) = not (is_informative n)

abbrev is_unmarked_init : EvidenceClass → Bool
is_unmarked_init oom_during_init_without_marker = true
is_unmarked_init _ = false

-- `none` is `(False, "")`, and `some r` is `(True, r)`
unfoldable pub gate : Contract → EvidenceClass → Option GateReason
unfolding is_generic_exit
gate c cls =
    let exit_code = exit_code_of c.container.last_terminated in
    if c.failure_type == "CrashLoopBackOff" && not (has_usable_logs c) && is_generic_exit exit_code
    then some (no_causal_signal exit_code c.logs.available)
    else if is_unmarked_init cls
    then some init_kill_unnamed
    else if ltb (ceiling cls) abstain_below
    then some (low_ceiling cls)
    else none
