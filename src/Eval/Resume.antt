-- ===== src/Eval/Resume.antt =====
-- The phases of the accuracy harness that go on where they stopped: what is left to collect, and the
-- diagnose phase (`failed_enough`, `wait_from` and `diagnose` of eval/run.py). The brain is a parameter;
-- times are in microseconds.
use coroner.Base.{
  ℕ, zero, suc, ◌+◌, ◌*◌, String, Bool, true, false, not, ◌&&◌, Option, none, some, List, [], ◌∷◌,
  any, keep, drop, length, eqb, leb, if◌then◌else◌, ◌==◌, ◌≡◌, refl,
}
use coroner.Base.Text.{codes, lower, contains, starts_with, is_space}
use coroner.Contract.{Micro, Contract}
use coroner.Diagnosis.{DiscardReason}
use coroner.Verdict.{DiagnoseResponse}
use coroner.Ledger
use coroner.Ledger.{Row, Table}
use coroner.Graph.RetryAfter.{digits, skip_spaces, with_fraction}
use coroner.Eval.Catalog.{Incident, pod_name}
use coroner.Eval.Catalog.All.{all}
use coroner.Eval.Judge.{is_discarded}

abbrev pub min_restarts : ℕ
min_restarts = 3

abbrev pub is_one_of : String → List String → Bool
is_one_of s texts = any (λ t. t == s) texts

unfoldable pub failed_enough : Incident → String → ℕ → Bool
failed_enough i waiting restarts =
    if i.failure_class == "ImagePullBackOff"
    then is_one_of waiting ("ImagePullBackOff" ∷ "ErrImagePull" ∷ "InvalidImageName" ∷ [])
    else leb min_restarts restarts
      && is_one_of waiting ("CrashLoopBackOff" ∷ "RunContainerError" ∷ [])

-- the incidents whose pods have not been captured
unfoldable pub todo : List String → List Incident
unfolding all
todo done = keep (λ i. not (is_one_of (pod_name i) done)) all

-- `(\d+(?:\.\d+)?)s` behind the minutes
seconds_at : List ℕ → Option Micro
unfolding digits with_fraction
seconds_at s =
    let (n, seen, rest) = digits 0 false s in
    let (value, last) = with_fraction n rest in
    if seen && starts_with last (codes "s") then some value else none

abbrev plus : Micro → Option Micro → Option Micro
plus n none = none
plus n (some value) = some (n + value)

-- `(?:(\d+)m)?` in front of it
minutes_at : List ℕ → Option Micro
unfolding digits seconds_at
minutes_at s =
    let (n, seen, rest) = digits 0 false s in
    if seen && starts_with rest (codes "m")
    then plus (n * 60000000) (seconds_at (drop 1 rest))
    else seconds_at s

-- `(?:(\d+)h)?` in front of that
hours_at : List ℕ → Option Micro
unfolding digits minutes_at
hours_at s =
    let (n, seen, rest) = digits 0 false s in
    if seen && starts_with rest (codes "h")
    then plus (n * 3600000000) (minutes_at (drop 1 rest))
    else minutes_at s

after_phrase : List ℕ → Option Micro
unfolding hours_at skip_spaces is_space
after_phrase s =
    let rest = drop 12 s in
    let spaced = skip_spaces rest in
    if eqb (length spaced) (length rest) then none else hours_at spaced

abbrev or_later : Option Micro → Option Micro → Option Micro
or_later none later = later
or_later (some v) later = some v

-- `RETRY_IN.search`, on a text in lower case
search_retry : List ℕ → Option Micro
unfolding after_phrase
search_retry [] = none
search_retry (c ∷ s) =
    let later = search_retry s in
    or_later (if starts_with (c ∷ s) (codes "try again in") then after_phrase (c ∷ s) else none)
      later

unfoldable pub wait_from : String → Option Micro
unfolding search_retry lower
wait_from reason = search_retry (lower (codes reason))

-- The brain as the harness sees it: the ledger that it reads, what a POST of a contract brings, where
-- `none` is an error status, and the text of a discard reason.
pub record Brain (W : Type 0) : Type 0 where
  pub ledger : W → Table
  pub post : Contract → W → Option DiagnoseResponse × W
  pub reason_text : Option DiscardReason → String

-- How the loop over one contract ended, `out_of_rounds` standing for a loop that goes on.
pub data Ended : Type 0 where
  known kept answered unanswered error_status out_of_rounds : Ended

abbrev is_error : Ended → Bool
is_error error_status = true
is_error _ = false

-- `"tokens per" in reason`
abbrev is_limit : String → Bool
is_limit reason = contains (codes reason) (codes "tokens per")

module _ {W : Type 0} (b : Brain W) where
  -- what the ledger says before a POST
  abbrev on_row : Option Row → Option Ended
  on_row none = none
  on_row (some row) =
      if not (is_discarded row.entry.outcome)
      then some known
      else if not (is_limit (b.reason_text row.entry.discard_reason))
      then some kept
      else none

  -- what a wait that is named, or not, makes of a discarded verdict
  abbrev on_wait : Option Micro → Option Ended × Micro
  on_wait none = (some unanswered, 0)
  on_wait (some wait) = (none, wait + 2000000)

  -- what a response ends the loop with, or the sleep before the next round
  abbrev on_response : Option DiagnoseResponse → Option Ended × Micro
  on_response none = (some error_status, 0)
  on_response (some v) =
      if not (is_discarded (some v.outcome))
      then (some answered, 0)
      else on_wait (wait_from (b.reason_text v.discard_reason))

  -- a round that ends the loop, or that sleeps and goes on
  abbrev or_again : Option Ended × Micro → (Ended × List Micro × W) → W → Ended × List Micro × W
  or_again (some ended, slept) again w = (ended, [], w)
  or_again (none, slept) (ended, sleeps, w') w = (ended, slept ∷ sleeps, w')

  abbrev unless_known : Option Ended → (Ended × List Micro × W) → W → Ended × List Micro × W
  unless_known (some ended) posted w = (ended, [], w)
  unless_known none posted w = posted

  -- the loop over one contract, in so many rounds at most: how it ended, and the sleeps
  unfoldable pub diagnose_one : ℕ → Contract → W → Ended × List Micro × W
  unfolding wait_from
  diagnose_one zero c w = (out_of_rounds, [], w)
  diagnose_one (suc rounds) c w =
      let (response, w') = b.post c w in
      let again = diagnose_one rounds c w' in
      unless_known (on_row (Ledger.get c.incident_id (b.ledger w)))
        (or_again (on_response response) again w') w

  -- the phase over the captured contracts; an error status ends it
  unfoldable pub diagnose_all : ℕ → List Contract → W → List Ended × W
  unfolding diagnose_one
  diagnose_all rounds [] w = ([], w)
  diagnose_all rounds (c ∷ cs) w =
      let (ended, sleeps, w') = diagnose_one rounds c w in
      let (others, w'') = diagnose_all rounds cs w' in
      (if is_error ended then (ended ∷ [], w') else (ended ∷ others, w''))

wait_test :
    wait_from "Rate limit reached on tokens per day. Please try again in 1h2m3.5s."
    ≡ some 3723500000
unfolding wait_from
wait_test = refl
