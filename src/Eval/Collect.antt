-- ===== src/Eval/Collect.antt =====
-- The collect phase of the accuracy harness (`pod_state` and `collect` of eval/run.py). The cluster is
-- a parameter: what kubectl, the agent and the clock answer. Times are in microseconds. A contract
-- names its pod by a text, so a member that is not one is read as absent.
pub mod Ends
pub mod Fresh
pub mod Resumes
use coroner.Base.{
  ℕ, zero, suc, ◌+◌, String, Bool, true, false, not, Option, none, some, List, [], ◌∷◌, ◌++◌, map,
  any, drop, length, ltb, eqb, or_else, if◌then◌else◌, ◌==◌, ◌≡◌, refl,
}
use coroner.Base.Text.{codes}
use coroner.Contract.{Micro}
use coroner.Json.{Json, num, str, obj, arr, Items, nil, cons, end, field, lookup}
use coroner.Json.Dumps.{comes_before}
use coroner.Graph.RetryAfter.{digits}
use coroner.Eval.Catalog.{Incident, pod_name, manifest}
use coroner.Eval.Resume.{failed_enough, todo, is_one_of}

abbrev pub namespace : String
namespace = "coroner-eval"

abbrev pub wait_for_failure : Micro
wait_for_failure = 600000000

-- `value.get(key)`, after `or {}`
abbrev pub member : String → Option Json → Option Json
member key (some (obj fields)) = lookup key fields
member key _ = none

abbrev pub text_in : Option Json → String
text_in (some (str s)) = s
text_in _ = ""

-- `int` of a count, 0 if it is absent
abbrev pub count_in : Option Json → ℕ
count_in (some (num text)) = (digits 0 false (codes text)).0
count_in _ = 0

-- `statuses[0]` of a list that is not empty
abbrev first_status : Option Json → Option Json
first_status (some (arr (cons status others))) = some status
first_status _ = none

abbrev pub state_of : Json → Option Json → String × ℕ × String
state_of pod none = (text_in (member "phase" (member "status" (some pod))), 0, "")
state_of pod (some status) = (
  text_in (member "reason" (member "waiting" (member "state" (some status)))),
  count_in (member "restartCount" (some status)),
  text_in (member "reason" (member "terminated" (member "lastState" (some status)))),
)

-- `pod_state`, from what kubectl prints of the pod, if anything: the reason that it waits for, its
-- restarts, and the reason that it ended for
unfoldable pub pod_state : Option Json → String × ℕ × String
unfolding lookup digits
pod_state none = ("", 0, "")
pod_state (some pod) =
    state_of pod (first_status (member "containerStatuses" (member "status" (some pod))))

abbrev pub text_found : Option Json → Option String
text_found (some (str s)) = some s
text_found _ = none

-- `c["pod"]["name"]`
unfoldable pub pod_of_line : Json → Option String
unfolding lookup
pod_of_line c = text_found (member "name" (member "pod" (some c)))

-- The other programs: the clock, the sleep, and kubectl and the agent, where `false` and `none` are
-- an exit status that raises.
pub record Cluster (W : Type 0) : Type 0 where
  pub clock : W → Micro
  pub sleep : Micro → W → W
  pub create_namespace : W → W
  pub apply : Json → W → Bool × W
  pub get_pod : String → W → Option Json × W
  pub scan : W → Option (List Json) × W
  pub delete_pods : List String → W → W

-- `{i.pod_name: i for i in group}`
abbrev pub put_pending : Incident → List Incident → List Incident
put_pending i [] = i ∷ []
put_pending i (j ∷ js) = if pod_name j == pod_name i then i ∷ js else j ∷ put_pending i js

abbrev pub as_pending : List Incident → List Incident → List Incident
as_pending pending [] = pending
as_pending pending (i ∷ group) = as_pending (put_pending i pending) group

-- `sorted` of a set of names
abbrev pub insert_name : String → List String → List String
insert_name s [] = s ∷ []
insert_name s (t ∷ ts) =
    if s == t
    then t ∷ ts
    else if comes_before (codes s) (codes t)
    then s ∷ t ∷ ts
    else t ∷ insert_name s ts

abbrev pub sorted_names : List String → List String
sorted_names [] = []
sorted_names (s ∷ ss) = insert_name s (sorted_names ss)

-- `{"apiVersion": "v1", "kind": "List", "items": docs}`
abbrev pub docs_of : List Incident → Items
docs_of [] = nil
docs_of (i ∷ group) = cons (manifest i namespace) (docs_of group)

abbrev pub manifests : List Incident → Json
manifests group = obj (
    field "apiVersion" (str "v1")
      (field "kind" (str "List") (field "items" (arr (docs_of group)) end)))

-- the set of the pods that the lines name; a line without one raises
abbrev pub with_line : Option String → Option (List String) → Option (List String)
with_line (some name) (some names) = some (name ∷ names)
with_line _ _ = none

abbrev pub names_of : List Json → Option (List String)
names_of [] = some []
names_of (c ∷ cs) = with_line (pod_of_line c) (names_of cs)

-- The file after the lines of the captured contracts of a group; false if a contract raised.
abbrev pub write_line : Option String → List String → Json → Bool × List Json → Bool × List Json
write_line none names c rest = (false, [])
write_line (some name) names c (ok, lines) =
    if is_one_of name names then (ok, c ∷ lines) else (ok, lines)

unfoldable pub lines_to_write : List String → List Json → Bool × List Json
unfolding pod_of_line
lines_to_write names [] = (true, [])
lines_to_write names (c ∷ cs) = write_line (pod_of_line c) names c (lines_to_write names cs)

-- What a collection came to: all of its batches, or what was raised in one.
pub data Ended : Type 0 where
  collected raised : Ended

-- how it ended, the lines of contracts.jsonl, and the cluster
abbrev pub Collection : Type 0 → Type 0
Collection W = Ended × List Json × W

module _ {W : Type 0} (k : Cluster W) where
  -- the inner loop: those of the pending that have not failed
  unfoldable pub poll : List Incident → W → List Incident × W
  unfolding failed_enough
  poll [] w = ([], w)
  poll (i ∷ pending) w =
      let (pod, asked) = k.get_pod (pod_name i) w in
      let (waiting, restarts, last) = pod_state pod in
      let (left, w') = poll pending asked in
      if failed_enough i waiting restarts then (left, w') else (i ∷ left, w')

  -- the loop up to the deadline, in so many rounds at most; `none` is a loop that goes on
  unfoldable pub await_failure : ℕ → Micro → List Incident → W → Option W
  unfolding poll
  await_failure zero deadline pending w = none
  await_failure (suc rounds) deadline [] w = some w
  await_failure (suc rounds) deadline (i ∷ pending) w =
      let (left, polled) = poll (i ∷ pending) w in
      let later = await_failure rounds deadline left (k.sleep 5000000 polled) in
      if ltb (k.clock w) deadline then later else some w

  -- the end of a batch, where the scan came back
  abbrev pub written : List String → Bool × List Json → List Json → W → Collection W
  written names (false, lines) file w = (raised, file ++ lines, w)
  written names (true, lines) file w =
      (collected, file ++ lines, k.delete_pods (sorted_names names) w)

  abbrev pub on_scan : List String → Option (List Json) × W → List Json → Collection W
  on_scan names (none, w) file = (raised, file, w)
  on_scan names (some captured, w) file = written names (lines_to_write names captured) file w

  abbrev pub on_waited : List String → Option W → List Json → Option (Collection W)
  on_waited names none file = none
  on_waited names (some w) file = some (on_scan names (k.scan w) file)

  abbrev pub on_applied : ℕ → List Incident → Bool × W → List Json → Option (Collection W)
  on_applied rounds group (false, w) file = some (raised, file, w)
  on_applied rounds group (true, w) file =
      on_waited (map pod_name group)
        (await_failure rounds (k.clock w + wait_for_failure) (as_pending [] group) w) file

  unfoldable pub collect_batch : ℕ → List Incident → List Json → W → Option (Collection W)
  collect_batch rounds group file w = on_applied rounds group (k.apply (manifests group) w) file

  -- the batches from an outcome on
  abbrev pub Batches : Type 0
  Batches = List Json → W → Option (Collection W)

  abbrev pub go_on : Batches → Option (Collection W) → Option (Collection W)
  go_on others none = none
  go_on others (some (raised, file, w)) = some (raised, file, w)
  go_on others (some (collected, file, w)) = others file w

  unfoldable pub collect_batches : ℕ → List (List Incident) → Batches
  unfolding collect_batch
  collect_batches rounds [] file w = some (collected, file, w)
  collect_batches rounds (group ∷ groups) file w =
      go_on (collect_batches rounds groups) (collect_batch rounds group file w)

-- `todo[start : start + batch]` for each start; the first argument bounds their number
abbrev pub take : ℕ → List Incident → List Incident
take zero is = []
take (suc n) [] = []
take (suc n) (i ∷ is) = i ∷ take n is

abbrev pub in_batches : ℕ → ℕ → List Incident → List (List Incident)
in_batches zero batch is = []
in_batches (suc n) batch [] = []
in_batches (suc n) batch (i ∷ is) = take batch (i ∷ is) ∷ in_batches n batch (drop batch (i ∷ is))

module _ {W : Type 0} (k : Cluster W) where
  abbrev pub from_done : ℕ → ℕ → Option (List String) → List Json → W → Option (Collection W)
  from_done rounds batch none file w = some (raised, file, w)
  from_done rounds batch (some done) file w =
      if eqb batch 0
      then some (raised, file, w)
      else collect_batches k rounds (in_batches (length (todo done)) batch (todo done)) file w

  -- `collect`, on the lines of contracts.jsonl, none if there is no such file
  unfoldable pub collect : ℕ → ℕ → List Json → W → Option (Collection W)
  unfolding collect_batches
  collect rounds batch file w = from_done rounds batch (names_of file) file (k.create_namespace w)
