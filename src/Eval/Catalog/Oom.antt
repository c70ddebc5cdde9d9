-- ===== src/Eval/Catalog/Oom.antt =====
-- The incidents that are killed for memory (`_alloc_script`, `WHY_TRUTH` and `OOM` of eval/catalog.py).
use coroner.Base.{
  ℕ, ◌+◌, ◌*◌, ◌/◌, suc, String, Bool, true, false, List, [], ◌∷◌, ◌++◌, if◌then◌else◌, ltb, ◌==◌,
  map,
}
use coroner.Base.Text.{parts, decimal}
use coroner.Eval.Catalog.{Incident, rubric, oom, memory}

abbrev say_of : Bool → String
say_of logs = if logs then "echo \"$1\"" else ":"

-- `_alloc_script`
unfoldable pub alloc_script : ℕ → String → Bool → String
alloc_script limit_mib why logs =
    let size = decimal (limit_mib * 3 / 2) in
    let steady = if ltb (limit_mib / 4) 1 then 1 else limit_mib / 4 in
    let burst = limit_mib * 2 in
    let head = parts ("say() { " ∷ say_of logs ∷ "; }\nsay \"[startup] worker booting\"\n" ∷ []) in
    if why == "limit_too_low"
    then parts (
        head ∷ "say \"[index] loading " ∷ size
        ∷ "MiB working set\"\nchunk=$(head -c 1048576 /dev/zero | tr '\\0' 'x')\nacc=\"\"; i=0\nwhile [ $i -lt "
        ∷ size ∷ " ]; do acc=\"$acc$chunk\"; i=$((i+1)); done\nsay \"[index] loaded\"\nsleep 3600\n"
        ∷ [])
    else if why == "leak"
    then parts (
        head
        ∷ "chunk=$(head -c 4194304 /dev/zero | tr '\\0' 'x')\nacc=\"\"; i=0\nwhile true; do acc=\"$acc$chunk\"; i=$((i+1)); say \"[cache] entries retained: $((i*4))MiB, none evicted\"; sleep 1; done\n"
        ∷ [])
    else parts (
        head
        ∷ "chunk=$(head -c 1048576 /dev/zero | tr '\\0' 'x')\nacc=\"\"; i=0\nwhile [ $i -lt "
        ∷ decimal steady
        ∷ " ]; do acc=\"$acc$chunk\"; i=$((i+1)); done\nsay \"[worker] steady at "
        ∷ decimal steady
        ∷ "MiB, serving\"\nsleep 15\nsay \"[worker] tenant bulk export requested, "
        ∷ decimal burst
        ∷ "MiB\"\nwhile [ $i -lt "
        ∷ decimal (burst + steady)
        ∷ " ]; do acc=\"$acc$chunk\"; i=$((i+1)); done\nsleep 3600\n"
        ∷ [])

-- `WHY_TRUTH`, which has these three keys
abbrev why_truth : String → String
why_truth why =
    if why == "limit_too_low"
    then "the limit is below the workload's steady requirement"
    else if why == "leak"
    then "the process retains memory without bound; any limit would be exhausted"
    else "a one-off burst exceeds the limit; the steady state fits"

-- `why.replace("_", "-")`, of those keys
abbrev dashed : String → String
dashed why = if why == "limit_too_low" then "limit-too-low" else why

abbrev built : ℕ × String × Bool → Incident
built (mib, why, logs) =
    let limit = parts (decimal mib ∷ "Mi" ∷ []) in
    let style = if logs then "logs" else "silent" in
    oom (parts ("oom-" ∷ dashed why ∷ "-" ∷ decimal mib ∷ "mi-" ∷ style ∷ [])) limit why
      (parts ("killed at " ∷ limit ∷ "; " ∷ why_truth why ∷ [])) (alloc_script mib why logs) memory
      false

abbrev pub runtime : List Incident
runtime = map built (
    (32, "limit_too_low", true)
    ∷ (64, "limit_too_low", true)
    ∷ (128, "limit_too_low", false)
    ∷ (256, "limit_too_low", true)
    ∷ (48, "limit_too_low", false)
    ∷ (64, "leak", true)
    ∷ (128, "leak", true)
    ∷ (32, "leak", false)
    ∷ (96, "leak", true)
    ∷ (64, "spike", true)
    ∷ (128, "spike", true)
    ∷ (256, "spike", false)
    ∷ (80, "spike", true)
    ∷ [])

-- the limit, its lower case, and the command
abbrev started : ℕ → List (String × String × String) → List Incident
started n [] = []
started n ((limit, low, command) ∷ rest) =
    oom (parts ("oom-init-" ∷ low ∷ "-" ∷ decimal n ∷ [])) limit "init"
      (parts (
        "the " ∷ limit
        ∷ " limit is below what the container runtime needs to start; init is OOM-killed" ∷ []))
      command (rubric (("memory" ∷ "oom" ∷ []) ∷ ("limit" ∷ "init" ∷ "start" ∷ []) ∷ []) []) true
    ∷ started (suc n) rest

abbrev pub during_init : List Incident
during_init = started 1 (
    ("1Mi", "1mi", "echo alive; sleep 3600")
    ∷ ("2Mi", "2mi", "echo alive; sleep 3600")
    ∷ ("3Mi", "3mi", "sleep 3600")
    ∷ ("2Mi", "2mi", "redis-server --save ''")
    ∷ ("1Mi", "1mi", "sleep 3600")
    ∷ ("2Mi", "2mi", "cat /dev/null; sleep 3600")
    ∷ ("3Mi", "3mi", "echo starting; redis-server")
    ∷ ("2Mi", "2mi", "sh -c 'sleep 3600'")
    ∷ [])

abbrev pub oom_killed : List Incident
oom_killed = runtime ++ during_init
