-- ===== src/Sink/Render.antt =====
-- The text of a message, the observed block (`render_observed` of
-- brain/src/coroner_brain/sink.py).
use coroner.Base.{
  ℕ, ◌+◌, ◌-◌, ◌/◌, ◌%◌, String, Bool, not, Option, none, some, List, [], ◌∷◌, concat, map, keep,
  length, drop, ltb, eqb, if◌then◌else◌, ◌==◌,
}
use coroner.Base.Text.{cat, parts, join, or_text, lower_bool, decimal, rstrip_code, split_on}
use coroner.Contract.{
  ℤ, pos, negsuc, Instant, Micro, Owner, Terminated, Container, Event, Logs, NodeSummary, Contract,
}
use coroner.Diagnosis.{AbstainReason, DiscardReason}

-- The texts that are made elsewhere: a number with two decimals, the time of day, and the reasons
-- of an abstention and of a discard, which are data here.
pub record Wording : Type 0 where
  pub two_places : Micro → String
  pub time_of_day : Instant → String
  pub abstain_reason : Option AbstainReason → String
  pub discard_reason : Option DiscardReason → String

abbrev observed_log_lines : ℕ
observed_log_lines = 20

-- `[line]` under a condition
abbrev only_if : Bool → List String → List String
only_if b lines = if b then lines else []

abbrev pub two_digits : ℕ → String
two_digits n = if ltb n 10 then cat "0" (decimal n) else decimal n

unfoldable pub age : Micro → String
age seconds =
    let s = seconds / 1000000 in
    if ltb s 60
    then parts (decimal s ∷ "s" ∷ [])
    else if ltb s 3600
    then parts (decimal (s / 60) ∷ "m" ∷ two_digits (s % 60) ∷ "s" ∷ [])
    else parts (decimal (s / 3600) ∷ "h" ∷ two_digits (s % 3600 / 60) ∷ "m" ∷ [])

abbrev signed : ℤ → String
signed (pos n) = decimal n
signed (negsuc n) = cat "-" (decimal (n + 1))

unfoldable pub event_line : Event → String
event_line e =
    let aggregated = if e.aggregated == "" then "" else cat " " e.aggregated in
    parts ("  " ∷ e.type ∷ " " ∷ e.reason ∷ aggregated ∷ "   " ∷ e.message ∷ [])

abbrev owner_line : Option Owner → String
owner_line none = "owner         none (bare pod)"
owner_line (some o) =
    let revision = if o.revision == "" then "" else cat "   revision " o.revision in
    parts ("owner         " ∷ o.kind ∷ "/" ∷ o.name ∷ revision ∷ [])

abbrev waiting_lines : Container → List String
waiting_lines c =
    let message =
      only_if (not (c.waiting_message == "")) (cat "              " c.waiting_message ∷ []) in
    only_if (not (c.waiting_reason == ""))
      (cat "state         waiting: " c.waiting_reason ∷ message)

abbrev exit_lines : Option Terminated → List String
exit_lines none = []
exit_lines (some t) =
    parts
      ("last exit     code " ∷ signed t.exit_code ∷ "   reason " ∷ or_text t.reason "(none)" ∷ [])
    ∷ only_if (not (t.message == "")) (cat "              " t.message ∷ [])

abbrev memory_lines : Container → List String
memory_lines c =
    if c.memory_limit == ""
    then only_if (not (c.memory_request == ""))
        (parts ("memory        limit (none)   request " ∷ c.memory_request ∷ []) ∷ [])
    else parts (
        "memory        limit "
        ∷ c.memory_limit
        ∷ "   request "
        ∷ or_text c.memory_request "(none)"
        ∷ [])
      ∷ []

abbrev pressures : NodeSummary → List String
pressures n = concat (
    only_if n.memory_pressure ("memory" ∷ [])
    ∷ only_if n.disk_pressure ("disk" ∷ [])
    ∷ only_if n.pid_pressure ("pid" ∷ [])
    ∷ [])

abbrev node_lines : NodeSummary → List String
node_lines n = only_if (not (n.name == "")) (
    parts (
      "node status   ready "
      ∷ lower_bool n.ready
      ∷ "   pressure "
      ∷ or_text (join ", " (pressures n)) "none"
      ∷ [])
    ∷ [])

abbrev event_lines : List Event → List String
event_lines [] = "events        no Warning events" ∷ []
event_lines (e ∷ es) = "events (Warning)" ∷ map event_line (e ∷ es)

abbrev log_source : Logs → String
log_source logs = if logs.from_previous then "previous" else "current"

unfoldable pub log_lines : Logs → List String
unfolding rstrip_code split_on
log_lines logs =
    let (line, lines) = split_on 10 (rstrip_code 10 logs.content) in
    let body = line ∷ lines in
    let shown = drop (length body - observed_log_lines) body in
    let note =
      if ltb (length shown) (length body)
      then parts
          (", last " ∷ decimal (length shown) ∷ " of " ∷ decimal (length body) ∷ " lines" ∷ [])
      else "" in
    let cut = if logs.truncated then ", tail truncated by the agent" else "" in
    if not logs.available
    then "logs          unavailable: nothing could be retrieved" ∷ []
    else if logs.empty
    then parts ("logs          retrieved from the " ∷ log_source logs ∷ " container and empty" ∷ [])
      ∷ []
    else parts ("logs          " ∷ log_source logs ∷ " container" ∷ note ∷ cut ∷ [])
      ∷ map (cat "  | ") shown

abbrev redacted_lines : Contract → List String
redacted_lines c = only_if (not (eqb c.redacted_count 0)) (
    parts (
      "redacted      "
      ∷ decimal c.redacted_count
      ∷ " value(s) withheld by the agent: "
      ∷ join ", " c.redacted_kinds
      ∷ [])
    ∷ [])

module _ (f : Wording) where
  unfoldable pub render_observed : Contract → List String
  unfolding age
  render_observed contract =
      let pod = contract.pod in
      let c = contract.container in
      concat (
        (parts ("pod           " ∷ pod.namespace ∷ "/" ∷ pod.name ∷ [])
          ∷ parts (
              "node          "
              ∷ or_text pod.node_name "(unscheduled)"
              ∷ "   phase "
              ∷ pod.phase
              ∷ "   age "
              ∷ age pod.age_seconds
              ∷ [])
          ∷ owner_line contract.owner
          ∷ parts (
              "container     "
              ∷ c.name
              ∷ "   image "
              ∷ c.image
              ∷ "   restarts "
              ∷ decimal c.restart_count
              ∷ [])
          ∷ [])
        ∷ waiting_lines c
        ∷ exit_lines c.last_terminated
        ∷ memory_lines c
        ∷ only_if (ltb 0 c.restart_count)
            (parts ("crash rate    " ∷ f.two_places c.crashes_per_minute ∷ " per minute" ∷ []) ∷ [])
        ∷ node_lines contract.node
        ∷ event_lines (keep (λ e. e.type == "Warning") contract.events)
        ∷ log_lines contract.logs
        ∷ redacted_lines contract
        ∷ [])
