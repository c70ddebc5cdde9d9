-- ===== src/Sink/Status.antt =====
-- What has been recorded against a row since it was delivered (`render_status` of
-- brain/src/coroner_brain/sink.py).
use Prim.Native.Char.{code}
use Prim.Native.String.{◌++◌}
use coroner.Base.{
  concat, String, Option, none, some, List, [], ◌∷◌, eqb, or_else, if◌then◌else◌, ◌==◌, ◌≡◌, refl,
}
use coroner.Base.Text.{first_codes}
use coroner.Contract.{Instant}
use coroner.Ledger.{Row}

-- `s.replace("T", " ")`
unfoldable spaced : String → String
spaced String.[] = ""
spaced (String.◌∷◌ c s) =
    if eqb (code c) 84 then String.◌∷◌ " " (spaced s) else String.◌∷◌ c (spaced s)

abbrev date_text : (Instant → String) → Option Instant → String
date_text isoformat none = ""
date_text isoformat (some t) = isoformat t

decision_line : String → String → Row → String
decision_line decision when row =
    if decision == "rejected"
    then "rejected at " ++ (when ++ (": " ++ or_else row.decision_reason ""))
    else if decision == "edited"
    then "edited at " ++ (when ++ (", action to execute: " ++ or_else row.decision_action ""))
    else if decision == "expired"
    then "expired at " ++ (when ++ " with no decision")
    else decision ++ (" at " ++ when)

-- a line for a column that holds a text
abbrev line_of : (String → String) → Option String → List String
line_of f none = []
line_of f (some s) = if s == "" then [] else f s ∷ []

unfoldable pub render_status : (Instant → String) → Row → List String
unfolding decision_line spaced
render_status isoformat row =
    let when = spaced (first_codes 19 (date_text isoformat row.decision_at)) in
    concat (
      line_of (λ d. decision_line d when row) row.decision
      ∷ line_of (λ s. "rated: " ++ s) row.shadow_rating
      ∷ line_of (λ s. "actual cause recorded: " ++ s) row.actual_cause
      ∷ [])

spaced_test : spaced (first_codes 19 "2026-01-02T03:04:05.123+00:00") ≡ "2026-01-02 03:04:05"
unfolding spaced
spaced_test = refl
