-- ===== src/Prompts.antt =====
-- The prompts of the diagnose node (brain/src/coroner_brain/prompts.py), over code points.
mod Texts
use coroner.Base.{
  String, Bool, true, Option, none, some, List, [], ◌∷◌, ◌++◌, ℕ, concat, if◌then◌else◌, ◌==◌, ◌≡◌,
  refl,
}
use coroner.Base.Text.{codes}
use coroner.Json.{Json, num, obj, end, field}
use coroner.Json.Dumps.{dumps_compact}
use Texts.{
  system, image_pull_guidance, crash_loop_guidance, oom_killed_guidance, oom_during_init_guidance,
}

abbrev pub prompt_version : String
prompt_version = "3"

-- `_GUIDANCE.get(failure_type)`
unfoldable pub guidance : String → Option String
guidance failure_type =
    if failure_type == "ImagePullBackOff"
    then some image_pull_guidance
    else if failure_type == "CrashLoopBackOff"
    then some crash_loop_guidance
    else if failure_type == "OOMKilled"
    then some oom_killed_guidance
    else if failure_type == "OOMKilledDuringInit"
    then some oom_during_init_guidance
    else none

abbrev guided : Option String → List ℕ
guided none = codes system
guided (some text) = codes system ++ (codes "\n\nFailure type specific guidance:\n" ++ codes text)

unfoldable pub system_prompt : String → List ℕ
unfolding guidance
system_prompt failure_type = guided (guidance failure_type)

unfoldable pub render_contract : Json → List ℕ
render_contract payload = dumps_compact payload

-- `"\n".join(f"- {f}" for f in failures)`
unfoldable pub listed : List (List ℕ) → List ℕ
listed [] = []
listed (f ∷ []) = codes "- " ++ f
listed (f ∷ g ∷ failures) = codes "- " ++ (f ++ (10 ∷ listed (g ∷ failures)))

-- what a retry adds
unfoldable pub rejected : List (List ℕ) → List ℕ
unfolding listed
rejected [] = []
rejected (f ∷ failures) = concat (
    codes "\n\nYour previous answer was rejected because these citations could not be "
    ∷ codes "verified against the contract above:\n"
    ∷ listed (f ∷ failures)
    ∷ codes "\n\n"
    ∷ codes "Cite only paths and values that are actually present. If that leaves you "
    ∷ codes "unable to determine the cause, say so and lower your confidence."
    ∷ [])

-- the failures are `[]` where there are none to tell
unfoldable pub user_prompt : List ℕ → List (List ℕ) → List ℕ
unfolding rejected
user_prompt contract_json retry_failures =
    codes "Evidence contract:\n" ++ (contract_json ++ rejected retry_failures)

render_contract_test : render_contract (obj (field "a" (num "3") end)) ≡ codes "{\"a\":3}"
unfolding render_contract dumps_compact
render_contract_test = refl
