-- ===== src/Examples/OfMessages.antt =====
-- The messages about a run of the diagnosis graph, on a terminal and in Slack.
use coroner.Base.{String, List, [], ◌∷◌}
use coroner.Base.Text.{decimal}
use coroner.Sink.Render.{Wording}
use coroner.Slack.Blocks.{Fits, code_text, code_text-Fits}
use coroner.Base.Text.{codes, join}

-- Numbers and times in plain decimals, and the reasons by their kind.
abbrev plain : Wording
plain = record {
  two_places = λ m. decimal m;
  time_of_day = λ t. decimal t;
  abstain_reason = λ r. "abstained";
  discard_reason = λ r. "discarded";
}

abbrev log : List String
log = "logs          previous container" ∷ "  | panic: no such host" ∷ []

code_text-Fits_example : Fits (codes (join "\n" log)) (code_text log)
code_text-Fits_example = code_text-Fits log
