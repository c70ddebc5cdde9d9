-- ===== src/Slack/Blocks.antt =====
-- A whole Slack message (`render_blocks`, `_code` and `summary_text` of
-- brain/src/coroner_brain/slack.py).
use mathlib.Core.List.{append_assoc}
use coroner.Base.{
  ℕ, zero, suc, true, false, ◌+◌, ◌-◌, ◌≤◌, String, ◌≡◌, refl, ap, ◌∙◌, List, [], ◌∷◌, ◌++◌, length,
  length-append, drop, length-drop, ltb, if◌then◌else◌, arith, Bool-cases, inl, inr,
}
use coroner.Base.Text.{codes, parts, join}
use coroner.Sink.{Notice}
use coroner.Sink.Render.{Wording, render_observed}
use coroner.Sink.Message.{render_inferred}
use coroner.Slack.{Block, header, incident_line, fixed, code_section, divider, decision_blocks}

abbrev pub section_limit : ℕ
section_limit = 2900

-- `body[-count:]`
abbrev pub last : ℕ → List ℕ → List ℕ
last count body = drop (length body - count) body

-- the body, cut from the top if it is longer than a section may be
abbrev pub cut_body : List ℕ → List ℕ
cut_body body =
    if ltb section_limit (length body)
    then codes "[cut]\n" ++ last (section_limit - 6) body
    else body

-- `_code`
unfoldable pub code_text : List String → List ℕ
code_text lines = codes "```" ++ (cut_body (codes (join "\n" lines)) ++ codes "```")

abbrev head_text : Notice → String
head_text n =
    let pod = n.contract.pod in
    parts ("Coroner: " ∷ n.verdict.failure_type ∷ " in " ∷ pod.namespace ∷ "/" ∷ pod.name ∷ [])

module _ (f : Wording) where
  -- the lines of the status are empty before a decision
  unfoldable pub render_blocks : Notice → List String → List Block
  unfolding decision_blocks code_text render_observed render_inferred
  render_blocks n status =
      header (head_text n)
      ∷ incident_line n.verdict.incident_id
      ∷ fixed "*Observed*  collected by the agent, verbatim, no model involvement"
      ∷ code_section (code_text (render_observed f n.contract))
      ∷ divider
      ∷ fixed "*Inferred*  model output, every citation checked against the evidence above"
      ∷ code_section (code_text (render_inferred f n.verdict))
      ∷ divider
      ∷ decision_blocks n status

unfoldable pub summary_text : Notice → String
summary_text n =
    let v = n.verdict in
    if v.discarded
    then parts (head_text n ∷ ": discarded, the model did not answer" ∷ [])
    else if v.abstained
    then parts (head_text n ∷ ": insufficient context" ∷ [])
    else parts (head_text n ∷ ": " ∷ v.root_cause ∷ [])

-- What a section of code shows of a text: at most 2906 code points, which is under the 3000 that
-- Slack takes, and among them the last 2894 of the text, or all of it if it is shorter.
pub record Fits (body shown : List ℕ) : Type 0 where
  pub bounded : length shown ≤ section_limit + 6
  pub before : List ℕ
  pub after : List ℕ
  pub ends : shown ≡ before ++ (last (section_limit - 6) body ++ after)

drop_splits : (n : ℕ) (xs : List ℕ) → (before : List ℕ) × (xs ≡ before ++ drop n xs)
drop_splits zero xs = ([], refl)
drop_splits (suc n) [] = ([], refl)
drop_splits (suc n) (x ∷ xs) = let (before, e) = drop_splits n xs in (x ∷ before, ap (◌∷◌ x) e)

cut-Fits :
    (body : List ℕ)
    → ltb section_limit (length body) ≡ true
    → Fits body (codes "```" ++ (cut_body body ++ codes "```"))
cut-Fits body h = record {
  bounded = rw h (
      omega (
        arith,
        length-append (last (section_limit - 6) body) (codes "```"),
        length-drop (length body - (section_limit - 6)) body,
      ));
  before = codes "```[cut]\n";
  after = codes "```";
  ends = rw h refl;
}

whole-Fits :
    (body : List ℕ)
    → ltb section_limit (length body) ≡ false
    → Fits body (codes "```" ++ (cut_body body ++ codes "```"))
whole-Fits body h =
    let (before, e) = drop_splits (length body - (section_limit - 6)) body in
    record {
      bounded = rw h (ground (arith, length-append body (codes "```"), h));
      before = codes "```" ++ before;
      after = codes "```";
      ends = rw h (
          ap (λ b. codes "```" ++ (b ++ codes "```")) e
          ∙ ap (λ b. codes "```" ++ b)
              (append_assoc before (last (section_limit - 6) body) (codes "```")));
    }

-- Whatever the lines, the code section that shows them has at most 2906 code points, and holds the
-- last 2894 of the joined lines, or all of them if they are fewer, in one piece.
pub code_text-Fits : (lines : List String) → Fits (codes (join "\n" lines)) (code_text lines)
unfolding code_text
code_text-Fits lines =
    let body = codes (join "\n" lines) in
    elim (Bool-cases (ltb section_limit (length body))) [
      | inl e ↦ cut-Fits body e
      | inr e ↦ whole-Fits body e
    ]
