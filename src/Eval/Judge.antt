-- ===== src/Eval/Judge.antt =====
-- The score of one row of the ledger against how its incident was built (`judge` of eval/run.py).
pub mod Why
use coroner.Base.{
  ℕ, ◌+◌, String, Bool, true, false, not, ◌&&◌, ◌||◌, Option, none, some, List, [], ◌∷◌, leb, eqb,
  or_else, if◌then◌else◌, ◌==◌, ◌≡◌, refl,
}
use coroner.Base.Text.{codes, lower, names_any, contains, strip, join}
use coroner.Contract.{Micro}
use coroner.Evidence.{EvidenceClass}
use coroner.Diagnosis.{Outcome, diagnosed, insufficient_context, discarded}
use coroner.Ledger.{Row}
use coroner.Eval.Catalog.{Incident, matches}

-- What the score says of the cause of a memory kill; `unscored` is the empty text.
pub data OomWhy : Type 0 where
  unscored declined right wrong : OomWhy

pub record Judged : Type 0 where
  pub id : String
  pub failure_class : String
  pub classified_as : String
  pub misclassified : Bool
  pub abstained : Bool
  pub discarded : Bool
  pub log_shape : String
  pub why : String
  pub diagnosable : Bool
  pub outcome : Option Outcome
  pub evidence_class : Option EvidenceClass
  pub ceiling : Option Micro
  pub correct : Bool
  pub oom_what : Bool
  pub oom_why : OomWhy
  pub root_cause : String
  pub truth : String
  pub cost_usd : Micro
  pub prompt_tokens : ℕ
  pub completion_tokens : ℕ
  pub latency_ms : ℕ
  pub retries : ℕ

abbrev pub is_diagnosed : Option Outcome → Bool
is_diagnosed (some diagnosed) = true
is_diagnosed _ = false

abbrev pub is_insufficient : Option Outcome → Bool
is_insufficient (some insufficient_context) = true
is_insufficient _ = false

abbrev pub is_discarded : Option Outcome → Bool
is_discarded (some Outcome.discarded) = true
is_discarded _ = false

abbrev pub is_oom : Incident → Bool
is_oom i = i.failure_class == "OOMKilled" || i.failure_class == "OOMKilledDuringInit"

-- The causes of a memory kill that a text names.
pub record Named : Type 0 where
  pub limit_too_low : Bool
  pub leak : Bool
  pub spike : Bool

unfoldable pub named : List ℕ → Named
unfolding names_any contains
named text = record {
  limit_too_low =
      names_any
        ("limit is too low" ∷ "limit too low" ∷ "below" ∷ "insufficient limit" ∷ "undersized"
          ∷ "too low" ∷ [])
        text;
  leak = contains text (codes "leak");
  spike = names_any ("spike" ∷ "burst" ∷ "transient" ∷ "one-off" ∷ "bulk" ∷ []) text;
}

abbrev one_if : Bool → ℕ
one_if b = if b then 1 else 0

-- `sum(names.values())`
abbrev pub how_many : Named → ℕ
how_many n = one_if n.limit_too_low + (one_if n.leak + one_if n.spike)

-- `names.get(why)`
abbrev pub names : Named → String → Bool
names n why =
    if why == "limit_too_low"
    then n.limit_too_low
    else if why == "leak"
    then n.leak
    else if why == "spike"
    then n.spike
    else false

-- the chain that ends `judge`, where `competing` tells whether a competing hypothesis is given
abbrev pub why_of : Bool → Named → String → OomWhy
why_of competing n why =
    if competing && leb 2 (how_many n)
    then declined
    else if names n why && eqb (how_many n) 1
    then right
    else if competing || eqb (how_many n) 0
    then declined
    else wrong

-- a competing hypothesis that is not white space
unfoldable pub competes : Row → Bool
unfolding strip
competes row = not (strip row.entry.competing_hypothesis == "")

-- what the model wrote, in lower case
unfoldable pub written : Row → List ℕ
unfolding lower
written row = lower (
    codes (
      join " "
        (row.entry.root_cause ∷ row.entry.explanation ∷ row.entry.competing_hypothesis ∷ [])))

abbrev is_correct : Incident → Row → Bool
is_correct i row =
    let misclassified = not (row.entry.failure_type == i.failure_class) in
    let found = matches i.rubric row.entry.root_cause && not misclassified in
    if is_diagnosed row.entry.outcome
    then (if is_oom i then found else i.diagnosable && found)
    else if is_insufficient row.entry.outcome
    then not i.diagnosable
    else false

abbrev why_score : Incident → Row → OomWhy
why_score i row =
    if is_oom i && is_diagnosed row.entry.outcome
    then (if i.failure_class == "OOMKilled"
        then why_of (competes row) (named (written row)) i.why
        else unscored)
    else unscored

-- `re.search(r"memory|oom", root, re.IGNORECASE)`
unfoldable pub names_memory : Row → Bool
unfolding lower names_any
names_memory row = names_any ("memory" ∷ "oom" ∷ []) (lower (codes row.entry.root_cause))

unfoldable pub judge : Incident → Row → Judged
unfolding matches names_memory competes written named
judge i row =
    let misclassified = not (row.entry.failure_type == i.failure_class) in
    record {
      id = i.id;
      failure_class = i.failure_class;
      classified_as = row.entry.failure_type;
      misclassified = misclassified;
      abstained = is_insufficient row.entry.outcome;
      discarded = is_discarded row.entry.outcome;
      log_shape = i.log_shape;
      why = i.why;
      diagnosable = i.diagnosable;
      outcome = row.entry.outcome;
      evidence_class = row.entry.evidence_class;
      ceiling =
          if is_diagnosed row.entry.outcome
          then some (or_else row.entry.confidence_final 0)
          else none;
      correct = is_correct i row;
      oom_what =
          if is_oom i && is_diagnosed row.entry.outcome
          then names_memory row && not misclassified
          else false;
      oom_why = why_score i row;
      root_cause = row.entry.root_cause;
      truth = i.truth;
      cost_usd = row.entry.cost_usd;
      prompt_tokens = row.entry.prompt_tokens;
      completion_tokens = row.entry.completion_tokens;
      latency_ms = row.entry.latency_ms_total;
      retries = row.entry.validation_retries;
    }
