-- ===== src/Graph/Record.antt =====
-- Recording a run in the ledger (`run`, `_record` and `cost_usd` of
-- brain/src/coroner_brain/graph.py). The column contract_json, the dumped payload, stands for the
-- contract that it is read back as.
use coroner.Base.{
  ℕ, ◌+◌, ◌-◌, ◌*◌, ◌/◌, ◌%◌, String, Bool, true, false, ◌||◌, ◌&&◌, Option, none, some, List, [],
  ltb, eqb, if◌then◌else◌,
}
use coroner.Contract.{Contract, Instant, Micro}
use coroner.Diagnosis.{Outcome, insufficient_context, Diagnosis, Citation}
use coroner.Ledger.{LedgerEntry, Table, record_entry}
use coroner.Prompts.{prompt_version}
use coroner.Graph.State.{State, Pipeline, World, now, after_reads}
use coroner.Graph.Nodes.{invoke, is_discarded}

abbrev pub is_insufficient : Option Outcome → Bool
is_insufficient (some insufficient_context) = true
is_insufficient _ = false

-- `None if cond else value`
abbrev pub unless {ℓ} : {A : Type ℓ} → Bool → Option A → Option A
unless true value = none
unless false value = value

-- `"" if not diagnosis else diagnosis.field`
abbrev pub text_of : (Diagnosis → String) → Option Diagnosis → String
text_of field none = ""
text_of field (some d) = field d

abbrev pub evidence_of : Option Diagnosis → List Citation
evidence_of none = []
evidence_of (some d) = d.evidence

-- the diagnosis that is shown, if the run came to one
abbrev pub shown : State → Option Diagnosis
shown st = unless (is_insufficient st.outcome || is_discarded st.outcome) st.diagnosis

-- `round` to the nearest, a half to the even
unfoldable pub round_div : ℕ → ℕ → ℕ
round_div n d =
    let q = n / d in
    let rest = n % d * 2 in if ltb d rest || eqb rest d && eqb (q % 2) 1 then q + 1 else q

-- in millionths of a dollar, from prices in millionths of a dollar for a million tokens
unfoldable pub cost_usd : Pipeline → ℕ → ℕ → Micro
unfolding round_div
cost_usd p prompt_tokens completion_tokens =
    round_div (prompt_tokens * p.price_in + completion_tokens * p.price_out) 1000000

unfoldable pub entry_of : Pipeline → Contract → State → ℕ → LedgerEntry
entry_of p c st latency = record {
  incident_id = c.incident_id;
  failure_type = c.failure_type;
  contract_version = c.contract_version;
  context_hash = st.context_hash;
  evidence_class = some st.evidence_class;
  model_id = p.model_id;
  prompt_version = prompt_version;
  outcome = st.outcome;
  abstained = is_insufficient st.outcome;
  abstain_reason = st.abstain_reason;
  root_cause = text_of (λ d. d.root_cause) (shown st);
  explanation = text_of (λ d. d.explanation) (shown st);
  proposed_action = text_of (λ d. d.proposed_action) (shown st);
  competing_hypothesis = text_of (λ d. d.competing_hypothesis) (shown st);
  evidence = evidence_of (shown st);
  confidence_model = unless (is_discarded st.outcome) st.confidence_model;
  confidence_final =
      unless (is_insufficient st.outcome || is_discarded st.outcome) st.confidence_final;
  validation_failures = st.validation_failures;
  validation_retries = st.attempts - 1;
  contract_json = some c;
  discard_reason = st.discard_reason;
  prompt_tokens = st.prompt_tokens;
  completion_tokens = st.completion_tokens;
  cost_usd = cost_usd p st.prompt_tokens st.completion_tokens;
  latency_ms_total = latency;
}

module _ (p : Pipeline) where
  -- `_record`, at the instant of the ledger's own clock
  unfoldable pub record_run : Instant → Contract → State → World → Table → World × Table
  unfolding entry_of
  record_run at c st w t =
      (after_reads 2 w, record_entry at (entry_of p c st ((now p w - st.started_at) / 1000)) t)

  abbrev pub recorded :
      Instant → Contract → Table → Option (State × World) → Option (State × World × Table)
  recorded at c t none = none
  recorded at c t (some (st, w)) = let (w', t') = record_run at c st w t in some (st, w', t')

  unfoldable pub run : Instant → Contract → World → Table → Option (State × World × Table)
  unfolding record_run
  run at c w t = recorded at c t (invoke p c w)
