-- ===== src/Examples/OfApproval.antt =====
-- The approval graph on a parked incident, a crash loop with a proposed fix.
use coroner.Base.{ℕ, ◌<◌, ◌≡◌, refl, none, some, true, false, List, [], ◌∷◌, arith, eq_iff}
use coroner.Base.Text.{strip}
use coroner.Contract.{Instant}
use coroner.Evidence.{crashloop_with_fatal_log}
use coroner.Diagnosis.{diagnosed}
use coroner.Ledger
use coroner.Verdict.{DiagnoseResponse}
use coroner.Inflight.Memory
use coroner.Approval.{
  PendingRecord, Resolution, World, ok, err, approval_error, already_decided, from_record,
  to_record, from_record-to_record, message, sign, Claims,
}
use coroner.Approval.Rules.{token_for, mints, resolved_action, is_human}
use coroner.Approval.Pipeline.{
  decide, graph, load, check, check_at, record_node, record_decision, settle, store_get,
  store_delete, read_clock, ledger_get, ledger_label, ledger_write,
}
use coroner.Approval.Decided.{Decided, decide-Decided}
use coroner.Approval.Expires.Cases.{AreSound}
use coroner.Approval.Sweeps.{IsGone, IsExpired}
use coroner.Approval.Sweeps.Clears.{expire_overdue_clears}
use coroner.Approval.Clock.{IsMonotone}
use coroner.Approval.Park.{expire_overdue, pending, sweep, read_pending, attempt_expiry, store_ids}
use coroner.Approval.Once.{IsKeyed}
use coroner.Approval.Settled.{Call, after_calls}
use coroner.Approval.Stands.{decide_once}
use coroner.Approval.Completes.{is_ok, IsComplete, decide_completes}
use coroner.Approval.Late.{IsLate, decide-IsLate}
use coroner.Approval.Agent.{Handed, agent_verifies}
use coroner.Approval.Injective.{message_inj}
use coroner.Examples.{setup, parked, store, world_at, plain_crypto, undecided, marks, count_marks}

abbrev resolution : Resolution
resolution = record {
  incident_id = "inc-1";
  decision = "approved";
  decided_at = 2;
  action = "fix the host";
  approval_token = "v1.v1|inc-1|hash|approved|fix the host|11";
}

abbrev approved_world : World store
approved_world = (decide {S = store} setup "inc-1" "approved" "" "" (world_at 1)).1

approved_ok :
    decide {S = store} setup "inc-1" "approved" "" "" (world_at 1) ≡ (ok resolution, approved_world)
unfolding decide graph load check check_at record_node record_decision settle store_get store_delete
    read_clock ledger_get ledger_label ledger_write token_for mints sign message resolved_action
    is_human to_record from_record marks count_marks Memory.get Memory.find Memory.delete Memory.put
    Ledger.label Ledger.label_refusal Ledger.apply_labels Ledger.get strip
approved_ok = refl

world_at-IsKeyed : (n : ℕ) → IsKeyed store (world_at n)
unfolding Memory.find to_record
world_at-IsKeyed n t id r h = ground (arith, eq_iff "inc-1" id)

parked_hash :
    (n : ℕ) (t : Instant) (r : PendingRecord)
    → store.view t (world_at n).store "inc-1" ≡ some r
    → r.context_hash ≡ "hash"
unfolding Memory.find to_record
parked_hash n t r h = ground arith

parked_at :
    (n : ℕ)
    → n < 100
    → store.view n (world_at n).store "inc-1" ≡ some (to_record plain_crypto parked)
unfolding Memory.find
parked_at n h = ground arith

parsed : from_record plain_crypto (to_record plain_crypto parked) ≡ some parked
parsed = from_record-to_record plain_crypto parked

ledger_row : Ledger.get "inc-1" (undecided ∷ []) ≡ some undecided
unfolding Ledger.get
ledger_row = refl

decide-Decided_example :
    Decided setup "inc-1" "approved" "" "" (world_at 1) resolution approved_world
decide-Decided_example =
    decide-Decided setup "inc-1" "approved" "" "" (world_at 1) approved_world resolution approved_ok

abbrev attempts : List Call
attempts =
    record { id = "inc-1"; decision = "edited"; reason = ""; action = "raise the limit" }
    ∷ record { id = "inc-2"; decision = "approved"; reason = ""; action = "" }
    ∷ []

decide_once_example :
    (decide setup "inc-1" "rejected" "too risky" "" (after_calls setup attempts approved_world)).0
    ≡ err (approval_error 409 (already_decided "approved"))
decide_once_example =
    decide_once setup "inc-1" "approved" "" "" (world_at 1) approved_world resolution attempts
      "rejected" "too risky" "" (λ n. omega arith) (world_at-IsKeyed 1) approved_ok

IsComplete-edit : IsComplete "edited" "" "raise the limit"
unfolding is_human strip
IsComplete-edit = (refl, λ e. absurd (ground (arith, eq_iff "edited" "rejected")), λ e. refl)

decide_completes_example :
    is_ok (decide {S = store} setup "inc-1" "edited" "" "raise the limit" (world_at 1)).0 ≡ true
decide_completes_example =
    decide_completes setup "inc-1" "edited" "" "raise the limit" (world_at 1)
      (to_record plain_crypto parked) parked undecided (parked_at 1 (omega arith)) parsed ledger_row
      refl IsComplete-edit (omega arith)

decide-IsLate_example :
    let (result, w') = decide {S = store} setup "inc-1" "approved" "" "" (world_at 20) in
    IsLate setup parked (world_at 20) result w'
unfolding is_human
decide-IsLate_example =
    decide-IsLate setup "inc-1" "approved" "" "" (world_at 20) (to_record plain_crypto parked)
      parked (parked_at 20 (omega arith)) parsed refl (omega arith)

abbrev verdict : DiagnoseResponse
verdict = record {
  incident_id = "inc-1";
  failure_type = "CrashLoopBackOff";
  outcome = diagnosed;
  evidence_class = some crashloop_with_fatal_log;
  context_hash = "hash";
  root_cause = "the host name is wrong";
  explanation = "";
  proposed_action = "fix the host";
  competing_hypothesis = "";
  evidence = [];
  confidence_model = some 900000;
  confidence_final = some 800000;
  confidence_ceiling = some 800000;
  abstained = false;
  abstain_reason = none;
  discarded = false;
  discard_reason = none;
  approvable = true;
  validation_failures = [];
  mode = none;
  delivered = false;
}

agent_verifies_example : Handed setup "inc-1" "approved" (world_at 1) resolution approved_world
unfolding mints
agent_verifies_example =
    agent_verifies setup "inc-1" "approved" "" "" (world_at 1) approved_world resolution undecided
      (world_at-IsKeyed 1) ledger_row (parked_hash 1) refl refl approved_ok

abbrev claims : Claims
claims = record {
  incident_id = "inc-1";
  context_hash = "hash";
  decision = "approved";
  action = "a|b";
  decided_at = "11";
}

message_inj_example : claims ≡ record {
  incident_id = "inc-1";
  context_hash = "hash";
  decision = "approved";
  action = "a|b";
  decided_at = "11";
}
message_inj_example =
    message_inj claims claims
      (record { incident_id = refl; context_hash = refl; decision = refl; decided_at = refl })
      (record { incident_id = refl; context_hash = refl; decision = refl; decided_at = refl }) refl

setup-IsMonotone : IsMonotone setup
setup-IsMonotone n = omega arith

overdue-AreSound : AreSound {S = store} setup (world_at 10)
unfolding Memory.find to_record
overdue-AreSound t id r late h =
    let same : r ≡ to_record plain_crypto parked = ground (arith, h) in
    rw same (ground (arith, eq_iff "inc-1" id, h), rw parsed refl)

swept_reads : (expire_overdue {S = store} setup (world_at 10)).1.reads ≡ 16
unfolding expire_overdue pending sweep read_pending attempt_expiry store_ids decide graph load check
    check_at record_node record_decision settle store_get store_delete read_clock ledger_get
    ledger_label ledger_write token_for mints sign message resolved_action is_human to_record
    from_record marks count_marks Memory.get Memory.find Memory.delete Memory.put Memory.ids
    Ledger.label Ledger.label_refusal Ledger.apply_labels Ledger.get strip
swept_reads = refl

expire_overdue_clears_example :
    let w = (expire_overdue {S = store} setup (world_at 10)).1 in
    (is_ok (expire_overdue {S = store} setup (world_at 10)).0 ≡ true)
    × IsGone {S = store} setup setup-IsMonotone "inc-1" w
    × IsExpired {S = store} setup setup-IsMonotone "inc-1" w
expire_overdue_clears_example =
    expire_overdue_clears setup setup-IsMonotone (world_at 10) "inc-1"
      (to_record plain_crypto parked) parked undecided overdue-AreSound tt parsed (omega arith)
      (λ n h k. parked_at n (omega (arith, k, swept_reads))) ledger_row refl
