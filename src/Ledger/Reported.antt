-- ===== src/Ledger/Reported.antt =====
-- What the agent is handed after it has reported on an incident (`record_execution` and
-- `approved` of brain/src/coroner_brain/ledger.py).
use coroner.Base.{
  String, ◌≡◌, refl, ◌∙◌, Bool, true, false, ◌||◌, some, [], ◌∷◌, any, keep, arith, ◌==◌,
  eq_disjoint, Bool-cases, inl, inr,
}
use coroner.Contract.{Instant}
use coroner.Ledger.{
  Table, Row, ok, update, insert_by_decision, sort_by_decision, is_actionable, approved, is_final,
  record_execution, apply_execution,
}

-- The rows hold one of an incident.
abbrev pub holds : String → Table → Bool
holds id = any (λ r. r.incident_id == id)

holds-insert_by_decision :
    (id : String) (r : Row) (t : Table)
    → holds id (insert_by_decision r t) ≡ (r.incident_id == id || holds id t)
unfolding insert_by_decision
holds-insert_by_decision id r [] = refl
holds-insert_by_decision id r (s ∷ t) = ground (arith, holds-insert_by_decision id r t)

holds-sort_by_decision : (id : String) (t : Table) → holds id (sort_by_decision t) ≡ holds id t
unfolding sort_by_decision
holds-sort_by_decision id [] = refl
holds-sort_by_decision id (r ∷ t) =
    ground (arith, holds-insert_by_decision id r (sort_by_decision t), holds-sort_by_decision id t)

finished :
    (now : Instant) (status detail : String) (b : Bool) (r : Row)
    → is_final (some status) ≡ true
    → is_actionable b (apply_execution now status detail r) ≡ false
unfolding is_actionable apply_execution
finished now status detail b r h = ground (
  arith,
  eq_disjoint status "" "executed",
  eq_disjoint status "" "failed",
  eq_disjoint status "" "refused",
  eq_disjoint status "proposed" "executed",
  eq_disjoint status "proposed" "failed",
  eq_disjoint status "proposed" "refused",
)

holds-update :
    (now : Instant) (id status detail : String) (b : Bool) (t : Table)
    → is_final (some status) ≡ true
    → holds id (keep (is_actionable b) (update id (apply_execution now status detail) t)) ≡ false
unfolding update
holds-update now id status detail b [] h = refl
holds-update now id status detail b (r ∷ t) h = elim (Bool-cases (r.incident_id == id)) [
  | inl e ↦
      ground (arith, finished now status detail b r h, holds-update now id status detail b t h)
  | inr e ↦ ground (arith, holds-update now id status detail b t h)
]

executed-update :
    (now : Instant) (id status detail : String) (t u : Table)
    → record_execution now id status detail t ≡ ok u
    → u ≡ update id (apply_execution now status detail) t
unfolding record_execution
executed-update now id status detail t u h = ground arith

-- Once the agent has reported an incident as executed, failed or refused, the incident is not
-- among the rows that it is handed, with or without those already proposed.
holds-record_execution :
    (now : Instant) (id status detail : String) (t u : Table) (include_proposed : Bool)
    → record_execution now id status detail t ≡ ok u
    → is_final (some status) ≡ true
    → holds id (approved include_proposed u) ≡ false
unfolding approved
holds-record_execution now id status detail t u include_proposed h final =
    rw (executed-update now id status detail t u h)
      (holds-sort_by_decision id _ ∙ holds-update now id status detail include_proposed t final)
