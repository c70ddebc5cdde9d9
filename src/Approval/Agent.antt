-- ===== src/Approval/Agent.antt =====
-- What the agent can verify of an approval (`sign` and `decide` of
-- brain/src/coroner_brain/approval.py, `label` of brain/src/coroner_brain/ledger.py): the agent is handed
-- the ledger row, and checks the token against the row's own fields.
use Prim.Native.String.{◌++◌}
use text.Mathlib.TextLemmas.{append_cancel_left, append-eq-nil_iff}
use coroner.Base.{
  ◌+◌, String, ◌≡◌, ◌↔◌, ap, sym, ◌∙◌, true, false, Option, none, some, Bool-cases, inl, inr, [],
  ◌∷◌, arith, eq_iff, ◌==◌, or_else,
}
use coroner.Contract.{Instant}
use coroner.Ledger
use coroner.Ledger.{Row, apply_labels}
use coroner.Inflight.{InFlightStore}
use coroner.Approval.Token.{Crypto, Claims, message, sign, verify}
use coroner.Approval.Rules.{Setup, token_for, mints}
use coroner.Approval.State.{Pending, PendingRecord, from_record, Resolution, ok, World}
use coroner.Approval.Pipeline.{decide}
use coroner.Approval.Decided.{Decided, decide-Decided}
use coroner.Approval.Once.{IsKeyed, decided_row, written, same_incident}

-- the date that an `Option` column prints as, empty for NULL
abbrev date_text : Crypto → Option Instant → String
date_text k none = ""
date_text k (some t) = k.isoformat t

-- the claims that the agent reads off a row
abbrev pub row_claims : Crypto → Row → Claims
row_claims k r = record {
  incident_id = r.incident_id;
  context_hash = r.context_hash;
  decision = or_else r.decision "";
  action = or_else r.decision_action "";
  decided_at = date_text k r.decision_at;
}

isoformat_inj : (k : Crypto) (s t : Instant) → k.isoformat s ≡ k.isoformat t → s ≡ t
isoformat_inj k s t e =
    ground (arith, k.fromisoformat-isoformat s, k.fromisoformat-isoformat t, ap k.fromisoformat e)

-- Two messages that differ at most in their dates are the same only if the dates are.
message_date :
    (c : Claims) (t u : String)
    → message (record c { decided_at = t }) ≡ message (record c { decided_at = u })
    → t ≡ u
unfolding message
message_date c t u e =
    let after_id = append_cancel_left "|" _ _ (
      append_cancel_left c.incident_id _ _
        (append_cancel_left "|" _ _ (append_cancel_left "v1" _ _ e))) in
    let after_hash = append_cancel_left "|" _ _ (append_cancel_left c.context_hash _ _ after_id) in
    let after_decision =
      append_cancel_left "|" _ _ (append_cancel_left c.decision _ _ after_hash) in
    append_cancel_left "|" _ _ (append_cancel_left c.action _ _ after_decision)

-- the claims with the text of another instant
abbrev pub redated : Crypto → Instant → Claims → Claims
redated k t c = record c { decided_at = k.isoformat t }

-- Claims at two instants have the same signed message exactly if the instants agree.
message-redated :
    (k : Crypto) (c : Claims) (s t : Instant)
    → (message (redated k s c) ≡ message (redated k t c)) ↔ (s ≡ t)
message-redated k c s t =
    (λ e. isoformat_inj k s t (message_date c _ _ e), λ e. ap (λ u. message (redated k u c)) e)

-- A token verifies against claims exactly if the keyed hash gives both messages the same digest.
verify-sign :
    (k : Crypto) (secret : String) (c d : Claims)
    → (verify k secret (sign k secret c) d ≡ true)
      ↔ (k.hexdigest secret (message c) ≡ k.hexdigest secret (message d))
unfolding verify sign
verify-sign k secret c d = (
  λ v. append_cancel_left "." _ _ (append_cancel_left "v1" _ _ (sym ((eq_iff _ _).0 v))),
  λ e. (eq_iff _ _).1 (ap (λ x. "v1" ++ ("." ++ x)) (sym e)),
)

-- What a token tells of the claims on a row: at which instant it was signed, and when it verifies.
pub record Verifies (k : Crypto) (secret token : String) (row : Claims) (s t : Instant)
    : Type 0 where
  pub verdict :
      (verify k secret token row ≡ true)
      ↔ (k.hexdigest secret (message (redated k s row)) ≡ k.hexdigest secret (message row))
  pub same_message : (message (redated k s row) ≡ message row) ↔ (s ≡ t)
  pub same_instant : s ≡ t → verify k secret token row ≡ true

verify-Verifies :
    (k : Crypto) (secret token : String) (c d : Claims) (s t : Instant)
    → token ≡ sign k secret (redated k s c)
    → d ≡ redated k t c
    → Verifies k secret token d s t
verify-Verifies k secret token c d s t e h =
    let law = verify-sign k secret (redated k s c) (redated k t c) in
    rw (e, h)
      (record {
        verdict = law;
        same_message = message-redated k c s t;
        same_instant = λ same. law.1 (ap (λ u. k.hexdigest secret (message (redated k u c))) same);
      })

from_record_hash :
    (k : Crypto) (r : PendingRecord) (q : Pending)
    → from_record k r ≡ some q
    → q.context_hash ≡ r.context_hash
unfolding from_record
from_record_hash k r q h = ground arith

sign-nonempty : (k : Crypto) (secret : String) (c : Claims) → (sign k secret c == "") ≡ false
unfolding sign
sign-nonempty k secret c = elim (Bool-cases (sign k secret c == "")) [
  | inl e ↦ ground (arith, eq_iff "v1" "", (append-eq-nil_iff.0 ((eq_iff _ _).0 e)).0)
  | inr e ↦ e
]

get-key : (id : String) (t : Ledger.Table) (r : Row) → Ledger.get id t ≡ some r → r.incident_id ≡ id
unfolding Ledger.get
get-key id [] r h = absurd (ground arith)
get-key id (x ∷ t) r h = ground (arith, get-key id t r, eq_iff x.incident_id id)

module _ {S : InFlightStore PendingRecord} (p : Setup) where
  -- The row that the agent is handed after a decision that authorises an action, and its token.
  pub record Handed (id decision : String) (w : World S) (res : Resolution) (w' : World S)
      : Type 0 where
    pub row : Row
    pub found : Ledger.get id w'.ledger ≡ some row
    pub token : row.approval_token ≡ some res.approval_token
    pub verifies :
        Verifies p.crypto p.secret res.approval_token
          (row_claims p.crypto row)
          (p.clock (w.reads + 1))
          (p.clock (w.reads + 1 + 1))

  module _ (id decision reason action : String) (w w' : World S) (res : Resolution) (r₀ : Row)
      (keyed : IsKeyed S w) (D : Decided p id decision reason action w res w')
      (before : Ledger.get id w.ledger ≡ some r₀)
      (evidence : D.pending.context_hash ≡ r₀.context_hash) (authorised : mints decision ≡ true)
      (filled : (res.action == "") ≡ false) where
    signed_at : Instant
    signed_at = p.clock (w.reads + 1)

    read_at : Instant
    read_at = p.clock (w.reads + 1 + 1)

    claims : Claims
    claims = record {
      incident_id = D.pending.incident_id;
      context_hash = D.pending.context_hash;
      decision = decision;
      action = res.action;
      decided_at = p.crypto.isoformat signed_at;
    }

    token_signs : res.approval_token ≡ sign p.crypto p.secret claims
    unfolding claims signed_at token_for
    token_signs = D.token ∙ ground arith

    token_nonempty : (res.approval_token == "") ≡ false
    token_nonempty = rw token_signs (sign-nonempty p.crypto p.secret claims)

    row : Row
    row =
        apply_labels read_at (written p id decision reason action w w' res keyed D)
          (decided_row p id decision reason action w w' res keyed D).row

    row-row_claims :
        row_claims p.crypto row ≡ record claims { decided_at = p.crypto.isoformat read_at }
    unfolding row claims apply_labels read_at
    row-row_claims =
        let found = decided_row p id decision reason action w w' res keyed D in
        ground (
          arith,
          found.found,
          before,
          evidence,
          filled,
          get-key id w'.ledger row found.relabelled,
          same_incident p id decision reason action w w' res keyed D,
        )

    row_token : row.approval_token ≡ some res.approval_token
    unfolding row apply_labels
    row_token = ground (arith, token_nonempty)

    handed : Handed id decision w res w'
    unfolding signed_at read_at row claims
    handed = record {
      row = row;
      found = (decided_row p id decision reason action w w' res keyed D).relabelled;
      token = row_token;
      verifies =
          verify-Verifies p.crypto p.secret _ claims _ signed_at read_at token_signs row-row_claims;
    }

  -- After an approval or an edit with an action, the ledger row holds the token that was minted.
  -- The agent's check of it against the row's own fields passes exactly if the keyed hash gives
  -- two messages the same digest: the row's, whose time is the ledger's reading of the clock, and
  -- the row's with the reading before, which was signed. These are one message exactly if the clock
  -- showed the same instant at both, and then the check passes. The verdict must have been parked
  -- under its own incident with the evidence hash of its row.
  pub agent_verifies :
      (id decision reason action : String) (w w' : World S) (res : Resolution) (r₀ : Row)
      → IsKeyed S w
      → Ledger.get id w.ledger ≡ some r₀
      → ((t : Instant) (r : PendingRecord)
          → S.view t w.store id ≡ some r
          → r.context_hash ≡ r₀.context_hash)
      → mints decision ≡ true
      → (res.action == "") ≡ false
      → decide p id decision reason action w ≡ (ok res, w')
      → Handed id decision w res w'
  agent_verifies id decision reason action w w' res r₀ keyed before evidence authorised filled h =
      let D = decide-Decided p id decision reason action w w' res h in
      handed id decision reason action w w' res r₀ keyed D before
        (from_record_hash p.crypto D.parked D.pending D.parsed
          ∙ evidence (p.clock w.reads) D.parked
              (sym (S.get-eq-view (p.clock w.reads) id w.store) ∙ D.found))
        authorised filled
