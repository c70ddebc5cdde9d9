-- ===== src/Sink/Offers.antt =====
-- The instructions of a message on the standard output (`render_decision` of
-- brain/src/coroner_brain/sink.py).
use coroner.Base.{String, Bool, Option, List, ◌≡◌, arith, any}
use coroner.Base.Text.{codes, starts_with}
use coroner.Contract.{Contract, Micro}
use coroner.Verdict.{Mode, shadow, live}
use coroner.Sink.{offers_approval}
use coroner.Sink.Render.{Wording}
use coroner.Sink.Message.{render_decision}
use coroner.Graph.State.{State}
use coroner.Approval.{Pending}
use coroner.Api.{response_of, notice_of}

-- A line of the message tells how to decide.
abbrev pub instructs : String → List String → Bool
instructs verb lines = any (λ line. starts_with (codes line) (codes verb)) lines

-- The message about the verdict of a run tells how to approve exactly if the notice offers approval,
-- and the same holds of rejecting and of editing.
instructs-render_decision :
    (f : Wording) (c : Contract) (st : State) (threshold : Micro) (mode : Mode) (url : String)
    (parked : Option Pending)
    → let n = notice_of c (response_of c st threshold) mode url parked in
      let lines = render_decision f n in
      (instructs "  approve  " lines ≡ offers_approval n)
      × (instructs "  reject   " lines ≡ offers_approval n)
      × (instructs "  edit     " lines ≡ offers_approval n)
unfolding render_decision offers_approval response_of
instructs-render_decision f c st threshold shadow url parked = ground arith
instructs-render_decision f c st threshold live url parked = ground arith
