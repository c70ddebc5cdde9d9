-- ===== src/Graph/Charges.antt =====
-- What an attempt without an answer is charged (`_diagnose` and `_spent` of
-- brain/src/coroner_brain/graph.py).
use coroner.Base.{ℕ, zero, suc, ◌+◌, ◌-◌, ◌<◌, ◌≡◌, refl, ap, Option, some, arith}
use coroner.Contract.{Instant}
use coroner.Diagnosis.{discarded, DiscardReason}
use coroner.Graph.State.{State, Pipeline, World, Request, Usage, silent, now, after_reads}
use coroner.Graph.Call.{
  Called, unavailable, call_with_deadline, call_loop, on_budget, budget_at, Loop,
}
use coroner.Graph.Nodes.{diagnose, diagnose_within, request}

-- An attempt that was discarded, with the tokens of the call before added once more.
pub record Charged (st : State) (w : World) (attempt : Option (State × World)) : Type 0 where
  pub state : State
  pub world : World
  pub ran : attempt ≡ some (state, world)
  pub outcome : state.outcome ≡ some discarded
  pub prompt : state.prompt_tokens ≡ st.prompt_tokens + w.last_usage.prompt_tokens
  pub completion : state.completion_tokens ≡ st.completion_tokens + w.last_usage.completion_tokens

-- A call that comes to nothing, and leaves the usage of the call before.
record Unanswered (w : World) (o : Option (Called × World)) : Type 0 where
  reason : DiscardReason
  world : World
  result : o ≡ some (unavailable reason, world)
  usage : world.last_usage ≡ w.last_usage

module _ (p : Pipeline)
    (never : (n : ℕ) (q : Request) (budget : Instant) → p.reply n q budget ≡ silent) where
  budget-Unanswered :
      (q : Request) (remaining started : ℕ) (again : Loop p q remaining started) (waited budget : ℕ)
      (w : World)
      → Unanswered w (on_budget p q remaining started again waited budget w)
  budget-Unanswered q remaining started again waited zero w = record {
    reason = _;
    world = w;
    result = refl;
    usage = refl;
  }
  budget-Unanswered q remaining started again waited (suc budget) w =
      rw (never w.calls q (suc budget))
        (record { reason = _; world = _; result = refl; usage = refl })

  call-Unanswered :
      (remaining : ℕ) (q : Request) (w : World) → Unanswered w (call_with_deadline p remaining q w)
  unfolding call_with_deadline call_loop
  call-Unanswered remaining q w =
      let u =
        budget-Unanswered q remaining (now p w) (call_loop p q remaining (now p w) remaining) 0
          (budget_at p q remaining (now p w) (after_reads 1 w)) (after_reads 1 (after_reads 1 w)) in
      record { reason = u.reason; world = u.world; result = u.result; usage = u.usage }

  within-Charged :
      (remaining : ℕ) (st : State) (w : World)
      → 0 < remaining
      → Charged st w (diagnose_within p remaining st w)
  unfolding diagnose_within
  within-Charged zero st w h = absurd (omega arith)
  within-Charged (suc remaining) st w h =
      let u = call-Unanswered (suc remaining) (request p st) w in
      rw u.result (record {
        state = _;
        world = u.world;
        ran = refl;
        outcome = refl;
        prompt = ap (λ (x : Usage). st.prompt_tokens + x.prompt_tokens) u.usage;
        completion = ap (λ (x : Usage). st.completion_tokens + x.completion_tokens) u.usage;
      })

-- An attempt that the model never answers is discarded, and charged the tokens of the call before
-- it: the client's last usage is added to the tokens of the incident although nothing was spent.
pub diagnose-Charged :
    (p : Pipeline) (st : State) (w : World)
    → ((n : ℕ) (q : Request) (budget : Instant) → p.reply n q budget ≡ silent)
    → now p w - st.started_at < p.deadline
    → Charged st w (diagnose p st w)
unfolding diagnose
diagnose-Charged p st w never h =
    let c =
      within-Charged p never (p.deadline - (now p w - st.started_at)) st (after_reads 2 w)
        (omega arith) in
    record {
      state = c.state;
      world = c.world;
      ran = c.ran;
      outcome = c.outcome;
      prompt = c.prompt;
      completion = c.completion;
    }
