-- ===== src/Graph/Calls.antt =====
-- How long a model call runs and sleeps (`_call_with_deadline` of
-- brain/src/coroner_brain/graph.py).
use coroner.Base.{ℕ, zero, suc, ◌+◌, ◌≤◌, ◌<◌, String, Option, none, some, ◌≡◌, refl, arith}
use coroner.Graph.State.{Request, Reply, replied, failed, silent, Pipeline, World, now, after_reads}
use coroner.Graph.Call.{
  Called, allowed, after_call, after_sleep, call_loop, on_budget, on_reply, on_wait, budget_at,
  call_with_deadline, Loop,
}
use coroner.Graph.RetryAfter.{retry_after_seconds}

allowed-fits :
    (asked : Option ℕ) (budget wait : ℕ)
    → allowed asked budget ≡ some wait
    → wait + 1000000 ≤ budget
unfolding allowed
allowed-fits asked budget wait h = ground arith

-- The time slept so far, after a call that came to something.
abbrev pub Within : ℕ → World → Option (Called × World) → Type 0
Within budget w none = ⊥
Within budget w (some (c, w')) = w'.slept ≤ w.slept + budget

Within-weaken :
    (a b : ℕ) (v w : World) (o : Option (Called × World))
    → v.slept + a ≤ w.slept + b
    → Within a v o
    → Within b w o
Within-weaken a b v w none h k = k
Within-weaken a b v w (some (c, w')) h k = omega arith

module _ (p : Pipeline) (q : Request) (remaining started : ℕ) where
  -- What is known of the loop from its head on, with the given fuel left.
  abbrev IsBounded : Loop p q remaining started → ℕ → Type 0
  IsBounded loop fuel =
      (waited : ℕ) (w : World)
      → started ≤ now p w
      → budget_at p q remaining started w < fuel
      → Within (budget_at p q remaining started w) w (loop waited w)

  on_wait-Within :
      (loop : Loop p q remaining started) (fuel waited : ℕ) (error : String) (o : Option ℕ)
      (w : World) (budget : ℕ)
      → IsBounded loop fuel
      → (asked : Option ℕ) → allowed asked budget ≡ o
      → started ≤ now p w
      → budget_at p q remaining started w ≤ budget
      → budget ≤ fuel
      → Within budget w (on_wait p q remaining started loop waited error o w)
  on_wait-Within loop fuel waited error none w budget b asked e s h k = omega arith
  on_wait-Within loop fuel waited error (some wait) w budget b asked e s h k =
      let fits = allowed-fits asked budget wait e in
      let v = after_sleep (wait + 500000) w in
      Within-weaken (budget_at p q remaining started v) budget v w _ (omega arith)
        (b (waited + (wait + 500000)) v (omega arith) (omega arith))

  on_reply-Within :
      (loop : Loop p q remaining started) (fuel waited : ℕ) (reply : Reply) (w : World) (budget : ℕ)
      → IsBounded loop fuel
      → started ≤ now p w
      → budget_at p q remaining started w ≤ budget
      → budget ≤ fuel
      → Within budget w (on_reply p q remaining started loop waited reply w)
  on_reply-Within loop fuel waited (replied text usage) w budget b s h k = omega arith
  on_reply-Within loop fuel waited silent w budget b s h k = omega arith
  on_reply-Within loop fuel waited (failed name text) w budget b s h k =
      let left = budget_at p q remaining started w in
      let mono = p.tick_mono w.reads in
      Within-weaken left budget w w _ (omega arith) (
        on_wait-Within loop fuel waited _ _ (after_reads 1 w) left b (retry_after_seconds text) refl
          (omega arith) (omega arith) (omega arith))

  after_call-time :
      (reply : Reply) (w : World)
      → (now p (after_call reply w) ≡ now p w) × ((after_call reply w).slept ≡ w.slept)
  after_call-time (replied text usage) w = (refl, refl)
  after_call-time silent w = (refl, refl)
  after_call-time (failed name text) w = (refl, refl)

  on_budget-Within :
      (loop : Loop p q remaining started) (fuel waited budget : ℕ) (w : World)
      → IsBounded loop fuel
      → started ≤ now p w
      → budget_at p q remaining started w ≤ budget
      → budget ≤ fuel
      → Within budget w (on_budget p q remaining started loop waited budget w)
  on_budget-Within loop fuel waited zero w b s h k = omega arith
  on_budget-Within loop fuel waited (suc budget) w b s h k =
      let reply = p.reply w.calls q (suc budget) in
      let (same, slept) = after_call-time reply w in
      Within-weaken (suc budget) (suc budget) (after_call reply w) w _ (omega arith) (
        on_reply-Within loop fuel waited reply (after_call reply w) (suc budget) b (omega arith)
          (omega arith) k)

  call_loop-Within : (fuel : ℕ) → IsBounded (call_loop p q remaining started fuel) fuel
  unfolding call_loop
  call_loop-Within zero waited w s h = absurd (omega arith)
  call_loop-Within (suc fuel) waited w s h =
      let mono = p.tick_mono w.reads in
      on_budget-Within (call_loop p q remaining started fuel) fuel waited
        (budget_at p q remaining started w) (after_reads 1 w) (call_loop-Within fuel) (omega arith)
        (omega arith) (omega arith)

-- A model call always ends, with a text or with a reason for having none, whatever the model
-- answers and however often it asks to wait; and it sleeps no longer than the time that was left.
pub call_with_deadline-Within :
    (p : Pipeline) (remaining : ℕ) (q : Request) (w : World)
    → Within remaining w (call_with_deadline p remaining q w)
unfolding call_with_deadline
call_with_deadline-Within p remaining q w =
    let mono = p.tick_mono w.reads in
    Within-weaken _ remaining (after_reads 1 w) w _ (omega arith) (
      call_loop-Within p q remaining (now p w) (suc remaining) 0 (after_reads 1 w) (omega arith)
        (omega arith))
