-- ===== src/Graph/Call.antt =====
-- The model call under its deadline (`_call_with_deadline` of brain/src/coroner_brain/graph.py). The
-- loop is recursion on fuel: `none` is a run out of fuel.
use coroner.Base.{ℕ, zero, suc, ◌+◌, ◌-◌, String, ◌||◌, Option, none, some, ltb, if◌then◌else◌}
use Prim.Native.String.{◌++◌}
use coroner.Diagnosis.{DiscardReason, no_answer, call_failed}
use coroner.Graph.State.{Request, Reply, replied, failed, silent, Pipeline, World, now, after_reads}
use coroner.Graph.RetryAfter.{retry_after_seconds}

-- the text that was answered, or the ModelUnavailableError
pub data Called : Type 0 where
  answered : String → Called
  unavailable : DiscardReason → Called

abbrev pub max_retry_after : ℕ
max_retry_after = 90000000

-- the wait that the budget has room for
unfoldable pub allowed : Option ℕ → ℕ → Option ℕ
allowed none budget = none
allowed (some wait) budget =
    if ltb max_retry_after wait || ltb budget (wait + 1000000) then none else some wait

-- the world once a call has come back
abbrev pub after_call : Reply → World → World
after_call (replied text usage) w = record w { calls = w.calls + 1; last_usage = usage }
after_call _ w = record w { calls = w.calls + 1 }

abbrev pub after_sleep : ℕ → World → World
after_sleep time w = record w { slept = w.slept + time }

module _ (p : Pipeline) (q : Request) (remaining started : ℕ) where
  abbrev pub budget_at : World → ℕ
  budget_at w = remaining - (now p w - started)

  -- what the loop does from its head on, with the time waited on rate limits so far
  abbrev pub Loop : Type 0
  Loop = ℕ → World → Option (Called × World)

  abbrev pub on_wait : Loop → ℕ → String → Option ℕ → World → Option (Called × World)
  on_wait again waited error none w = some (unavailable (call_failed error), w)
  on_wait again waited error (some wait) w =
      again (waited + (wait + 500000)) (after_sleep (wait + 500000) w)

  abbrev pub on_reply : Loop → ℕ → Reply → World → Option (Called × World)
  on_reply again waited (replied text usage) w = some (answered text, w)
  on_reply again waited silent w = some (unavailable (no_answer 0), w)
  on_reply again waited (failed name text) w =
      on_wait again waited (name ++ (": " ++ text))
        (allowed (retry_after_seconds text) (budget_at w)) (after_reads 1 w)

  -- with the budget, from the start of the thread
  abbrev pub on_budget : Loop → ℕ → ℕ → World → Option (Called × World)
  on_budget again waited zero w = some (unavailable (no_answer waited), w)
  on_budget again waited (suc budget) w =
      let reply = p.reply w.calls q (suc budget) in on_reply again waited reply (after_call reply w)

  unfoldable pub call_loop : ℕ → Loop
  call_loop zero waited w = none
  call_loop (suc fuel) waited w = on_budget (call_loop fuel) waited (budget_at w) (after_reads 1 w)

module _ (p : Pipeline) where
  -- `started = self._clock()`, and the loop with one unit of fuel for each microsecond left
  unfoldable pub call_with_deadline : ℕ → Request → World → Option (Called × World)
  unfolding call_loop
  call_with_deadline remaining q w =
      call_loop p q remaining (now p w) (suc remaining) 0 (after_reads 1 w)
