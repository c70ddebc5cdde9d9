-- ===== src/Eval/Collect/Ends.antt =====
-- The wait of the collect phase for its pods (the inner loop of `collect` of eval/run.py) ends, if the
-- clock runs.
use coroner.Base.{
  ℕ, zero, suc, ◌+◌, ◌*◌, ◌≤◌, String, some, List, [], ◌∷◌, ltb, ◌≡◌, refl, arith, Bool-cases, inl,
  inr,
}
use coroner.Contract.{Micro}
use coroner.Eval.Catalog.{Incident, pod_name}
use coroner.Eval.Resume.{failed_enough}
use coroner.Eval.Collect.{Cluster, pod_state, poll, await_failure}

-- The clock does not go back while kubectl is asked, and a sleep takes its time.
pub record IsTimely {W : Type 0} (k : Cluster W) : Type 0 where
  pub asked : (name : String) (w : W) → k.clock w ≤ k.clock (k.get_pod name w).1
  pub slept : (time : Micro) (w : W) → k.clock w + time ≤ k.clock (k.sleep time w)

-- the rounds that are enough: one for each sleep, and one at the deadline
abbrev pub enough : ℕ
enough = 121

module _ {W : Type 0} (k : Cluster W) (timely : IsTimely k) where
  clock-poll : (pending : List Incident) (w : W) → k.clock w ≤ k.clock (poll k pending w).1
  unfolding poll
  clock-poll [] w = omega arith
  clock-poll (i ∷ pending) w =
      let h = timely.asked (pod_name i) w in
      let ih = clock-poll pending (k.get_pod (pod_name i) w).1 in
      let s = pod_state (k.get_pod (pod_name i) w).0 in
      elim (Bool-cases (failed_enough i s.0 s.1)) [
        | inl e ↦ rw e (omega (arith, h, ih))
        | inr e ↦ rw e (omega (arith, h, ih))
      ]

  -- a round with its sleep takes the time of the sleep at least
  clock-round :
      (pending : List Incident) (w : W)
      → k.clock w + 5000000 ≤ k.clock (k.sleep 5000000 (poll k pending w).1)
  clock-round pending w =
      omega (arith, clock-poll pending w, timely.slept 5000000 (poll k pending w).1)

  -- A wait whose deadline is so many sleeps away comes to an end.
  pub await_failure-ends :
      (sleeps : ℕ) (deadline : Micro) (pending : List Incident) (w : W)
      → deadline ≤ k.clock w + 5000000 * sleeps
      → (w' : W) × (await_failure k (suc sleeps) deadline pending w ≡ some w')
  unfolding await_failure
  await_failure-ends sleeps deadline [] w h = (w, refl)
  await_failure-ends zero deadline (i ∷ pending) w h = (w, ground arith)
  await_failure-ends (suc sleeps) deadline (i ∷ pending) w h =
      elim (Bool-cases (ltb (k.clock w) deadline)) [
        | inl e ↦ rw e (
            await_failure-ends sleeps deadline (poll k (i ∷ pending) w).0
              (k.sleep 5000000 (poll k (i ∷ pending) w).1)
              (omega (arith, h, clock-round (i ∷ pending) w)))
        | inr e ↦ rw e (w, refl)
      ]
