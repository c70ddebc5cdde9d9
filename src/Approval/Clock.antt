-- ===== src/Approval/Clock.antt =====
-- The readings of the clock (brain/src/coroner_brain/approval.py).
use native.Mathlib.Nat.{le_trans}
use coroner.Base.{ℕ, zero, suc, ◌+◌, ◌-◌, ◌≤◌, ◌≡◌, subst, arith}
use coroner.Contract.{Instant}
use coroner.Approval.Rules.{Setup}

-- The clock never goes back.
abbrev pub IsMonotone : Setup → Type 0
IsMonotone p = (n : ℕ) → p.clock n ≤ p.clock (n + 1)

pub later_reads :
    (p : Setup) → IsMonotone p → (n : ℕ) (t : Instant) → p.clock (n + 1) ≤ t → p.clock n ≤ t
later_reads p mono n t h = le_trans (mono n) h

later_by : (p : Setup) → IsMonotone p → (n k : ℕ) → p.clock n ≤ p.clock (n + k)
later_by p mono n zero =
    let same : n ≡ n + 0 = omega arith in subst (λ m. p.clock n ≤ p.clock m) same (omega arith)
later_by p mono n (suc k) =
    let same : n + k + 1 ≡ n + suc k = omega arith in
    subst (λ m. p.clock n ≤ p.clock m) same (le_trans (later_by p mono n k) (mono (n + k)))

pub clock_mono : (p : Setup) → IsMonotone p → (n m : ℕ) → n ≤ m → p.clock n ≤ p.clock m
clock_mono p mono n m h =
    let same : n + (m - n) ≡ m = omega (arith, h) in
    subst (λ k. p.clock n ≤ p.clock k) same (later_by p mono n (m - n))
