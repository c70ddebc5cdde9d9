-- ===== src/Eval/Judge/Why.antt =====
-- When the cause that was named for a memory kill is right (`judge` of eval/run.py).
use coroner.Base.{
  String, Bool, true, false, eqb, ◌==◌, ◌≡◌, ◌↔◌, refl, sym, ◌∙◌, arith, eq_iff, eq_disjoint,
}
use coroner.Ledger.{Row}
use coroner.Eval.Catalog.{Incident}
use coroner.Eval.Judge.{
  Judged, judge, right, wrong, unscored, Named, named, written, competes, is_diagnosed, names,
  how_many, why_of,
}

-- The causes that are named are the constructed one and no other.
abbrev pub IsOnly : Named → String → Type 0
IsOnly n why =
    (names n why ≡ true) × ((other : String) → names n other ≡ true → (other == why) ≡ true)

-- The score of a diagnosed memory kill at run time: right exactly if the texts of the model name the
-- constructed cause and no other, wrong only if there is no competing hypothesis and some cause is
-- named, and unscored never.
pub record IsFair (i : Incident) (row : Row) (j : Judged) : Type 0 where
  pub right_iff : (j.oom_why ≡ right) ↔ IsOnly (named (written row)) i.why
  pub wrong_only :
      j.oom_why ≡ wrong → (competes row ≡ false) × (eqb (how_many (named (written row))) 0 ≡ false)
  pub scored : ¬ (j.oom_why ≡ unscored)

only_one :
    (n : Named) (why other : String)
    → names n why ≡ true
    → how_many n ≡ 1
    → names n other ≡ true
    → (other == why) ≡ true
only_one n why other h k e = ground (
  arith,
  h,
  k,
  e,
  eq_iff other why,
  eq_iff why "limit_too_low",
  eq_iff why "leak",
  eq_iff why "spike",
  eq_iff other "limit_too_low",
  eq_iff other "leak",
  eq_iff other "spike",
)

one_only : (n : Named) (why : String) → IsOnly n why → how_many n ≡ 1
one_only n why (h, only) = ground (
  arith,
  h,
  (λ (e : (why == "limit_too_low") ≡ true). eq_disjoint why "limit_too_low" "leak" e refl),
  (λ (e : (why == "limit_too_low") ≡ true). eq_disjoint why "limit_too_low" "spike" e refl),
  (λ (e : (why == "leak") ≡ true). eq_disjoint why "leak" "spike" e refl),
  only "limit_too_low",
  only "leak",
  only "spike",
  eq_iff "limit_too_low" why,
  eq_iff "leak" why,
  eq_iff "spike" why,
  eq_iff why "limit_too_low",
  eq_iff why "leak",
  eq_iff why "spike",
)

right-IsOnly :
    (competing : Bool) (n : Named) (why : String) → why_of competing n why ≡ right → IsOnly n why
right-IsOnly competing n why e =
    let found : names n why ≡ true = ground (arith, e) in
    let single : how_many n ≡ 1 = ground (arith, e) in
    (found, λ other. only_one n why other found single)

IsOnly-right :
    (competing : Bool) (n : Named) (why : String) → IsOnly n why → why_of competing n why ≡ right
IsOnly-right competing n why (h, only) = ground (arith, h, one_only n why (h, only))

wrong_only :
    (competing : Bool) (n : Named) (why : String)
    → why_of competing n why ≡ wrong
    → (competing ≡ false) × (eqb (how_many n) 0 ≡ false)
wrong_only competing n why e = ground (arith, e)

is_scored : (competing : Bool) (n : Named) (why : String) → ¬ (why_of competing n why ≡ unscored)
is_scored competing n why e = ground (arith, e)

-- The score of a diagnosis of a memory kill at run time is right exactly if the texts of the model
-- name the constructed cause and no other, it is wrong only if there is no competing hypothesis and
-- some cause is named, and it is never left out.
pub judge-IsFair :
    (i : Incident) (row : Row)
    → (i.failure_class == "OOMKilled") ≡ true
    → is_diagnosed row.entry.outcome ≡ true
    → IsFair i row (judge i row)
unfolding judge
judge-IsFair i row oom found =
    let scored : (judge i row).oom_why ≡ why_of (competes row) (named (written row)) i.why =
      rw (oom, found) refl in
    record {
      right_iff = (
        λ e. right-IsOnly (competes row) (named (written row)) i.why (sym scored ∙ e),
        λ only. scored ∙ IsOnly-right (competes row) (named (written row)) i.why only,
      );
      wrong_only = λ e. wrong_only (competes row) (named (written row)) i.why (sym scored ∙ e);
      scored = λ e. is_scored (competes row) (named (written row)) i.why (sym scored ∙ e);
    }
