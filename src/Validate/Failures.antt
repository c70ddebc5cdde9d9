-- ===== src/Validate/Failures.antt =====
-- The texts of the failures, as `validate` of brain/src/coroner_brain/validate.py and `_diagnose` of
-- brain/src/coroner_brain/graph.py format them, over code points.
use coroner.Base.{
  ℕ, zero, suc, ◌/◌, ◌%◌, Bool, false, not, ◌&&◌, ◌||◌, List, [], ◌∷◌, ◌++◌, concat, any, ltb, eqb,
  if◌then◌else◌, ◌≡◌, refl,
}
use coroner.Base.Text.{codes, decimal}
use coroner.Diagnosis.{
  Failure, empty_evidence, missing_field, empty_value, value_mismatch, fabricated_quote,
  did_not_parse,
}
use coroner.Json.Dumps.{hex_digit}

-- the last digits of a number in base 16
unfoldable pub hex_digits : ℕ → ℕ → List ℕ
unfolding hex_digit
hex_digits zero n = []
hex_digits (suc width) n = hex_digits width (n / 16) ++ (hex_digit (n % 16) ∷ [])

-- `s[:n]`
abbrev pub first : ℕ → List ℕ → List ℕ
first zero s = []
first (suc n) [] = []
first (suc n) (c ∷ s) = c ∷ first n s

-- `str.isprintable` of a code point that is not ASCII is a parameter
module _ (is_printable : ℕ → Bool) where
  -- one code point of a literal in the quote `q`
  unfoldable pub repr_code : ℕ → ℕ → List ℕ
  unfolding hex_digits
  repr_code q c =
      if eqb c q || eqb c 92
      then 92 ∷ c ∷ []
      else if eqb c 9
      then codes "\\t"
      else if eqb c 10
      then codes "\\n"
      else if eqb c 13
      then codes "\\r"
      else if ltb c 32 || eqb c 127
      then codes "\\x" ++ hex_digits 2 c
      else if ltb c 127 || is_printable c
      then c ∷ []
      else if ltb c 256
      then codes "\\x" ++ hex_digits 2 c
      else if ltb c 65536
      then codes "\\u" ++ hex_digits 4 c
      else codes "\\U" ++ hex_digits 8 c

  unfoldable pub repr_all : ℕ → List ℕ → List ℕ
  unfolding repr_code
  repr_all q [] = []
  repr_all q (c ∷ s) = repr_code q c ++ repr_all q s

  -- `repr` of a text: between double quotes if it has single quotes only
  unfoldable pub repr : List ℕ → List ℕ
  unfolding repr_all
  repr s =
      let q = if any (eqb 39) s && not (any (eqb 34) s) then 34 else 39 in
      q ∷ (repr_all q s ++ (q ∷ []))

  unfoldable pub failure_text : Failure → List ℕ
  unfolding repr
  failure_text empty_evidence =
      codes "evidence array is empty; a diagnosis must cite the fields it rests on"
  failure_text (missing_field path) =
      concat
        (codes "cited field " ∷ repr (codes path) ∷ codes " does not exist in the contract" ∷ [])
  failure_text (empty_value path) =
      concat (codes "citation for " ∷ repr (codes path) ∷ codes " has an empty value" ∷ [])
  failure_text (value_mismatch path value) = concat (
      codes "cited value for "
      ∷ repr (codes path)
      ∷ codes " does not match the contract "
      ∷ codes "(cited "
      ∷ repr (first 60 (codes value))
      ∷ codes ")"
      ∷ [])
  failure_text (fabricated_quote q) = concat (
      codes "quoted text "
      ∷ repr (first 60 q)
      ∷ codes " does not appear in the collected evidence"
      ∷ [])
  failure_text (did_not_parse errors) = concat (
      codes "model output did not parse against the schema: "
      ∷ codes (decimal errors)
      ∷ codes " error(s)"
      ∷ [])

repr_test : repr (λ c. false) (codes "it's\t1") ≡ codes "\"it's\\t1\""
unfolding repr
repr_test = refl
