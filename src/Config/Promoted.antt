-- ===== src/Config/Promoted.antt =====
-- The promoted failure types (`_csv` of brain/src/coroner_brain/config.py).
use coroner.Base.{
  String, ◌≡◌, refl, ap, ◌∙◌, Bool, true, false, not, List, [], ◌∷◌, any, eqb, arith, ◌==◌,
}
use coroner.Base.Text.{codes, cat, join, strip, split_on}
use coroner.Config.{csv, stripped_parts}

-- no comma in the text
abbrev pub no_comma : String → Bool
no_comma s = not (any (λ c. eqb c 44) (codes s))

split_plain : (s : String) → no_comma s ≡ true → split_on 44 s ≡ (s, [])
unfolding split_on
split_plain String.[] h = refl
split_plain (String.◌∷◌ c s) h = ground (arith, split_plain s)

split_first :
    (s rest : String)
    → no_comma s ≡ true
    → split_on 44 (cat s (cat "," rest)) ≡ (s, (split_on 44 rest).0 ∷ (split_on 44 rest).1)
unfolding split_on
split_first String.[] rest h = refl
split_first (String.◌∷◌ c s) rest h = ground (arith, split_first s rest)

-- A name as a setting may list it: without a comma, and without white space at its ends.
pub record IsName (s : String) : Type 0 where
  pub plain : no_comma s ≡ true
  pub trimmed : strip s ≡ s
  pub nonempty : (s == "") ≡ false

abbrev pub AreNames : List String → Type 0
AreNames [] = Unit
AreNames (s ∷ ss) = IsName s × (any (λ t. t == s) ss ≡ false) × AreNames ss

split-join :
    (s : String) (ss : List String)
    → IsName s
    → AreNames ss
    → split_on 44 (join "," (s ∷ ss)) ≡ (s, ss)
split-join s [] n ns = split_plain s n.plain
split-join s (t ∷ ss) n (m, once, ns) =
    split_first s (join "," (t ∷ ss)) n.plain ∙ ap (λ x. (s, x.0 ∷ x.1)) (split-join t ss m ns)

stripped_parts-names : (ss : List String) → AreNames ss → stripped_parts ss ≡ ss
stripped_parts-names [] ns = refl
stripped_parts-names (s ∷ ss) (n, once, ns) =
    rw (stripped_parts-names ss ns, n.trimmed, n.nonempty, once) refl

-- The promoted types are read back from the setting that lists them, separated by commas, if no
-- name is empty, holds a comma or has white space at its ends, and none is listed twice.
csv-join : (ss : List String) → AreNames ss → csv (join "," ss) ≡ ss
unfolding csv split_on
csv-join [] ns = refl
csv-join (s ∷ ss) (n, once, ns) =
    ap (λ x. stripped_parts (x.0 ∷ x.1)) (split-join s ss n ns)
    ∙ stripped_parts-names (s ∷ ss) (n, once, ns)
