-- ===== src/Approval/Injective.antt =====
-- What the message under an approval token says of its claims
-- (`sign` of brain/src/coroner_brain/approval.py).
use Prim.Native.Char.{code}
use Prim.Native.String
use Prim.Native.String.append
use text.Mathlib.TextEquality.{Char-path}
use coroner.Base.{
  ℕ, String, ◌≡◌, refl, ap, Bool, true, false, not, ◌&&◌, List, [], ◌∷◌, ◌++◌, eqb, arith,
}
use coroner.Base.Text.{codes}
use coroner.Approval.Token.{Claims, message}

-- no "|" in the text
abbrev pub no_bar : List ℕ → Bool
no_bar [] = true
no_bar (c ∷ s) = not (eqb c 124) && no_bar s

bar_inside : (a d : List ℕ) → no_bar (a ++ 124 ∷ d) ≡ false
bar_inside [] d = refl
bar_inside (c ∷ a) d = ground (arith, bar_inside a d)

split_first :
    (a b t u : List ℕ)
    → no_bar a ≡ true
    → no_bar b ≡ true
    → a ++ 124 ∷ t ≡ b ++ 124 ∷ u
    → (a ≡ b) × (t ≡ u)
split_first [] [] t u h k e = ground arith
split_first [] (c ∷ b) t u h k e = ground arith
split_first (c ∷ a) [] t u h k e = ground arith
split_first (c ∷ a) (d ∷ b) t u h k e = ground (arith, split_first a b t u)

split_last :
    (a b t u : List ℕ)
    → no_bar t ≡ true
    → no_bar u ≡ true
    → a ++ 124 ∷ t ≡ b ++ 124 ∷ u
    → (a ≡ b) × (t ≡ u)
split_last [] [] t u h k e = ground arith
split_last [] (c ∷ b) t u h k e = ground (arith, bar_inside b u)
split_last (c ∷ a) [] t u h k e = ground (arith, bar_inside a t)
split_last (c ∷ a) (d ∷ b) t u h k e = ground (arith, split_last a b t u)

codes-append : (s t : String) → codes (String.◌++◌ s t) ≡ codes s ++ codes t
codes-append String.[] t = rw append.nil
codes-append (String.◌∷◌ c s) t =
    rw append.cons (ap (λ (l : List ℕ). code c ∷ l) (codes-append s t))

codes_inj : (s t : String) → codes s ≡ codes t → s ≡ t
codes_inj String.[] String.[] e = refl
codes_inj String.[] (String.◌∷◌ d t) e = absurd (ground arith)
codes_inj (String.◌∷◌ c s) String.[] e = absurd (ground arith)
codes_inj (String.◌∷◌ c s) (String.◌∷◌ d t) e = cc (Char-path c d (cc), codes_inj s t (cc))

-- Every field but the action is free of the separator.
pub record IsPlain (c : Claims) : Type 0 where
  pub incident_id : no_bar (codes c.incident_id) ≡ true
  pub context_hash : no_bar (codes c.context_hash) ≡ true
  pub decision : no_bar (codes c.decision) ≡ true
  pub decided_at : no_bar (codes c.decided_at) ≡ true

abbrev fields : Claims → List ℕ
fields c =
    codes c.incident_id
    ++ (124
        ∷ (codes c.context_hash
            ++ (124
                ∷ (codes c.decision ++ (124 ∷ (codes c.action ++ (124 ∷ codes c.decided_at)))))))

codes-message : (c : Claims) → codes (message c) ≡ 118 ∷ 49 ∷ 124 ∷ fields c
unfolding message
codes-message c = simp (codes-append)

-- Two sets of claims with the same signed message are the same claims, whatever their actions
-- hold, if no other field holds the separator "|".
pub message_inj : (c d : Claims) → IsPlain c → IsPlain d → message c ≡ message d → c ≡ d
message_inj c d p q e =
    let whole : fields c ≡ fields d = cc (codes-message c, codes-message d, ap codes e) in
    let (ids, rest₁) = split_first _ _ _ _ p.incident_id q.incident_id whole in
    let (hashes, rest₂) = split_first _ _ _ _ p.context_hash q.context_hash rest₁ in
    let (decisions, rest₃) = split_first _ _ _ _ p.decision q.decision rest₂ in
    let (actions, dates) = split_last _ _ _ _ p.decided_at q.decided_at rest₃ in
    cc (
      codes_inj c.incident_id d.incident_id ids,
      codes_inj c.context_hash d.context_hash hashes,
      codes_inj c.decision d.decision decisions,
      codes_inj c.action d.action actions,
      codes_inj c.decided_at d.decided_at dates,
    )
