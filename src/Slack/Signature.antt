-- ===== src/Slack/Signature.antt =====
-- The signature of a Slack request (`verify_signature` and `sign_request` of
-- brain/src/coroner_brain/slack.py). The keyed hash is a parameter, and so is Python's `int` of a text.
-- Bytes are the text whose code points they are.
use Prim.Native.String.{◌++◌}
use coroner.Base.{
  ℕ, suc, ◌+◌, ◌-◌, ◌≤◌, String, ◌≡◌, refl, ◌↔◌, Bool, true, false, not, ◌||◌, Option, none, some,
  leb, if◌then◌else◌, ◌==◌, eq_iff, arith, ◌≢◌, sym, ◌∙◌, subst, Option-cases, inl, inr,
}
use mathlib.Core.Option.{some-injective}
use coroner.Base.Text.{append-not_empty}
use coroner.Contract.{ℤ, pos, negsuc, Instant}
use coroner.Inflight.{seconds}
use coroner.Approval.{Crypto}

abbrev pub max_request_age_seconds : ℕ
max_request_age_seconds = 300

unfoldable pub sign_request : Crypto → String → String → String → String
sign_request k secret timestamp body =
    "v0=" ++ k.hexdigest secret ("v0:" ++ (timestamp ++ (":" ++ body)))

-- `abs(current - sent_at)` in microseconds; an instant is one after 1970
abbrev pub age : Instant → ℤ → ℕ
age now (pos sent) = (now - seconds sent) + (seconds sent - now)
age now (negsuc n) = now + seconds (suc n)

-- `none` is the ValueError of `int`
abbrev fresh : Instant → Option ℤ → Bool
fresh now none = false
fresh now (some sent) = leb (age now sent) (seconds max_request_age_seconds)

module _ (k : Crypto) (int : String → Option ℤ) where
  unfoldable pub verify_signature : String → String → String → String → Instant → Bool
  unfolding sign_request
  verify_signature secret timestamp body signature now =
      if secret == "" || timestamp == "" || signature == ""
      then false
      else if not (fresh now (int timestamp))
      then false
      else sign_request k secret timestamp body == signature

  unread_fails :
      (secret timestamp body signature : String) (now : Instant)
      → int timestamp ≡ none
      → verify_signature secret timestamp body signature now ≢ true
  unfolding verify_signature
  unread_fails secret timestamp body signature now e h = ground arith

  read_verifies :
      (secret timestamp body signature : String) (sent : ℤ) (now : Instant)
      → int timestamp ≡ some sent
      → (verify_signature secret timestamp body signature now ≡ true) ↔ (
          ((secret == "") ≡ false)
          × ((timestamp == "") ≡ false)
          × (age now sent ≤ seconds max_request_age_seconds)
          × (sign_request k secret timestamp body ≡ signature))
  unfolding verify_signature sign_request
  read_verifies secret timestamp body signature sent now parsed = ground (
    arith,
    eq_iff (sign_request k secret timestamp body) signature,
    eq_iff signature "",
    eq_iff (sign_request k secret timestamp body) "",
    append-not_empty "v0=" (k.hexdigest secret ("v0:" ++ (timestamp ++ (":" ++ body)))) refl,
  )

  -- A request passes exactly if a secret is configured, its timestamp is not empty and reads as a
  -- number at most 300 seconds away from now, and its signature is the one that the secret gives
  -- for that timestamp and that body.
  pub verify_signature_iff :
      (secret timestamp body signature : String) (now : Instant)
      → (verify_signature secret timestamp body signature now ≡ true) ↔ (
          ((secret == "") ≡ false)
          × ((timestamp == "") ≡ false)
          × ((sent : ℤ) × (int timestamp ≡ some sent)
              × (age now sent ≤ seconds max_request_age_seconds))
          × (sign_request k secret timestamp body ≡ signature))
  verify_signature_iff secret timestamp body signature now = elim (Option-cases (int timestamp)) [
    | inl none_read ↦ (
      λ v. absurd (unread_fails secret timestamp body signature now none_read v),
      λ h. absurd (ground (arith, none_read, h.2.1)),
    )
    | inr (sent, read) ↦
        let law = read_verifies secret timestamp body signature sent now read in
        (
          λ v. let (a, b, c, d) = law.0 v in (a, b, (sent, read, c), d),
          λ h. law.1 (
            h.0,
            h.1,
            subst (λ n. age now n ≤ seconds max_request_age_seconds)
                (some-injective h.2.0 sent (sym h.2.1 ∙ read)) h.2.2,
            h.3,
          ),
        )
  ]
