-- ===== src/Approval/Token.antt =====
-- The approval token (`sign` and `verify` of brain/src/coroner_brain/approval.py). The keyed hash
-- and the text of a date are other code: parameters.
use Prim.Native.String.{◌++◌}
use coroner.Base.{String, ◌≡◌, Bool, Option, some, ◌==◌}
use coroner.Contract.{Instant}

pub record Crypto : Type 0 where
  -- hmac.new(secret, message, sha256).hexdigest()
  pub hexdigest : String → String → String
  -- datetime.isoformat, and datetime.fromisoformat, which raises on other text
  pub isoformat : Instant → String
  pub fromisoformat : String → Option Instant
  pub fromisoformat-isoformat : (t : Instant) → fromisoformat (isoformat t) ≡ some t

-- What a token binds: the keyword arguments of `sign`.
pub record Claims : Type 0 where
  pub incident_id : String
  pub context_hash : String
  pub decision : String
  pub action : String
  pub decided_at : String

abbrev pub token_version : String
token_version = "v1"

-- "|".join([...])
unfoldable pub message : Claims → String
message c =
    token_version
    ++ ("|"
        ++ (c.incident_id
            ++ ("|"
                ++ (c.context_hash
                    ++ ("|" ++ (c.decision ++ ("|" ++ (c.action ++ ("|" ++ c.decided_at)))))))))

unfoldable pub sign : Crypto → String → Claims → String
unfolding message
sign k secret c = token_version ++ ("." ++ k.hexdigest secret (message c))

-- `hmac.compare_digest` is equality
unfoldable pub verify : Crypto → String → String → Claims → Bool
unfolding sign
verify k secret token c = sign k secret c == token
