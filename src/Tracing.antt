-- ===== src/Tracing.antt =====
-- Which tracer provider is installed (`configure` and `tracer` of brain/src/coroner_brain/tracing.py).
-- OpenTelemetry is other code: a provider is what it exports to.
use coroner.Base.{
  ℕ, String, Bool, true, false, not, ◌&&◌, Option, none, some, List, is_some, or_else,
  if◌then◌else◌, ◌==◌, ◌≡◌, refl,
}
use coroner.Base.Text.{codes, codes_eq, lower, strip, or_text, parts, rstrip_code}
use coroner.Base.{[], ◌∷◌}

-- What a provider exports to: the exporter of a test, an OTLP endpoint if one is known, or the console.
pub data Provider : Type 0 where
  custom : Provider
  otlp : Option String → Provider
  console : Provider

-- The two variables of the module.
pub record TracingState : Type 0 where
  pub provider : Option Provider
  pub mode : List ℕ

-- `f"{endpoint.rstrip('/')}/v1/traces" if endpoint else None`
abbrev target_of : String → Option String
target_of endpoint =
    if endpoint == "" then none else some (parts (rstrip_code 47 endpoint ∷ "/v1/traces" ∷ []))

-- the environment is a parameter
module _ (environ : String → Option String) where
  abbrev mode_of : Option String → List ℕ
  mode_of mode =
      let given = or_else mode "" in
      let default = or_else (environ "CORONER_TRACING") "console" in
      lower (codes (strip (or_text given default)))

  abbrev endpoint_of : Option String → String
  endpoint_of endpoint =
      or_text (or_else endpoint "") (or_else (environ "OTEL_EXPORTER_OTLP_ENDPOINT") "")

  abbrev installed : List ℕ → Option String → Bool → TracingState
  installed mode endpoint has_exporter =
      if has_exporter
      then record { provider = some custom; mode = codes "custom" }
      else if codes_eq mode (codes "otlp")
      then record { provider = some (otlp (target_of (endpoint_of endpoint))); mode = mode }
      else record { provider = some console; mode = codes "console" }

  -- the new state, whose mode is what `configure` returns
  unfoldable pub configure :
      Option String → Option String → Bool → Bool → TracingState → TracingState
  unfolding lower strip rstrip_code
  configure given endpoint has_exporter force s =
      let mode = mode_of given in
      if is_some s.provider && not force
      then s
      else if codes_eq mode (codes "off") && not has_exporter
      then record { provider = none; mode = codes "off" }
      else installed mode endpoint has_exporter

  -- Configuring again without force changes nothing once a provider is installed, whatever is asked
  -- for the second time.
  configure-again :
      (given endpoint given' endpoint' : Option String) (has has' force : Bool) (s : TracingState)
      → is_some (configure given endpoint has force s).provider ≡ true
      → configure given' endpoint' has' false (configure given endpoint has force s)
        ≡ configure given endpoint has force s
  unfolding configure
  configure-again given endpoint given' endpoint' has has' force s h = rw h refl
