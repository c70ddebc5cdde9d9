-- ===== src/Examples/OfSchema.antt =====
-- The schema of an object with one property that has a default.
use coroner.Base.{◌≡◌, refl, true, false}
use coroner.Json.{Json, obj, arr, str, bool, field, end, cons, nil, lookup}
use coroner.Schema.{strictify}
use coroner.Schema.Strict.{is_closed, is_closed-strictify}

abbrev schema : Json
schema = obj (
    field "type" (str "object") (
      field "properties"
        (obj (field "cause" (obj (field "default" (str "") (field "type" (str "string") end))) end))
        end))

strict_test :
    strictify schema
    ≡ obj (
        field "type" (str "object") (
          field "properties" (obj (field "cause" (obj (field "type" (str "string") end)) end)) (
            field "additionalProperties"
              (bool false)
              (field "required" (arr (cons (str "cause") nil)) end))))
unfolding strictify lookup
strict_test = refl

is_closed-strictify_example : is_closed (strictify schema) ≡ true
is_closed-strictify_example = is_closed-strictify schema
