-- ===== src/Slack/Form.antt =====
-- url.Values as the client uses it: a form with one value for each key.
use crossplane_provider_slac.Base.{String, Option, none, some, List, [], ◌∷◌, ◌==◌, if◌then◌else◌}

abbrev pub Form : Type 0
Form = List (String × String)

-- vals.Set(key, value)
unfoldable pub set : String → String → Form → Form
set key value [] = (key, value) ∷ []
set key value ((k, v) ∷ form) =
    if k == key then (key, value) ∷ form else (k, v) ∷ set key value form

-- if value != "" { vals.Set(key, value) }
unfoldable pub set_given : String → String → Form → Form
set_given key value form = if value == "" then form else set key value form

-- vals.Get(key), with `none` for a key that is not there.
unfoldable pub get : String → Form → Option String
get key [] = none
get key ((k, v) ∷ form) = if k == key then some v else get key form
