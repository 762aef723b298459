-- ===== src/Tests/Flags.antt =====
-- Texts that hold Booleans, for the bodies of requests to a test Slack.
use crossplane_provider_slac.Base.{◌≡◌, refl, String, Bool, true, false, code, nat_eq}

-- A text that begins with a Boolean.
abbrev pub flagged : Bool → String → String
flagged true text = String.◌∷◌ "t" text
flagged false text = String.◌∷◌ "f" text

abbrev pub flag : String → Bool
flag String.[] = false
flag (String.◌∷◌ c text) = nat_eq (code c) b't'

abbrev pub behind : String → String
behind String.[] = ""
behind (String.◌∷◌ c text) = text

pub flag-flagged : (b : Bool) (text : String) → flag (flagged b text) ≡ b
flag-flagged true text = refl
flag-flagged false text = refl

pub behind-flagged : (b : Bool) (text : String) → behind (flagged b text) ≡ text
behind-flagged true text = refl
behind-flagged false text = refl
