-- ===== src/Common/Text.antt =====
-- Texts as identifiers: a decision of equality that runs, and the byte order of Go's `<`.
use Prim.Native.String.{String, compare}
use mathlib.Core.Path.{◌≡◌, refl}
use mathlib.Core.Logic.{◌↔◌}
use mathlib.Core.Bool.{Bool, true, false}
use text.Mathlib.Text.{is_lt, ◌==◌}
use text.Mathlib.TextEquality.{eq_iff}
use kube_arbitrator.Common.Map.{Key}

decide_by : (s t : String) (b : Bool) → ((b ≡ true) ↔ (s ≡ t)) → Dec (s ≡ t)
decide_by s t true h = yes (h.0 refl)
decide_by s t false h = no (λ e. cc (h.1 e))

unfoldable pub String_discrete : Discrete String
unfolding decide_by
String_discrete s t = decide_by s t (s == t) (eq_iff s t)

instance abbrev pub string_key : Key String
string_key = record { dec = String_discrete }

-- Go's `s == t`.
abbrev pub text_same : String → String → Bool
text_same s t = s == t

-- Go's `s < t` on strings: bytewise, which on UTF-8 is the order of the code points.
abbrev pub text_lt : String → String → Bool
text_lt s t = is_lt (compare s t)

-- `len(s) == 0`.
abbrev pub text_is_empty : String → Bool
text_is_empty s = s == ""

pub text_is_empty_iff : (s : String) → (text_is_empty s ≡ true) ↔ (s ≡ "")
text_is_empty_iff s = eq_iff s ""
