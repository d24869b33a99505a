-- ===== src/Karcli/Split.antt =====
-- Go's `strings.Split` at a separator of one ASCII character, given by its code.
use Prim.Native.Char.{Char, code}
use kube_arbitrator.Common.{ℕ, ◌≡◌, ◌≢◌, refl, List, [], ◌∷◌, String, arith, ◌==◌, if◌then◌else◌}
use Prim.Native.String
use text.Mathlib.TextLemmas.{nil-append, cons-append}

-- A character in front of the first part.
abbrev begin_with : Char → List String → List String
begin_with c [] = String.◌∷◌ c "" ∷ []
begin_with c (p ∷ ps) = String.◌∷◌ c p ∷ ps

unfoldable pub split : ℕ → String → List String
split sep String.[] = "" ∷ []
split sep (String.◌∷◌ c s) =
    let rest = split sep s in if code c == sep then "" ∷ rest else begin_with c rest

-- The separator does not occur.
abbrev pub Lacks : ℕ → String → Type 0
Lacks sep String.[] = Unit
Lacks sep (String.◌∷◌ c s) = (code c ≢ sep) × Lacks sep s

-- A text without the separator is one part.
pub split_one : (sep : ℕ) (s : String) → Lacks sep s → split sep s ≡ s ∷ []
unfolding split
split_one sep String.[] h = refl
split_one sep (String.◌∷◌ c s) h = ground (arith, split_one sep s h.1, h.0)

-- What stands before the first separator is the first part.
pub split_first :
    (p : String) (sep : Char) (rest : String)
    → Lacks (code sep) p
    → split (code sep) (String.◌++◌ p (String.◌∷◌ sep rest)) ≡ p ∷ split (code sep) rest
unfolding split
split_first String.[] sep rest h = rw (nil-append (String.◌∷◌ sep rest)) (ground arith)
split_first (String.◌∷◌ c s) sep rest h =
    rw (cons-append c s (String.◌∷◌ sep rest)) (ground (arith, split_first s sep rest h.1, h.0))
