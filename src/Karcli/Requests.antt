-- ===== src/Karcli/Requests.antt =====
-- `populateResourceListV1` of pkg/karcli/job/util.go, over the parser of quantities.
use Prim.Native.Char.{Char, code}
use kube_arbitrator.Common.{
  ◌≡◌, refl, List, [], ◌∷◌, Option, none, some, String, string_key, text_is_empty, if◌then◌else◌,
}
use kube_arbitrator.Common.Map.{Map, insert}
use kube_arbitrator.Karcli.Split.{split}

-- The errors of the commands.
pub data CliError : Type 0 where
  invalid_argument : String → CliError
  from_library : String → CliError

-- What a call returns beside its error.
pub data Result {ℓ} (A : Type ℓ) : Type ℓ where
  returned : A → Result A
  failed : CliError → Result A

-- The rest of a function after a call whose error it returns.
abbrev pub and_return {ℓ κ} : {A : Type ℓ} {B : Type κ} → Result A → (A → Result B) → Result B
and_return (returned x) rest = rest x
and_return (failed e) rest = failed e

pub and_return_congr {ℓ κ} :
    {A : Type ℓ} {B : Type κ} (q : Result A) (f g : A → Result B)
    → ((x : A) → f x ≡ g x)
    → and_return q f ≡ and_return q g
and_return_congr (returned x) f g h = h x
and_return_congr (failed e) f g h = refl

pub and_return-eq {ℓ κ} :
    {A : Type ℓ} {B : Type κ} (q : Result A) (rest : A → Result B) (y : B)
    → and_return q rest ≡ returned y
    → (x : A) × (q ≡ returned x) × (rest x ≡ returned y)
and_return-eq (returned x) rest y h = (x, refl, h)
and_return-eq (failed e) rest y h = cc

abbrev pub comma : Char
comma = ","

abbrev pub equals : Char
equals = "="

-- `len(parts) != 2`, and the two parts.
abbrev pub two_parts : List String → Option (String × String)
two_parts (name ∷ value ∷ []) = some (name, value)
two_parts _ = none

module _ {Quantity : Type 0} (parse_quantity : String → Result Quantity) where
  -- The loop over the statements.
  unfoldable pub populate : Map String Quantity → List String → Result (Map String Quantity)
  unfolding split
  populate result [] = returned result
  populate result (statement ∷ statements) = elim (two_parts (split (code equals) statement)) [
    | none ↦ failed (invalid_argument statement)
    | some (name, value) ↦
        and_return (parse_quantity value) (λ q. populate (insert name q result) statements)
  ]

  -- `populateResourceListV1`, with `none` for the nil map.
  unfoldable pub populate_resource_list_v1 : String → Result (Option (Map String Quantity))
  unfolding populate
  populate_resource_list_v1 spec =
      if text_is_empty spec
      then returned none
      else and_return (populate [] (split (code comma) spec)) (λ r. returned (some r))
