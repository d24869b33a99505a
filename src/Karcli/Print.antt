-- ===== src/Karcli/Print.antt =====
-- Which texts are resource requests, and what they stand for.
use Prim.Native.Char.{Char, code}
use Prim.Native.String
use text.Mathlib.TextLemmas.{nil-append, cons-append, cons-ne-nil}
use kube_arbitrator.Common.{
  ℕ, ◌≡◌, ◌↔◌, refl, sym, ap, ◌∙◌, List, [], ◌∷◌, map, Option, none, some, String, string_key,
  text_is_empty, text_is_empty_iff, arith, ◌≢◌, Bool-cases, inl, inr, ◌⊎◌,
}
use kube_arbitrator.Common.Lists.{All}
use kube_arbitrator.Common.Map.{Map, insert}
use kube_arbitrator.Karcli.Split.{split, Lacks, split_one, split_first}
use kube_arbitrator.Karcli.Requests.{
  Result, returned, failed, invalid_argument, and_return, and_return_congr, and_return-eq, comma,
  equals, two_parts, populate, populate_resource_list_v1,
}

-- How a list of requests is written on the command line.
abbrev pub statement : String × String → String
statement (name, value) = String.◌++◌ name (String.◌∷◌ equals value)

abbrev pub print : List (String × String) → String
print [] = ""
print (e ∷ []) = statement e
print (e ∷ f ∷ es) = String.◌++◌ (statement e) (String.◌∷◌ comma (print (f ∷ es)))

-- Neither the name nor the value holds a separator.
abbrev pub IsClean : String × String → Type 0
IsClean (name, value) =
    Lacks (code equals) name
    × Lacks (code equals) value
    × Lacks (code comma) name
    × Lacks (code comma) value

Lacks-append :
    (sep : ℕ) (p : String) (c : Char) (q : String)
    → Lacks sep p
    → code c ≢ sep
    → Lacks sep q
    → Lacks sep (String.◌++◌ p (String.◌∷◌ c q))
Lacks-append sep String.[] c q h n k = rw (nil-append (String.◌∷◌ c q)) (n, k)
Lacks-append sep (String.◌∷◌ d p) c q h n k =
    rw (cons-append d p (String.◌∷◌ c q)) (h.0, Lacks-append sep p c q h.1 n k)

statement-split :
    (e : String × String) → IsClean e → split (code equals) (statement e) ≡ e.0 ∷ e.1 ∷ []
statement-split (name, value) h =
    split_first name equals value h.0 ∙ ap (λ r. name ∷ r) (split_one (code equals) value h.1)

statement-Lacks : (e : String × String) → IsClean e → Lacks (code comma) (statement e)
statement-Lacks (name, value) h = Lacks-append (code comma) name equals value h.2 (omega arith) h.3

print-split :
    (e : String × String) (es : List (String × String))
    → All IsClean (e ∷ es)
    → split (code comma) (print (e ∷ es)) ≡ map statement (e ∷ es)
print-split e [] h = split_one (code comma) (statement e) (statement-Lacks e h.0)
print-split e (f ∷ es) h =
    split_first (statement e) comma (print (f ∷ es)) (statement-Lacks e h.0)
    ∙ ap (λ r. statement e ∷ r) (print-split f es h.1)

append-ne_empty : (p : String) (c : Char) (q : String) → String.◌++◌ p (String.◌∷◌ c q) ≢ ""
append-ne_empty String.[] c q e = cons-ne-nil c q (sym (nil-append (String.◌∷◌ c q)) ∙ e)
append-ne_empty (String.◌∷◌ d p) c q e =
    cons-ne-nil d (String.◌++◌ p (String.◌∷◌ c q)) (sym (cons-append d p (String.◌∷◌ c q)) ∙ e)

print-ne_empty : (e : String × String) (es : List (String × String)) → print (e ∷ es) ≢ ""
print-ne_empty (name, value) [] = append-ne_empty name equals value
print-ne_empty e (f ∷ es) = append-ne_empty (statement e) comma (print (f ∷ es))

module _ {Quantity : Type 0} (parse_quantity : String → Result Quantity) where
  -- The quantities of a list of requests, one after the other, up to the first error.
  abbrev pub read_all : Map String Quantity → List (String × String) → Result (Map String Quantity)
  read_all result [] = returned result
  read_all result ((name, value) ∷ es) =
      and_return (parse_quantity value) (λ q. read_all (insert name q result) es)

  populate-statements :
      (es : List (String × String)) (result : Map String Quantity)
      → All IsClean es
      → populate parse_quantity result (map statement es) ≡ read_all result es
  unfolding populate
  populate-statements [] result h = refl
  populate-statements ((name, value) ∷ es) result h =
      let parts : split (code equals) (statement (name, value)) ≡ name ∷ value ∷ [] =
        statement-split (name, value) h.0 in
      rw (parts, populate)
        (and_return_congr (parse_quantity value) _ _
          (λ q. populate-statements es (insert name q result) h.1))

  -- A list of one or more requests whose names and values are free of commas and equality signs is read back as it
  -- was written: the result maps each name to its quantity, the last one where a name occurs twice,
  -- or is the error on the first value that is no quantity.
  pub populate_resource_list_v1-print :
      (e : String × String) (es : List (String × String))
      → All IsClean (e ∷ es)
      → populate_resource_list_v1 parse_quantity (print (e ∷ es))
        ≡ and_return (read_all [] (e ∷ es)) (λ r. returned (some r))
  unfolding populate_resource_list_v1
  populate_resource_list_v1-print e es h = ground (
    arith,
    text_is_empty_iff (print (e ∷ es)),
    print-ne_empty e es,
    print-split e es h,
    populate-statements (e ∷ es) [] h,
  )

  -- One name, one equality sign, one quantity.
  abbrev pub IsStatement : String → Type 0
  IsStatement st =
      (name : String) × (value : String) × (q : Quantity) × (split (code equals) st
        ≡ name ∷ value ∷ [])
      × (parse_quantity value ≡ returned q)

  abbrev Succeeds : {A : Type 0} → Result A → Type 0
  Succeeds {A} r = (x : A) × (r ≡ returned x)

  two_parts_eq :
      (parts : List String) (name value : String)
      → two_parts parts ≡ some (name, value)
      → parts ≡ name ∷ value ∷ []
  two_parts_eq (a ∷ b ∷ []) name value h = ground (arith, h)
  two_parts_eq [] name value h = cc
  two_parts_eq (a ∷ []) name value h = cc
  two_parts_eq (a ∷ b ∷ c ∷ more) name value h = cc

  populate-Succeeds :
      (sts : List String) (result : Map String Quantity)
      → All IsStatement sts
      → Succeeds (populate parse_quantity result sts)
  unfolding populate
  populate-Succeeds [] result h = (result, refl)
  populate-Succeeds (st ∷ sts) result ((name, value, q, parts, parsed), h) =
      let (r, e) = populate-Succeeds sts (insert name q result) h in
      (r, rw (parts, populate) (rw parsed e))

  accepted :
      (st : String) (o : Option (String × String))
      (rest : String → Quantity → Result (Map String Quantity)) (r : Map String Quantity)
      → two_parts (split (code equals) st) ≡ o
      → ◌≡◌ {A = Result (Map String Quantity)}
          (elim o [
            | none ↦ failed (invalid_argument st)
            | some (name, value) ↦ and_return (parse_quantity value) (λ q. rest name q)
          ])
          (returned r)
      → IsStatement st × ((name : String) × (q : Quantity) × (rest name q ≡ returned r))
  accepted st none rest r e k = cc
  accepted st (some (name, value)) rest r e k =
      let (q, parsed, h) = and_return-eq (parse_quantity value) (λ q. rest name q) r k in
      ((name, value, q, two_parts_eq _ name value e, parsed), (name, q, h))

  populate-IsStatement :
      (sts : List String) (result r : Map String Quantity)
      → populate parse_quantity result sts ≡ returned r
      → All IsStatement sts
  unfolding populate
  populate-IsStatement [] result r h = tt
  populate-IsStatement (st ∷ sts) result r h =
      let (here, (name, q, rest)) =
        accepted st (two_parts (split (code equals) st))
          (λ name q. populate parse_quantity (insert name q result) sts) r refl h in
      (here, populate-IsStatement sts (insert name q result) r rest)

  -- A text is accepted exactly when it is empty or each of its parts between commas has exactly one equality
  -- sign, followed by a quantity. Else the error is returned and no list.
  pub populate_resource_list_v1_iff :
      (spec : String)
      → ((r : Option (Map String Quantity)) × (populate_resource_list_v1 parse_quantity spec
            ≡ returned r))
        ↔ ((spec ≡ "") ⊎ All IsStatement (split (code comma) spec))
  unfolding populate_resource_list_v1
  populate_resource_list_v1_iff spec = (
    λ (r, h). elim (Bool-cases (text_is_empty spec)) [
      | inl e ↦ inl ((text_is_empty_iff spec).0 e)
      | inr e ↦
          let (m, k, _) =
            and_return-eq (populate parse_quantity [] (split (code comma) spec)) _ r (rw e at h) in
          inr (populate-IsStatement (split (code comma) spec) [] m k)
    ],
    λ h. elim (Bool-cases (text_is_empty spec)) [
      | inl e ↦ (none, rw e refl)
      | inr e ↦ elim h [
        | inl empty ↦ absurd (ground (arith, e, (text_is_empty_iff spec).1 empty))
        | inr all ↦
            let (m, k) = populate-Succeeds (split (code comma) spec) [] all in
            (some m, rw e (rw k refl))
      ]
    ],
  )
