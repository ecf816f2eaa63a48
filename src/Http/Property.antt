-- ===== src/Http/Property.antt =====
-- `add_property` on a header line.
use belt_pp.Base.{
  suc, ◌+◌, ◌≡◌, refl, ap, ◌∙◌, true, false, [], ◌∷◌, ◌++◌, length, length-append, arith, ok,
  is_empty,
}
use belt_pp.Http.Split.{next_index, split_loop, split}
use belt_pp.Http.Request.{Text, Request, assign, add_property}
use belt_pp.Http.Join.{IsPart, options, part_round, last_round}

property_parts :
    (name value : Text)
    → IsPart b':' name
    → is_empty value ≡ false
    → split (options b':' (b' ' ∷ []) false 2 true) (name ++ (b':' ∷ b' ' ∷ value))
      ≡ ok (name ∷ value ∷ [])
unfolding split next_index
property_parts name value h v =
    let o = options b':' (b' ' ∷ []) false 2 true in
    let text = name ++ (b':' ∷ b' ' ∷ value) in
    let fuel = length name + length value in
    let rounds : length text ≡ suc (suc fuel) =
      omega (arith, length-append name (b':' ∷ b' ' ∷ value)) in
    ap (λ n. split_loop n o [] text) rounds
    ∙ part_round b':' (b' ' ∷ []) false 2 true (suc fuel) [] name value h (omega arith) refl
    ∙ last_round b':' (b' ' ∷ []) false 2 true fuel (name ∷ []) value v (omega arith) refl

-- A line `name: value`, with a name that is not empty and has no colon and with a value that is not
-- empty, sets the property `name` to the whole `value`, colons in it included.
pub add_property_lem :
    (r : Request) (name value : Text)
    → IsPart b':' name
    → is_empty value ≡ false
    → add_property r (name ++ (b':' ∷ b' ' ∷ value))
      ≡ ok (record r { properties = assign r.properties name value }, true)
unfolding add_property
add_property_lem r name value h v = rw (property_parts name value h v) refl
