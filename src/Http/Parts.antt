-- ===== src/Http/Parts.antt =====
-- `split` on texts joined with its separator.
use belt_pp.Base.{
  dec_lt, ℕ, zero, suc, ◌+◌, ◌<◌, ◌≤◌, ◌≡◌, refl, ◌∙◌, false, ◌||◌, not, List, [], ◌∷◌, ◌++◌,
  if◌then◌else◌, ltb, lt→ltb, if_cases, length, take, drop, length-append, length-drop, arith, ok,
  is_empty,
}
use belt_pp.Http.Split.{Options, next_index, split_loop, split}

-- `parts` behind a round that found `part`.
abbrev pub with_part : Options → List (List ℕ) → List ℕ → List (List ℕ)
with_part o parts part =
    if not (is_empty part) || not o.skip_empty then parts ++ (part ∷ []) else parts

pub split_nil :
    (fuel : ℕ) (o : Options) (parts : List (List ℕ)) → split_loop fuel o parts [] ≡ ok parts
unfolding split_loop
split_nil zero o parts = refl
split_nil (suc fuel) o parts = refl

pub split_round :
    (fuel : ℕ) (o : Options) (parts : List (List ℕ)) (c : ℕ) (rest : List ℕ)
    → length parts < o.limit
    → split_loop (suc fuel) o parts (c ∷ rest)
      ≡ split_loop fuel o
          (with_part o parts (take (next_index o parts (c ∷ rest)) (c ∷ rest)))
          (drop (next_index o parts (c ∷ rest) + length o.separator) (c ∷ rest))
unfolding split_loop
split_round fuel o parts c rest h = let t = lt→ltb (length parts) o.limit h in rw t refl

pub split_full :
    (fuel : ℕ) (o : Options) (parts : List (List ℕ)) (rest : List ℕ)
    → o.limit ≤ length parts
    → split_loop fuel o parts rest ≡ ok parts
unfolding split_loop
split_full fuel o parts [] h = split_nil fuel o parts
split_full zero o parts (c ∷ rest) h =
    let t : ltb (length parts) o.limit ≡ false = ground arith in rw t refl
split_full (suc fuel) o parts (c ∷ rest) h =
    let t : ltb (length parts) o.limit ≡ false = ground arith in rw t refl

length-with_part :
    (o : Options) (parts : List (List ℕ)) (part : List ℕ)
    → length (with_part o parts part) ≤ suc (length parts)
length-with_part o parts part =
    if_cases (λ t. length t ≤ suc (length parts)) (not (is_empty part) || not o.skip_empty)
      (parts ++ (part ∷ [])) parts (λ _. omega (arith, length-append parts (part ∷ [])))
      (λ _. omega arith)

split_loop-Returns :
    (fuel : ℕ) (o : Options) (parts : List (List ℕ)) (rest : List ℕ)
    → 0 < length o.separator
    → length rest ≤ fuel
    → length parts ≤ o.limit
    → (result : List (List ℕ)) × (split_loop fuel o parts rest ≡ ok result)
      × (length result ≤ o.limit)
split_loop-Returns fuel o parts [] s h l = (parts, split_nil fuel o parts, l)
split_loop-Returns zero o parts (c ∷ rest) s h l = absurd (omega arith)
split_loop-Returns (suc fuel) o parts (c ∷ rest) s h l = elim (dec_lt (length parts) o.limit) [
  | yes lt ↦
      let next = next_index o parts (c ∷ rest) in
      let part = take next (c ∷ rest) in
      let (result, e, b) =
        split_loop-Returns fuel o (with_part o parts part)
          (drop (next + length o.separator) (c ∷ rest)) s
          (omega (arith, length-drop (next + length o.separator) (c ∷ rest)))
          (omega (arith, length-with_part o parts part)) in
      (result, split_round fuel o parts c rest lt ∙ e, b)
  | no ge ↦ (parts, split_full (suc fuel) o parts (c ∷ rest) (omega arith), l)
]

-- With a separator that is not empty, `split` returns on every text, with at most `limit` parts.
pub split_total :
    (o : Options) (value : List ℕ)
    → 0 < length o.separator
    → (parts : List (List ℕ)) × (split o value ≡ ok parts) × (length parts ≤ o.limit)
unfolding split
split_total o value s = split_loop-Returns (length value) o [] value s (omega arith) (omega arith)
