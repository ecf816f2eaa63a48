-- ===== src/Http/Split.antt =====
-- belt.pp/http.hpp: `request::split`.
use belt_pp.Base.{
  ℕ, zero, suc, ◌+◌, ◌-◌, Bool, true, false, ◌&&◌, ◌||◌, not, List, [], ◌∷◌, ◌++◌, Option, none,
  some, ltb, ◌==◌, if◌then◌else◌, Result, ok, err, no_fuel, length, take, drop, is_empty,
}

abbrev pub starts_with : List ℕ → List ℕ → Bool
starts_with [] s = true
starts_with (x ∷ xs) [] = false
starts_with (x ∷ xs) (y ∷ ys) = x == y && starts_with xs ys

-- `std::string::find`: where `sep` first occurs in `s`.
unfoldable pub find : List ℕ → List ℕ → Option ℕ
find sep [] = if is_empty sep then some 0 else none
find sep (c ∷ s) =
    let later : Option ℕ = elim (find sep s) [ none ↦ none | some i ↦ some (suc i) ] in
    if starts_with sep (c ∷ s) then some 0 else later

-- `npos` taken for the end.
unfoldable pub find_or_end : List ℕ → List ℕ → ℕ
find_or_end sep s = elim (find sep s) [ none ↦ length s | some i ↦ i ]

-- What the four arguments behind `value` say.
pub record Options : Type 0 where
  pub separator : List ℕ
  pub skip_empty : Bool
  pub limit : ℕ
  pub till_the_end : Bool

-- `next_index`, counted from `find_index`; `rest` is `value` from there on.
unfoldable pub next_index : Options → List (List ℕ) → List ℕ → ℕ
next_index o parts rest =
    if length parts == o.limit - 1 && o.till_the_end
    then length rest
    else find_or_end o.separator rest

-- The loop. A round with a separator that is not empty shortens `rest`.
unfoldable pub split_loop : ℕ → Options → List (List ℕ) → List ℕ → Result (List (List ℕ))
split_loop zero o parts rest =
    if not (is_empty rest) && ltb (length parts) o.limit then err no_fuel else ok parts
split_loop (suc fuel) o parts rest =
    let next = next_index o parts rest in
    let part = take next rest in
    let more = if not (is_empty part) || not o.skip_empty then parts ++ (part ∷ []) else parts in
    let go = split_loop fuel o more (drop (next + length o.separator) rest) in
    if not (is_empty rest) && ltb (length parts) o.limit then go else ok parts

unfoldable pub split : Options → List ℕ → Result (List (List ℕ))
split o value = split_loop (length value) o [] value
