-- ===== src/Http/Percent.antt =====
-- belt.pp/http.hpp: `request::from_hex` and `request::percent_decode`.
use belt_pp.Base.{
  ℕ, zero, suc, ◌+◌, ◌-◌, ◌*◌, ◌%◌, ◌^◌, ◌&&◌, ◌||◌, List, [], ◌∷◌, ◌++◌, Option, none, some, leb,
  ◌==◌, if◌then◌else◌, Result, ok, err, no_fuel, length, take, drop, is_empty,
}
use belt_pp.Http.Split.{find_or_end}

-- `size_t(-1)`, the answer to what is no number.
abbrev pub not_hex : ℕ
not_hex = 2 ^ 64 - 1

unfoldable pub digit : ℕ → Option ℕ
digit item =
    if leb b'0' item && leb item b'9'
    then some (item - b'0')
    else if leb b'a' item && leb item b'f'
    then some (item - b'a' + 10)
    else if leb b'A' item && leb item b'F'
    then some (item - b'A' + 10)
    else none

-- The loop over the characters.
unfoldable pub from_hex_from : ℕ → List ℕ → ℕ
from_hex_from result [] = result
from_hex_from result (item ∷ rest) =
    let go = λ (v : ℕ). from_hex_from ((result * 16 + v) % 2 ^ 64) rest in
    elim (digit item) [ none ↦ not_hex | some v ↦ go v ]

unfoldable pub from_hex : List ℕ → ℕ
from_hex value = from_hex_from 0 value

-- The loop; `rest` is `value` from `find_index` on. Every round shortens it.
unfoldable pub percent_loop : ℕ → List ℕ → List ℕ → Result (List ℕ)
percent_loop zero result rest = if is_empty rest then ok result else err no_fuel
percent_loop (suc fuel) result rest =
    let next = find_or_end (b'%' ∷ []) rest in
    let code = from_hex (take 2 (drop (next + 1) rest)) in
    let more =
      if leb (length rest) (next + 2) || code == not_hex
      then result ++ rest
      else (result ++ take next rest) ++ (code % 2 ^ 8 ∷ []) in
    let go = percent_loop fuel more (drop (next + 3) rest) in
    if is_empty rest then ok result else go

unfoldable pub percent_decode : List ℕ → Result (List ℕ)
percent_decode value = percent_loop (length value) [] value
