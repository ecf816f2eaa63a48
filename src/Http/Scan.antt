-- ===== src/Http/Scan.antt =====
-- belt.pp/parser.hpp: `check_begin` and `check_end`. Iterators are offsets from `iter_scan_begin`.
use belt_pp.Base.{ℕ, suc, List, [], ◌∷◌, Option, none, some, ◌==◌, if◌then◌else◌}

-- The loop that both have, up to its first mismatch: how many characters agree before one of the
-- two texts ends.
unfoldable pub agree_from : ℕ → List ℕ → List ℕ → Option ℕ
agree_from n [] value = some n
agree_from n (x ∷ text) [] = some n
agree_from n (x ∷ text) (v ∷ value) =
    let more = agree_from (suc n) text value in if v == x then more else none

unfoldable pub check_begin : List ℕ → List ℕ → ℕ
check_begin text value = elim (agree_from 0 text value) [ none ↦ 0 | some n ↦ n ]

-- On a mismatch the loop of `check_end` starts anew, one character on.
unfoldable pub check_end : List ℕ → List ℕ → ℕ × ℕ
check_end [] value = (0, 0)
check_end (x ∷ text) value =
    let later = check_end text value in
    elim (agree_from 0 (x ∷ text) value) [ none ↦ (suc later.0, suc later.1) | some n ↦ (0, n) ]
