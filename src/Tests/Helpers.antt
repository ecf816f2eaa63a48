-- ===== src/Tests/Helpers.antt =====
-- belt.pp/math_expression.hpp, belt.pp/timer.hpp and belt.pp/scope_helper.hpp on concrete inputs.
use belt_pp.Base.{
  ℕ, ◌+◌, ◌*◌, ◌<◌, ◌≤◌, length, ◌≡◌, refl, arith, Bool, true, false, List, [], ◌∷◌, some, ok, none,
  ◌++◌, if◌then◌else◌, leb,
}
use belt_pp.Parser.{Tree, blank_tree}
use belt_pp.Parser.Read.{ParseLimits, parse_full}
use belt_pp.Parser.Stream.{Accepted}
use belt_pp.Math.{Strtod, math_lexers, multiplication}
use belt_pp.Math.Reads.{parse_math_total}
use belt_pp.Timer.{Timer, update, expired, after, update_lem}
use belt_pp.Guards.{
  Guards, Call, make, move_make, move_assign, dismiss, destroy, assign_guard, call, calls,
  calls_lem,
}

abbrev wide : ParseLimits
wide = record { not_yet_parsed_size = 0; depth = 50; expression_size = 100; buffer_size = 100 }

-- A stand-in that reads one digit.
abbrev one_digit : List ℕ → ℕ
one_digit [] = 0
one_digit (ch ∷ rest) = if leb b'0' ch then 1 else 0

one_digit_within : (input : List ℕ) → one_digit input ≤ length input
one_digit_within [] = omega arith
one_digit_within (ch ∷ rest) = ground arith

abbrev reads_one : Strtod
reads_one = record { read = one_digit; within = one_digit_within }

-- 1+2*3
abbrev expression : List ℕ
expression = b'1' ∷ b'+' ∷ b'2' ∷ b'*' ∷ b'3' ∷ []

parse_math_total_example :
    (t : Tree) × (b : Bool) × (parse_full wide multiplication
        (math_lexers reads_one)
        blank_tree
        expression
      ≡ ok (t, b))
    × (b ≡ true → Accepted blank_tree expression t)
parse_math_total_example = parse_math_total reads_one wide expression (omega arith)

-- Set at 100 for every 10, read at 127.
abbrev tens : Timer
tens = record { is_set = true; last_point_expired = 90; timer_period = 10 }

abbrev still : ℕ → ℕ
still k = 127

update_lem_example :
    (rounds : ℕ) × (update 40 still 0 tens ≡ ok (after rounds tens))
    × ((after rounds tens).last_point_expired ≡ 90 + rounds * 10)
    × (expired (still (0 + rounds)) (after rounds tens) ≡ false)
    × ((k : ℕ) → k < rounds → expired (still (0 + k)) (after k tens) ≡ true)
update_lem_example =
    update_lem 40 still 0 127 tens refl (omega arith) (λ k. omega arith) (omega arith) (omega arith)

-- Behind two guards a third is made; the second is assigned to the first, whose cleanup throws.
abbrev two_guards : Guards ℕ
two_guards = record { cleanups = some 5 ∷ some 6 ∷ []; ran = [] }

abbrev between_calls : List (Call ℕ)
between_calls = move_assign 0 1 true ∷ dismiss 1 ∷ make none ∷ []

calls_lem_example :
    let s = calls between_calls (call (make (some 7)) two_guards) in
    ((call (destroy 2) s).ran ≡ s.ran ++ (7 ∷ []))
    × ((call (destroy 2) (call (dismiss 2) s)).ran ≡ s.ran)
    × ((call (destroy 2) (call (move_make 2) s)).ran ≡ s.ran)
    × ((call (destroy (length s.cleanups)) (call (move_make 2) s)).ran ≡ s.ran ++ (7 ∷ []))
    × ((k : ℕ) (throws : Bool) → (call (move_assign 2 k throws) s).ran ≡ s.ran ++ (7 ∷ []))
    × ((k : ℕ)
        → (call (destroy 2) (call (move_assign 2 k true) s)).ran ≡ (s.ran ++ (7 ∷ [])) ++ (7 ∷ []))
calls_lem_example =
    calls_lem 7 between_calls two_guards ((omega arith, omega arith), (omega arith, (tt, tt)))

-- The first two guards keep what they have, and the cleanup that threw has run.
assignment_that_throws :
    calls (move_assign 0 1 true ∷ []) two_guards
    ≡ record { cleanups = some 5 ∷ some 6 ∷ []; ran = 5 ∷ [] }
unfolding calls call assign_guard
assignment_that_throws = refl
