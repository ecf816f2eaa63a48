-- ===== src/Tests/Queues.antt =====
-- belt.pp/queue.hpp on concrete queues: a vector of four slots that goes round its end, and one
-- whose indices wrap past 2 ^ 64.
use belt_pp.Base.{ℕ, ◌-◌, ◌^◌, ◌≡◌, refl, inr, arith, List, [], ◌∷◌, err, terminate}
use belt_pp.Queue.{
  Queue, next2pow, next2pow_from, at, valid_index, pop, push, reserve, construct, capacity2pow,
  grow, relocate, put, append, get_free_range,
}
use belt_pp.Queue.Pow2.{next2pow_lem, Found}
use belt_pp.Queue.Contents.{IsValid, contents}
use belt_pp.Queue.Push.{MakesRoom, reserve_lem, Pushes, push_lem, push_wraps, WrapsFull}
use belt_pp.Queue.Model.{Op, put_back, drop_front, read, Reply, done, value, failed}
use belt_pp.Queue.Model
use belt_pp.Queue.Refine.{run, run_refines}
use belt_pp.Queue.FreeRange.{IsFreeRange, get_free_range_lem}

-- 7 and 8 at the end of the vector, 9 at its start; one round is already counted.
abbrev wrapped : Queue ℕ
wrapped = record { start = 2; size = 3; loops = 1; buf = 9 ∷ 0 ∷ 7 ∷ 8 ∷ [] }

wrapped-IsValid : IsValid wrapped
wrapped-IsValid = record {
  shape = inr ((2, omega arith, refl), omega arith);
  fits = omega arith;
  word = omega arith;
}

-- All four slots taken, and the index behind the last element has come to 2 ^ 64.
abbrev wrapping : Queue ℕ
wrapping = record { start = 0; size = 4; loops = 2 ^ 62 - 1; buf = 1 ∷ 2 ∷ 3 ∷ 4 ∷ [] }

wrapping-IsValid : IsValid wrapping
wrapping-IsValid = record {
  shape = inr ((2, omega arith, refl), omega arith);
  fits = omega arith;
  word = omega arith;
}

contents-wrapped : contents 0 wrapped ≡ 7 ∷ 8 ∷ 9 ∷ []
contents-wrapped = refl

abbrev script : List (Op ℕ)
script = put_back 1 ∷ put_back 2 ∷ read 6 ∷ drop_front ∷ read 10 ∷ read 6 ∷ []

run-wrapped : run 0 wrapped script ≡ done ∷ done ∷ value 7 ∷ done ∷ value 2 ∷ failed terminate ∷ []
unfolding run push pop at valid_index reserve append grow construct capacity2pow next2pow
    next2pow_from relocate put
run-wrapped = refl

next2pow_lem_example : Found 100 (next2pow 100)
next2pow_lem_example = next2pow_lem 100 (omega arith)

not_full : ¬ WrapsFull wrapped
not_full (_, full, _) = omega arith

reserve_lem_example : MakesRoom 0 wrapped (reserve 0 64 wrapped)
reserve_lem_example =
    reserve_lem 0 64 wrapped-IsValid (omega arith) (omega arith) (omega arith) not_full

push_lem_example : Pushes 0 wrapped 5 (push 0 wrapped 5)
push_lem_example = push_lem 0 5 wrapped-IsValid (omega arith) not_full

push_wraps_example : push 0 wrapping 5 ≡ err terminate
push_wraps_example = push_wraps 0 5 wrapping-IsValid (omega arith) (omega arith, refl, refl)

run_refines_example : run 0 wrapped script ≡ Model.run 6 (7 ∷ 8 ∷ 9 ∷ []) script
run_refines_example =
    run_refines 0 script 6 (7 ∷ 8 ∷ 9 ∷ [])
      (record { valid = wrapped-IsValid; from = refl; same = refl }) (omega arith) (omega arith)

get_free_range_lem_example : IsFreeRange wrapped (get_free_range wrapped)
get_free_range_lem_example = get_free_range_lem wrapped-IsValid (omega arith)
