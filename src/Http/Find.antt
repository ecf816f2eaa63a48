-- ===== src/Http/Find.antt =====
-- Where `find` meets a separator of one character.
use belt_pp.Base.{
  ℕ, ◌≡◌, ◌≢◌, refl, true, false, List, [], ◌∷◌, ◌++◌, none, some, ◌==◌, length, arith,
}
use belt_pp.Http.Split.{starts_with, find, find_or_end}

-- A text without the character `c`.
abbrev pub Without : ℕ → List ℕ → Type 0
Without c [] = Unit {0}
Without c (x ∷ xs) = (x ≢ c) × Without c xs

-- The separator is `c` with `cs` behind it; a text without `c` has no occurrence.
find_free : (c : ℕ) (cs u : List ℕ) → Without c u → find (c ∷ cs) u ≡ none
unfolding find
find_free c cs [] h = refl
find_free c cs (x ∷ u) (ne, h) =
    let e = find_free c cs u h in let t : (c == x) ≡ false = ground arith in rw (t, e) refl

starts_with_self : (cs v : List ℕ) → starts_with cs (cs ++ v) ≡ true
starts_with_self [] v = refl
starts_with_self (c ∷ cs) v =
    let t : (c == c) ≡ true = ground arith in rw (t, starts_with_self cs v) refl

pub find_first :
    (c : ℕ) (cs u v : List ℕ) → Without c u → find (c ∷ cs) (u ++ (c ∷ (cs ++ v))) ≡ some (length u)
unfolding find
find_first c cs [] v h =
    let t : (c == c) ≡ true = ground arith in rw (t, starts_with_self cs v) refl
find_first c cs (x ∷ u) v (ne, h) =
    let e = find_first c cs u v h in let t : (c == x) ≡ false = ground arith in rw (t, e) refl

pub find_or_end-free : (c : ℕ) (cs u : List ℕ) → Without c u → find_or_end (c ∷ cs) u ≡ length u
unfolding find_or_end
find_or_end-free c cs u h = rw (find_free c cs u h, find_or_end) refl

pub find_or_end-first :
    (c : ℕ) (cs u v : List ℕ) → Without c u → find_or_end (c ∷ cs) (u ++ (c ∷ (cs ++ v))) ≡ length u
unfolding find_or_end
find_or_end-first c cs u v h = rw (find_first c cs u v h, find_or_end) refl

pub append-Without : (c : ℕ) (u v : List ℕ) → Without c u → Without c v → Without c (u ++ v)
append-Without c [] v h k = k
append-Without c (x ∷ u) v (ne, h) k = (ne, append-Without c u v h k)
