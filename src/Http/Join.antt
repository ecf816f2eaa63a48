-- ===== src/Http/Join.antt =====
-- `split` takes apart what was joined with its separator.
use belt_pp.Base.{
  ℕ, zero, suc, ◌+◌, ◌-◌, ◌<◌, ◌≤◌, ◌≡◌, refl, ap, ◌∙◌, Bool, true, false, ◌&&◌, List, [], ◌∷◌,
  ◌++◌, ◌==◌, length, take, drop, take_all, drop_all, drop_prefix, take-append, drop-append,
  length-append, append_assoc, arith, ok, is_empty,
}
use mathlib.Core.Bool.{true≢false}
use belt_pp.Http.Split.{Options, find_or_end, next_index, split_loop, split}
use belt_pp.Http.Find.{Without, find_or_end-free, find_or_end-first}
use belt_pp.Http.Parts.{with_part, split_nil, split_round}

abbrev pub IsPart : ℕ → List ℕ → Type 0
IsPart c p = (is_empty p ≡ false) × Without c p

-- Where the last place for a part is not to be filled with all the rest.
abbrev pub Seeks : Options → List (List ℕ) → Type 0
Seeks o parts = (length parts == o.limit - 1 && o.till_the_end) ≡ false

next_index-find :
    (o : Options) (parts : List (List ℕ)) (rest : List ℕ)
    → Seeks o parts
    → next_index o parts rest ≡ find_or_end o.separator rest
unfolding next_index
next_index-find o parts rest e = rw (e, next_index) refl

with_part_some :
    (o : Options) (parts : List (List ℕ)) (p : List ℕ)
    → is_empty p ≡ false
    → with_part o parts p ≡ parts ++ (p ∷ [])
with_part_some o parts p e = rw e refl

abbrev pub options : ℕ → List ℕ → Bool → ℕ → Bool → Options
options c cs skip limit till = record {
  separator = c ∷ cs;
  skip_empty = skip;
  limit = limit;
  till_the_end = till;
}

module _ (c : ℕ) (cs : List ℕ) (skip : Bool) (limit : ℕ) (till : Bool) where
  -- A part with a separator behind it.
  pub part_round :
      (fuel : ℕ) (done : List (List ℕ)) (p v : List ℕ)
      → IsPart c p
      → length done < limit
      → Seeks (options c cs skip limit till) done
      → split_loop (suc fuel) (options c cs skip limit till) done (p ++ (c ∷ (cs ++ v)))
        ≡ split_loop fuel (options c cs skip limit till) (done ++ (p ∷ [])) v
  part_round fuel done [] v (some_char, free) l s = absurd (true≢false some_char)
  part_round fuel done (x ∷ p) v (some_char, free) l s =
      let o = options c cs skip limit till in
      let text = p ++ (c ∷ (cs ++ v)) in
      split_round fuel o done x text l
      ∙ ap
          (λ n.
            split_loop fuel o (with_part o done (take n (x ∷ text)))
              (drop (n + suc (length cs)) (x ∷ text)))
          (next_index-find o done (x ∷ text) s ∙ find_or_end-first c cs (x ∷ p) v free)
      ∙ rw
          (
            take-append (x ∷ p) (c ∷ (cs ++ v)),
            drop-append (x ∷ p) (c ∷ (cs ++ v)) (suc (length cs)),
            drop_prefix cs v,
          )
          refl

  -- A part with nothing behind it.
  pub last_round :
      (fuel : ℕ) (done : List (List ℕ)) (p : List ℕ)
      → is_empty p ≡ false
      → length done < limit
      → next_index (options c cs skip limit till) done p ≡ length p
      → split_loop (suc fuel) (options c cs skip limit till) done p ≡ ok (done ++ (p ∷ []))
  last_round fuel done [] some_char l e = absurd (true≢false some_char)
  last_round fuel done (x ∷ p) some_char l e =
      let o = options c cs skip limit till in
      split_round fuel o done x p l
      ∙ ap
          (λ n.
            split_loop fuel o (with_part o done (take n (x ∷ p)))
              (drop (n + suc (length cs)) (x ∷ p)))
          e
      ∙ rw (take_all (x ∷ p), drop_all (length (x ∷ p) + suc (length cs)) (x ∷ p) (omega arith))
          (split_nil fuel o (done ++ ((x ∷ p) ∷ [])))

Seeks-any :
    (c : ℕ) (skip : Bool) (limit : ℕ) (done : List (List ℕ))
    → Seeks (options c [] skip limit false) done
Seeks-any c skip limit done = go (length done == limit - 1)
  where
    go : (b : Bool) → (b && false) ≡ false
    go true = refl
    go false = refl

-- The parts with the character `c` between them.
abbrev pub joined : ℕ → List ℕ → List (List ℕ) → List ℕ
joined c p [] = p
joined c p (q ∷ ps) = p ++ (c ∷ joined c q ps)

abbrev pub AreParts : ℕ → List (List ℕ) → Type 0
AreParts c [] = Unit {0}
AreParts c (p ∷ ps) = IsPart c p × AreParts c ps

joined_positive :
    (c : ℕ) (p : List ℕ) (ps : List (List ℕ)) → is_empty p ≡ false → 0 < length (joined c p ps)
joined_positive c [] ps h = absurd (true≢false h)
joined_positive c (x ∷ p) [] h = omega arith
joined_positive c (x ∷ p) (q ∷ ps) h = omega arith

pub split_loop-joined :
    (c : ℕ) (skip : Bool) (limit fuel : ℕ) (done : List (List ℕ)) (p : List ℕ) (ps : List (List ℕ))
    → IsPart c p
    → AreParts c ps
    → length (joined c p ps) ≤ fuel
    → length done + suc (length ps) ≤ limit
    → split_loop fuel (options c [] skip limit false) done (joined c p ps) ≡ ok (done ++ (p ∷ ps))
split_loop-joined c skip limit zero done p ps h hs f l =
    absurd (omega (arith, joined_positive c p ps h.0))
split_loop-joined c skip limit (suc fuel) done p [] h hs f l =
    let o = options c [] skip limit false in
    last_round c [] skip limit false fuel done p h.0 (omega arith)
      (next_index-find o done p (Seeks-any c skip limit done) ∙ find_or_end-free c [] p h.1)
split_loop-joined c skip limit (suc fuel) done p (q ∷ ps) h (hq, hs) f l =
    part_round c [] skip limit false fuel done p (joined c q ps) h (omega arith)
      (Seeks-any c skip limit done)
    ∙ split_loop-joined c skip limit fuel (done ++ (p ∷ [])) q ps hq hs
        (omega (arith, length-append p (c ∷ joined c q ps)))
        (omega (arith, length-append done (p ∷ [])))
    ∙ ap ok (append_assoc done (p ∷ []) (q ∷ ps))

-- `split` at a character gives back the non-empty parts without that character from which a text
-- was joined, when they are not more than `limit`.
pub split-joined :
    (c : ℕ) (skip : Bool) (limit : ℕ) (p : List ℕ) (ps : List (List ℕ))
    → IsPart c p
    → AreParts c ps
    → suc (length ps) ≤ limit
    → split (options c [] skip limit false) (joined c p ps) ≡ ok (p ∷ ps)
unfolding split
split-joined c skip limit p ps h hs l =
    split_loop-joined c skip limit (length (joined c p ps)) [] p ps h hs (omega arith) (omega arith)

-- A separator in front is skipped.
pub split-lead :
    (c limit : ℕ) (v : List ℕ)
    → 0 < limit
    → split (options c [] true limit false) (c ∷ v) ≡ split (options c [] true limit false) v
unfolding split
split-lead c limit v l =
    let o = options c [] true limit false in
    split_round (length v) o [] c v l
    ∙ ap (λ n. split_loop (length v) o (with_part o [] (take n (c ∷ v))) (drop (n + 1) (c ∷ v)))
        (next_index-find o [] (c ∷ v) (Seeks-any c true limit []) ∙ find_or_end-first c [] [] v tt)

pub split_none : (c limit : ℕ) → split (options c [] true limit false) [] ≡ ok []
unfolding split
split_none c limit = split_nil 0 (options c [] true limit false) []
