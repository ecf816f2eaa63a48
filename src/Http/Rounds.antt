-- ===== src/Http/Rounds.antt =====
-- One round of the loop of `percent_decode`.
use belt_pp.Base.{
  drop_all, ℕ, zero, suc, ◌+◌, ◌%◌, ◌^◌, ◌≤◌, ◌≡◌, ◌≢◌, refl, ap, sym, ◌∙◌, true, false, ◌||◌, List,
  [], ◌∷◌, ◌++◌, leb, ◌==◌, if◌then◌else◌, length, take, drop, take-append, drop-append,
  length-append, arith, Result, ok, is_empty, append-nil,
}
use belt_pp.Http.Split.{find_or_end}
use belt_pp.Http.Find.{Without, find_or_end-free, find_or_end-first}
use belt_pp.Http.Percent.{not_hex, from_hex, percent_loop}

-- What the loop does behind one round.
abbrev pub next_round : ℕ → List ℕ → List ℕ → ℕ → Result (List ℕ)
next_round fuel result rest next =
    let code = from_hex (take 2 (drop (next + 1) rest)) in
    percent_loop fuel
      (if leb (length rest) (next + 2) || code == not_hex
        then result ++ rest
        else (result ++ take next rest) ++ (code % 2 ^ 8 ∷ []))
      (drop (next + 3) rest)

pub percent_nil : (fuel : ℕ) (result : List ℕ) → percent_loop fuel result [] ≡ ok result
unfolding percent_loop
percent_nil zero result = refl
percent_nil (suc fuel) result = refl

pub percent_round :
    (fuel : ℕ) (result rest : List ℕ)
    → is_empty rest ≡ false
    → percent_loop (suc fuel) result rest
      ≡ next_round fuel result rest (find_or_end (b'%' ∷ []) rest)
unfolding percent_loop
percent_round fuel result rest e = rw e refl

pub append_not_empty : (u v : List ℕ) (c : ℕ) → is_empty (u ++ (c ∷ v)) ≡ false
append_not_empty [] v c = refl
append_not_empty (x ∷ u) v c = refl

-- A text with a `%` behind `u`.
abbrev pub escaped : List ℕ → ℕ → ℕ → List ℕ → List ℕ
escaped u h l v = u ++ (b'%' ∷ h ∷ l ∷ v)

module _ (fuel : ℕ) (result u : List ℕ) (h l : ℕ) (v : List ℕ) (free : Without b'%' u) where
  escaped_round :
      percent_loop (suc fuel) result (escaped u h l v)
      ≡ percent_loop fuel
          (if from_hex (h ∷ l ∷ []) == not_hex
            then result ++ escaped u h l v
            else (result ++ u) ++ (from_hex (h ∷ l ∷ []) % 2 ^ 8 ∷ []))
          v
  escaped_round =
      let inside : leb (length (escaped u h l v)) (length u + 2) ≡ false =
        (let e = length-append u (b'%' ∷ h ∷ l ∷ v) in ground arith) in
      percent_round fuel result (escaped u h l v) (append_not_empty u (h ∷ l ∷ v) b'%')
      ∙ ap (next_round fuel result (escaped u h l v)) (find_or_end-first b'%' [] u (h ∷ l ∷ v) free)
      ∙ rw
          (
            inside,
            drop-append u (b'%' ∷ h ∷ l ∷ v) 1,
            drop-append u (b'%' ∷ h ∷ l ∷ v) 3,
            take-append u (b'%' ∷ h ∷ l ∷ v),
          )
          refl

  -- A `%` with two hexadecimal digits.
  pub round_good :
      from_hex (h ∷ l ∷ []) ≢ not_hex
      → percent_loop (suc fuel) result (escaped u h l v)
        ≡ percent_loop fuel ((result ++ u) ++ (from_hex (h ∷ l ∷ []) % 2 ^ 8 ∷ [])) v
  round_good ne =
      let t : (from_hex (h ∷ l ∷ []) == not_hex) ≡ false = ground arith in
      escaped_round
      ∙ ap
          (λ b.
            percent_loop fuel
              (if b
                then result ++ escaped u h l v
                else (result ++ u) ++ (from_hex (h ∷ l ∷ []) % 2 ^ 8 ∷ []))
              v)
          t

  -- A `%` with something else: all the rest of the text goes to the result, and the loop goes on
  -- inside it.
  pub round_bad :
      from_hex (h ∷ l ∷ []) ≡ not_hex
      → percent_loop (suc fuel) result (escaped u h l v)
        ≡ percent_loop fuel (result ++ escaped u h l v) v
  round_bad e =
      let t : (from_hex (h ∷ l ∷ []) == not_hex) ≡ true = ground arith in
      escaped_round
      ∙ ap
          (λ b.
            percent_loop fuel
              (if b
                then result ++ escaped u h l v
                else (result ++ u) ++ (from_hex (h ∷ l ∷ []) % 2 ^ 8 ∷ []))
              v)
          t

-- A text without a `%`.
pub round_free :
    (fuel : ℕ) (result u : List ℕ)
    → Without b'%' u
    → length u ≤ fuel
    → percent_loop fuel result u ≡ ok (result ++ u)
round_free zero result [] free h = percent_nil zero result ∙ ap ok (sym (append-nil result))
round_free zero result (x ∷ u) free h = absurd (omega arith)
round_free (suc fuel) result [] free h =
    percent_nil (suc fuel) result ∙ ap ok (sym (append-nil result))
round_free (suc fuel) result (x ∷ u) free h =
    let past : leb (length (x ∷ u)) (length (x ∷ u) + 2) ≡ true = ground arith in
    percent_round fuel result (x ∷ u) refl
    ∙ ap (next_round fuel result (x ∷ u)) (find_or_end-free b'%' [] (x ∷ u) free)
    ∙ rw (past, drop_all (length (x ∷ u) + 3) (x ∷ u) (omega arith))
        (percent_nil fuel (result ++ (x ∷ u)))
