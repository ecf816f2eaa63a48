-- ===== src/Http/Lines.antt =====
-- Where `check_end` finds the end of a line.
use belt_pp.Base.{
  ℕ, suc, ◌+◌, ◌≡◌, ◌≢◌, refl, ap, sym, ◌∙◌, true, false, List, [], ◌∷◌, ◌++◌, some, none, ◌==◌,
  length, arith,
}
use belt_pp.Http.Find.{Without}
use belt_pp.Http.Scan.{agree_from, check_end}

pub agree_nil : (n : ℕ) (text : List ℕ) → agree_from n text [] ≡ some n
unfolding agree_from
agree_nil n [] = refl
agree_nil n (x ∷ text) = refl

pub agree_all :
    (n : ℕ) (value text : List ℕ) → agree_from n (value ++ text) value ≡ some (n + length value)
unfolding agree_from
agree_all n [] text = agree_nil n text ∙ ap some (omega arith)
agree_all n (v ∷ value) text =
    let t : (v == v) ≡ true = ground arith in
    let e = agree_all (suc n) value text in rw (t, e) (ap some (omega arith))

pub agree_none :
    (c v : ℕ) (text value : List ℕ) → v ≢ c → agree_from 0 (c ∷ text) (v ∷ value) ≡ none
unfolding agree_from
agree_none c v text value ne = let t : (v == c) ≡ false = ground arith in rw (t, agree_from) refl

pub check_end_skip :
    (c v : ℕ) (text value : List ℕ)
    → v ≢ c
    → check_end (c ∷ text) (v ∷ value)
      ≡ (suc (check_end text (v ∷ value)).0, suc (check_end text (v ∷ value)).1)
unfolding check_end
check_end_skip c v text value ne = rw (agree_none c v text value ne, check_end) refl

-- A line without the first character of its ending.
pub check_end_line :
    (line : List ℕ) (v : ℕ) (value text : List ℕ)
    → Without v line
    → check_end (line ++ (v ∷ (value ++ text))) (v ∷ value)
      ≡ (length line, length line + suc (length value))
unfolding check_end
check_end_line [] v value text free = let e = agree_all 0 (v ∷ value) text in rw (e, check_end) refl
check_end_line (c ∷ line) v value text (ne, free) =
    let e = check_end_line line v value text free in
    check_end_skip c v (line ++ (v ∷ (value ++ text))) value (λ q. ne (sym q))
    ∙ ap (λ (p : ℕ × ℕ). (suc p.0, suc p.1)) e
    ∙ ap (λ n. (suc (length line), n)) (omega arith)
