-- ===== src/Http/Malformed.antt =====
-- `percent_decode` on every text, malformed ones included.
use belt_pp.Base.{
  ℕ, zero, suc, ◌+◌, ◌%◌, ◌^◌, ◌≤◌, ◌≡◌, refl, ap, sym, ◌∙◌, Bool, true, false, ◌||◌, List, [], ◌∷◌,
  ◌++◌, if◌then◌else◌, ◌==◌, leb, length, take, drop, length-append, length-drop, append-nil,
  append_assoc, arith, Result, ok, err,
}
use belt_pp.Http.Split.{find_or_end}
use belt_pp.Http.Find.{Without}
use belt_pp.Http.Percent.{not_hex, from_hex, percent_loop, percent_decode}
use belt_pp.Http.Rounds.{escaped, percent_nil, percent_round, round_bad}

abbrev prefixed : List ℕ → Result (List ℕ) → Result (List ℕ)
prefixed r (err fault) = err fault
prefixed r (ok w) = ok (r ++ w)

more_prefixed :
    (b : Bool) (r s rest part : List ℕ) (c : ℕ)
    → (if b then (r ++ s) ++ rest else ((r ++ s) ++ part) ++ (c ∷ []))
      ≡ r ++ (if b then s ++ rest else (s ++ part) ++ (c ∷ []))
more_prefixed true r s rest part c = append_assoc r s rest
more_prefixed false r s rest part c =
    ap (λ t. t ++ (c ∷ [])) (append_assoc r s part) ∙ append_assoc r (s ++ part) (c ∷ [])

drop_bound : (n f : ℕ) (rest : List ℕ) → length rest ≤ suc f → length (drop (n + 3) rest) ≤ f
drop_bound n f rest h = omega (arith, length-drop (n + 3) rest)

-- What is in `result` stays in front, and more fuel changes nothing.
percent_loop-prefixed :
    (f f' : ℕ) (r s rest : List ℕ)
    → length rest ≤ f
    → length rest ≤ f'
    → percent_loop f (r ++ s) rest ≡ prefixed r (percent_loop f' s rest)
percent_loop-prefixed f f' r s [] h h' =
    percent_nil f (r ++ s) ∙ ap (prefixed r) (sym (percent_nil f' s))
percent_loop-prefixed zero f' r s (x ∷ rest) h h' = absurd (omega arith)
percent_loop-prefixed (suc f) zero r s (x ∷ rest) h h' = absurd (omega arith)
percent_loop-prefixed (suc f) (suc f') r s (x ∷ rest) h h' =
    let text = x ∷ rest in
    let n = find_or_end (b'%' ∷ []) text in
    let code = from_hex (take 2 (drop (n + 1) text)) in
    let bad = leb (length text) (n + 2) || code == not_hex in
    percent_round f (r ++ s) text refl
    ∙ ap (λ t. percent_loop f t (drop (n + 3) text))
        (more_prefixed bad r s text (take n text) (code % 2 ^ 8))
    ∙ percent_loop-prefixed f f' r
        (if bad then s ++ text else (s ++ take n text) ++ (code % 2 ^ 8 ∷ [])) (drop (n + 3) text)
        (drop_bound n f text h) (drop_bound n f' text h')
    ∙ ap (prefixed r) (sym (percent_round f' s text refl))

percent_loop-Returns :
    (f : ℕ) (s rest : List ℕ) → length rest ≤ f → (w : List ℕ) × (percent_loop f s rest ≡ ok w)
percent_loop-Returns f s [] h = (s, percent_nil f s)
percent_loop-Returns zero s (x ∷ rest) h = absurd (omega arith)
percent_loop-Returns (suc f) s (x ∷ rest) h =
    let text = x ∷ rest in
    let n = find_or_end (b'%' ∷ []) text in
    let code = from_hex (take 2 (drop (n + 1) text)) in
    let more =
      if leb (length text) (n + 2) || code == not_hex
      then s ++ text
      else (s ++ take n text) ++ (code % 2 ^ 8 ∷ []) in
    let (w, e) = percent_loop-Returns f more (drop (n + 3) text) (drop_bound n f text h) in
    (w, percent_round f s text refl ∙ e)

-- `percent_decode` returns on every text.
pub percent_decode_total : (value : List ℕ) → (w : List ℕ) × (percent_decode value ≡ ok w)
unfolding percent_decode
percent_decode_total value = percent_loop-Returns (length value) [] value (omega arith)

-- Where the first `%` of a text is not followed by a hexadecimal number, `percent_decode` puts the
-- whole text into its result and then, once more, the decoded text behind the two characters.
pub percent_decode_twice :
    (u v : List ℕ) (h l : ℕ)
    → Without b'%' u
    → from_hex (h ∷ l ∷ []) ≡ not_hex
    → (w : List ℕ) × (percent_decode v ≡ ok w)
      × (percent_decode (escaped u h l v) ≡ ok (escaped u h l v ++ w))
unfolding percent_decode
percent_decode_twice u v h l free bad =
    let (w, e) = percent_decode_total v in
    let text = escaped u h l v in
    let enough = length-append u (b'%' ∷ h ∷ l ∷ v) in
    let fuel = length u + length v + 2 in
    let rounds : length text ≡ suc fuel = omega arith in
    (
      w,
      e,
      ap (λ n. percent_loop n [] text) rounds
          ∙ round_bad fuel [] u h l v free bad
          ∙ ap (λ t. percent_loop fuel t v) (sym (append-nil text))
          ∙ percent_loop-prefixed fuel (length v) text [] v (omega arith) (omega arith)
          ∙ ap (prefixed text) e,
    )
