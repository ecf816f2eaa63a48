-- ===== src/Tests/Requests.antt =====
-- belt.pp/http.hpp on concrete texts.
use belt_pp.Base.{
  ℕ, ◌≡◌, refl, ap, arith, true, false, List, [], ◌∷◌, ◌++◌, ok, err, out_of_range, replicate, not,
  ◌==◌,
}
use belt_pp.Http.Split.{split}
use belt_pp.Http.Percent.{from_hex, not_hex, digit, from_hex_from, percent_decode}
use belt_pp.Http.Rounds.{escaped}
use belt_pp.Http.RoundTrip.{Coding, percent_encode, percent_decode-percent_encode}
use belt_pp.Http.Malformed.{percent_decode_twice}
use belt_pp.Http.Join.{options, joined, split-joined}
use belt_pp.Http.Request.{Text, Request, assign, set_url, add_property}
use belt_pp.Http.Property.{add_property_lem}
use belt_pp.Http.Words.{is_reserved, EscapesReserved}
use belt_pp.Http.Url.{path_text, query_text, assign_all, set_url_lem, set_url_marks}

-- The first digit of an escape in upper case, the second in lower case.
abbrev plain : Coding
plain = record {
  keep = λ text. elim text [ [] ↦ true | c ∷ cs ↦ not (is_reserved c) ];
  upper = λ text k. k == 0;
}

plain-EscapesReserved : EscapesReserved plain
plain-EscapesReserved c cs r = ap not r

-- `a/b`, `c` and `50%`.
abbrev a_b : Text
a_b = b'a' ∷ b'/' ∷ b'b' ∷ []

abbrev c : Text
c = b'c' ∷ []

abbrev d50 : Text
d50 = b'5' ∷ b'0' ∷ b'%' ∷ []

abbrev blank : Request
blank = record { path = []; arguments = []; properties = [] }

percent_decode-percent_encode_example : percent_decode (percent_encode plain d50) ≡ ok d50
percent_decode-percent_encode_example =
    percent_decode-percent_encode plain d50 (λ cs. refl)
      (omega arith, (omega arith, (omega arith, tt)))

zz : from_hex (b'z' ∷ b'z' ∷ []) ≡ not_hex
unfolding from_hex from_hex_from digit
zz = refl

percent_decode_twice_example :
    (w : List ℕ) × (percent_decode c ≡ ok w)
    × (percent_decode (escaped c b'z' b'z' c) ≡ ok (escaped c b'z' b'z' c ++ w))
percent_decode_twice_example = percent_decode_twice c c b'z' b'z' (omega arith, tt) zz

split-joined_example :
    split (options b'/' [] true 2 false) (joined b'/' c (d50 ∷ [])) ≡ ok (c ∷ d50 ∷ [])
split-joined_example =
    split-joined b'/' true 2 c (d50 ∷ []) (refl, (omega arith, tt))
      ((refl, (omega arith, (omega arith, (omega arith, tt)))), tt) (omega arith)

add_property_lem_example :
    add_property blank (c ++ (b':' ∷ b' ' ∷ d50))
    ≡ ok (record blank { properties = assign [] c d50 }, true)
add_property_lem_example = add_property_lem blank c d50 (refl, (omega arith, tt)) refl

set_url_lem_example :
    set_url blank (path_text plain a_b (c ∷ []) ++ (b'?' ∷ query_text plain (c, d50) []))
    ≡ ok (record blank { path = a_b ∷ c ∷ []; arguments = assign_all [] ((c, d50) ∷ []) }, true)
set_url_lem_example =
    set_url_lem plain blank a_b (c ∷ []) c d50 [] plain-EscapesReserved
      (((omega arith, (omega arith, (omega arith, tt))), refl), (((omega arith, tt), refl), tt))
      (((omega arith, tt), refl), ((omega arith, (omega arith, (omega arith, tt))), refl), tt)
      (omega arith) (omega arith)

set_url_marks_example : set_url blank (replicate 2 b'?') ≡ err out_of_range
set_url_marks_example = set_url_marks blank 2
