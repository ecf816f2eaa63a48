-- ===== src/Http/Fuel.antt =====
-- belt.pp/http.hpp: the loops of `protocol` end in their rounds, and the one fault that is left is an
-- access outside a vector or a text.
use belt_pp.Base.{
  ℕ, zero, suc, ◌-◌, ◌<◌, ◌≤◌, ◌≡◌, refl, sym, ◌⊎◌, inl, inr, Bool, true, false, ◌&&◌, ◌||◌, not,
  List, [], ◌∷◌, Option, none, some, if◌then◌else◌, if_cases, leb, ltb, ◌==◌, Result, ok, err,
  out_of_range, no_fuel, terminate, runtime_error, logic_error, ◌>>=◌, length, take, drop, is_empty,
  length-drop, arith, dec_lt,
}
use mathlib.Core.Bool.{true≢false}
use belt_pp.Http.Split.{Options, split, split_loop}
use belt_pp.Http.Percent.{percent_loop, percent_decode}
use belt_pp.Http.Request.{
  Text, Request, same, last_part, words, no_limit, path_and_query, decode_all, add_argument,
  add_arguments, set_url, add_property,
}
use belt_pp.Http.Scan.{check_end}
use belt_pp.Http.Protocol.{
  Reading, Flow, failed, going, Round, refused, waits, again, advance, crlf, between, header_line,
  headers, is_properties, line_ending, methods, scan_method, kind_of, request_line,
}

-- A result, or an access that the source leaves undefined.
abbrev pub Defined {ℓ} : {A : Type ℓ} → Result A → Type 0
Defined (ok a) = Unit {0}
Defined (err out_of_range) = Unit {0}
Defined (err _) = ⊥

module _ {ℓ κ} {A : Type ℓ} {B : Type κ} where
  pub then_Defined :
      (m : Result A) (f : A → Result B)
      → Defined m
      → ((a : A) → m ≡ ok a → Defined (f a))
      → Defined (m >>= f)
  then_Defined (ok a) f h k = k a refl
  then_Defined (err out_of_range) f h k = tt
  then_Defined (err terminate) f h k = h
  then_Defined (err runtime_error) f h k = h
  then_Defined (err logic_error) f h k = h
  then_Defined (err no_fuel) f h k = h

pub Defined-cases {ℓ} :
    {A : Type ℓ} (r : Result A) → Defined r → ((a : A) × (r ≡ ok a)) ⊎ (r ≡ err out_of_range)
Defined-cases (ok a) h = inl (a, refl)
Defined-cases (err out_of_range) h = inr refl
Defined-cases (err terminate) h = elim h [ ]
Defined-cases (err runtime_error) h = elim h [ ]
Defined-cases (err logic_error) h = elim h [ ]
Defined-cases (err no_fuel) h = elim h [ ]

percent_loop-Defined :
    (fuel : ℕ) (result rest : List ℕ) → length rest ≤ fuel → Defined (percent_loop fuel result rest)
unfolding percent_loop
percent_loop-Defined zero result [] h = tt
percent_loop-Defined zero result (x ∷ rest) h = absurd (omega arith)
percent_loop-Defined (suc fuel) result [] h = tt
percent_loop-Defined (suc fuel) result (x ∷ rest) h =
    percent_loop-Defined fuel _ _ (omega (arith, length-drop _ (x ∷ rest)))

percent_decode-Defined : (value : List ℕ) → Defined (percent_decode value)
unfolding percent_decode
percent_decode-Defined value = percent_loop-Defined (length value) [] value (omega arith)

split_loop-Defined :
    (fuel : ℕ) (o : Options) (parts : List (List ℕ)) (rest : List ℕ)
    → 0 < length o.separator
    → length rest ≤ fuel
    → Defined (split_loop fuel o parts rest)
unfolding split_loop
split_loop-Defined zero o parts [] s h = tt
split_loop-Defined zero o parts (x ∷ rest) s h = absurd (omega arith)
split_loop-Defined (suc fuel) o parts [] s h = tt
split_loop-Defined (suc fuel) o parts (x ∷ rest) s h =
    if_cases Defined (ltb (length parts) o.limit) _ _
      (λ _. split_loop-Defined fuel o _ _ s (omega (arith, length-drop _ (x ∷ rest)))) (λ _. tt)

split-Defined : (o : Options) (value : List ℕ) → 0 < length o.separator → Defined (split o value)
unfolding split
split-Defined o value s = split_loop-Defined (length value) o [] value s (omega arith)

decode_all-Defined : (items : List Text) → Defined (decode_all items)
unfolding decode_all
decode_all-Defined [] = tt
decode_all-Defined (item ∷ items) =
    then_Defined (percent_decode item) _ (percent_decode-Defined item)
      (λ a e. then_Defined (decode_all items) _ (decode_all-Defined items) (λ b f. tt))

add_argument-Defined :
    (parts : List Text) (arguments : List (Text × Text)) → Defined (add_argument parts arguments)
unfolding add_argument
add_argument-Defined [] arguments = tt
add_argument-Defined (key ∷ []) arguments =
    then_Defined (percent_decode key) _ (percent_decode-Defined key) (λ a e. tt)
add_argument-Defined (key ∷ (value ∷ [])) arguments =
    then_Defined (percent_decode value) _ (percent_decode-Defined value)
      (λ a e. then_Defined (percent_decode key) _ (percent_decode-Defined key) (λ b f. tt))
add_argument-Defined (key ∷ (value ∷ (other ∷ parts))) arguments = tt

add_arguments-Defined :
    (items : List Text) (arguments : List (Text × Text)) → Defined (add_arguments items arguments)
unfolding add_arguments
add_arguments-Defined [] arguments = tt
add_arguments-Defined (item ∷ items) arguments =
    then_Defined (split (words b'=' 2) item) _ (split-Defined (words b'=' 2) item (omega arith))
      (λ subparts e.
        then_Defined (add_argument subparts arguments) _ (add_argument-Defined subparts arguments)
          (λ (added, code) f.
            then_Defined (add_arguments items added) _ (add_arguments-Defined items added)
              (λ a g. tt)))

last_part-Defined : (parts : List Text) → Defined (last_part parts)
last_part-Defined [] = tt
last_part-Defined (part ∷ []) = tt
last_part-Defined (part ∷ (other ∷ parts)) = last_part-Defined (other ∷ parts)

path_and_query-Defined : (parts : List Text) → Defined (path_and_query parts)
unfolding path_and_query
path_and_query-Defined [] = tt
path_and_query-Defined (part ∷ []) = tt
path_and_query-Defined (part ∷ (other ∷ parts)) =
    then_Defined (last_part (other ∷ parts)) _ (last_part-Defined (other ∷ parts)) (λ last e.
      then_Defined (split (words b'#' 2) last) _ (split-Defined (words b'#' 2) last (omega arith))
        (λ a f. tt))

set_url-Defined : (r : Request) (url : Text) → Defined (set_url r url)
unfolding set_url
set_url-Defined r url =
    then_Defined (split (words b'?' 2) url) _ (split-Defined (words b'?' 2) url (omega arith))
      (λ parts e.
        then_Defined (path_and_query parts) _ (path_and_query-Defined parts)
          (λ (part_path, (part_query, code)) f.
            then_Defined (split (words b'/' no_limit) part_path) _
              (split-Defined (words b'/' no_limit) part_path (omega arith))
              (λ items g. then_Defined (decode_all items) _ (decode_all-Defined items) (λ path i.
                then_Defined (split (words b'&' no_limit) part_query) _
                  (split-Defined (words b'&' no_limit) part_query (omega arith))
                  (λ pairs j.
                    then_Defined (add_arguments pairs r.arguments) _
                      (add_arguments-Defined pairs r.arguments) (λ a k. tt))))))

add_property-Defined : (r : Request) (value : Text) → Defined (add_property r value)
unfolding add_property
add_property-Defined r value =
    then_Defined (split _ value) _ (split-Defined _ value (omega arith)) (λ parts e. tt)

-- An end of a line that was found is not empty.
same_ending :
    (i j : ℕ) (rest : Text)
    → same (take (j - i) (drop i rest)) crlf ≡ true
    → length (drop j rest) < length rest
same_ending i j rest e = elim (dec_lt 0 (length (drop i rest))) [
  | no none_left ↦ absurd (nothing (drop i rest) (j - i) (omega arith) e)
  | yes some_left ↦ elim (dec_lt i j) [
    | yes behind ↦ omega (arith, length-drop i rest, length-drop j rest)
    | no before ↦ absurd (no_byte (j - i) (drop i rest) (omega arith) e)
  ]
]
  where
    nothing : (xs : Text) (n : ℕ) → length xs ≤ 0 → same (take n xs) crlf ≡ true → ⊥
    nothing [] zero h e = true≢false (sym e)
    nothing [] (suc n) h e = true≢false (sym e)
    nothing (x ∷ xs) n h e = absurd (omega arith)

    no_byte : (n : ℕ) (xs : Text) → n ≡ 0 → same (take n xs) crlf ≡ true → ⊥
    no_byte zero xs h e = true≢false (sym e)
    no_byte (suc n) xs h e = absurd (omega arith)

-- A round that goes on has taken bytes.
abbrev Shorter : ℕ → Result (Reading × Round) → Type 0
Shorter n (ok (r, again)) = length r.rest < n
Shorter n (ok (r, waits)) = Unit {0}
Shorter n (ok (r, refused)) = Unit {0}
Shorter n (err out_of_range) = Unit {0}
Shorter n (err _) = ⊥

not-false : (b : Bool) → not b ≡ false → b ≡ true
not-false true h = refl
not-false false h = absurd (true≢false h)

property-Shorter :
    (n : ℕ) (m : Result (Request × Bool)) (next : Request → Reading)
    → Defined m
    → ((resource : Request) → length (next resource).rest < n)
    → Shorter n (m >>= λ (resource, good). ok (next resource, if good then again else refused))
property-Shorter n (ok (resource, true)) next h less = less resource
property-Shorter n (ok (resource, false)) next h less = tt
property-Shorter n (err out_of_range) next h less = tt
property-Shorter n (err terminate) next h less = h
property-Shorter n (err runtime_error) next h less = h
property-Shorter n (err logic_error) next h less = h
property-Shorter n (err no_fuel) next h less = h

header_line-Shorter : (r : Reading) → Shorter (length r.rest) (header_line r)
unfolding header_line
header_line-Shorter r =
    let (i, j) = check_end r.rest crlf in
    let line = take i r.rest in
    let ending = take (j - i) (drop i r.rest) in
    if_cases (Shorter (length r.rest)) (is_empty ending && r.long_enough) _ _ (λ _. tt)
      (λ _.
        if_cases (Shorter (length r.rest)) (not (same ending crlf)) _ _ (λ _. tt)
          (λ found.
            let less : length (drop j r.rest) < length r.rest =
              same_ending i j r.rest (not-false (same ending crlf) found) in
            if_cases (Shorter (length r.rest)) (is_empty line) _ _ (λ _. less)
              (λ _.
                property-Shorter (length r.rest) (add_property r.scan.resource line)
                  (λ resource. advance r j (record r.scan { resource = resource }))
                  (add_property-Defined r.scan.resource line) (λ resource. less))))

-- One round more than the text has bytes is enough for the header.
pub headers-Defined :
    (fuel header_max : ℕ) (r : Reading) → length r.rest < fuel → Defined (headers fuel header_max r)
unfolding headers
headers-Defined zero header_max r h = absurd (omega arith)
headers-Defined (suc fuel) header_max r h =
    if_cases Defined (is_properties r.scan.status && ltb r.scan.http_header_scanning header_max) _ _
      (λ _.
        go (header_line r) (header_line-Shorter r)
          (λ r' less. headers-Defined fuel header_max r' (omega arith)))
      (λ _. tt)
  where
    go :
        (m : Result (Reading × Round))
        → Shorter (length r.rest) m
        → ((r' : Reading) → length r'.rest < length r.rest → Defined (headers fuel header_max r'))
        → Defined (
            m >>= λ (r', round). elim round as (λ _. Result (Reading × Flow)) [
              | refused ↦ ok (r', failed)
              | waits ↦ ok (r', going)
              | again ↦ headers fuel header_max r'
            ])
    go (ok (r', again)) s next = next r' s
    go (ok (r', waits)) s next = tt
    go (ok (r', refused)) s next = tt
    go (err out_of_range) s next = tt
    go (err terminate) s next = s
    go (err runtime_error) s next = s
    go (err logic_error) s next = s
    go (err no_fuel) s next = s

between-Defined : (first last : ℕ) (text : Text) → Defined (between first last text)
unfolding between
between-Defined first last text = if_cases Defined (leb first last) _ _ (λ _. tt) (λ _. tt)

if_some-Defined {ℓ κ} :
    {A : Type ℓ} {B : Type κ} (o : Option A) (n : Result B) (f : A → Result B)
    → Defined n
    → ((a : A) → Defined (f a))
    → Defined (elim o [ none ↦ n | some a ↦ f a ])
if_some-Defined none n f h k = h
if_some-Defined (some a) n f h k = k a

pub request_line-Defined : (r : Reading) → Defined (request_line r)
unfolding request_line
request_line-Defined r =
    let k = scan_method methods r.rest in
    let (i, j) = check_end r.rest line_ending in
    let ending = take (j - i) (drop i r.rest) in
    if_cases Defined (k == 0 || (is_empty ending && r.long_enough)) _ _ (λ _. tt)
      (λ _.
        if_cases Defined (not (same ending line_ending)) _ _ (λ _. tt)
          (λ _. if_some-Defined (kind_of (take k r.rest)) _ _ tt (λ kind.
            then_Defined (between k i r.rest) _ (between-Defined k i r.rest) (λ url e.
              then_Defined (set_url r.scan.resource url) _ (set_url-Defined r.scan.resource url)
                (λ a f. tt)))))
