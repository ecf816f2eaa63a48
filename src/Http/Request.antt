-- ===== src/Http/Request.antt =====
-- belt.pp/http.hpp: `request::set` and `request::add_property`. An `unordered_map` is the list of
-- its entries, each key once.
use belt_pp.Base.{
  ℕ, ◌-◌, ◌^◌, Bool, true, false, ◌&&◌, List, [], ◌∷◌, ◌==◌, if◌then◌else◌, Result, ok, err,
  out_of_range, ◌>>=◌, is_empty,
}
use belt_pp.Http.Split.{Options, split}
use belt_pp.Http.Percent.{percent_decode}

-- A `std::string`, as its bytes.
abbrev pub Text : Type 0
Text = List ℕ

abbrev pub same : Text → Text → Bool
same [] [] = true
same [] (y ∷ ys) = false
same (x ∷ xs) [] = false
same (x ∷ xs) (y ∷ ys) = x == y && same xs ys

-- `map[key] = value`.
unfoldable pub assign : List (Text × Text) → Text → Text → List (Text × Text)
assign [] key value = (key, value) ∷ []
assign ((k, v) ∷ entries) key value =
    let others = assign entries key value in
    if same k key then (k, value) ∷ entries else (k, v) ∷ others

pub record Request : Type 0 where
  pub path : List Text
  pub arguments : List (Text × Text)
  pub properties : List (Text × Text)

-- `std::vector::front` and `back`, undefined on an empty vector.
abbrev pub first_part : List Text → Result Text
first_part [] = err out_of_range
first_part (part ∷ parts) = ok part

abbrev pub last_part : List Text → Result Text
last_part [] = err out_of_range
last_part (part ∷ []) = ok part
last_part (part ∷ (other ∷ parts)) = last_part (other ∷ parts)

-- `split(value, sep, true, limit)`, for a separator of one character.
abbrev pub words : ℕ → ℕ → Options
words sep limit = record {
  separator = sep ∷ [];
  skip_empty = true;
  limit = limit;
  till_the_end = false;
}

abbrev pub no_limit : ℕ
no_limit = 2 ^ 64 - 1

-- `part_query`, and whether its `split` had one or two parts.
unfoldable pub query_of : List Text → Text × Bool
query_of [] = ([], false)
query_of (part ∷ []) = (part, true)
query_of (part ∷ (hash ∷ [])) = (part, true)
query_of (part ∷ (hash ∷ (other ∷ parts))) = ([], false)

-- `part_path`, `part_query` and `code` behind the first `if`. `split` was given the limit 2.
unfoldable pub path_and_query : List Text → Result (Text × (Text × Bool))
path_and_query [] = err out_of_range
path_and_query (part ∷ []) = ok (part, ([], true))
path_and_query (part ∷ (other ∷ parts)) = do
  query_and_hash ← last_part (other ∷ parts)
  hashed ← split (words b'#' 2) query_and_hash
  ok (part, ((query_of hashed).0, is_empty parts && (query_of hashed).1))

unfoldable pub decode_all : List Text → Result (List Text)
decode_all [] = ok []
decode_all (item ∷ items) = do
  decoded ← percent_decode item
  others ← decode_all items
  ok (decoded ∷ others)

-- One round of the loop over the arguments: the map and `code`.
unfoldable pub add_argument : List Text → List (Text × Text) → Result (List (Text × Text) × Bool)
add_argument [] arguments = ok (arguments, false)
add_argument (key ∷ []) arguments = do
  key_decoded ← percent_decode key
  ok (assign arguments key_decoded [], true)
add_argument (key ∷ (value ∷ [])) arguments = do
  value_decoded ← percent_decode value
  key_decoded ← percent_decode key
  ok (assign arguments key_decoded value_decoded, true)
add_argument (key ∷ (value ∷ (other ∷ parts))) arguments = ok (arguments, false)

unfoldable pub add_arguments : List Text → List (Text × Text) → Result (List (Text × Text) × Bool)
add_arguments [] arguments = ok (arguments, true)
add_arguments (item ∷ items) arguments = do
  subparts ← split (words b'=' 2) item
  (added, code) ← add_argument subparts arguments
  (all, codes) ← add_arguments items added
  ok (all, code && codes)

unfoldable pub set_url : Request → Text → Result (Request × Bool)
set_url r url = do
  parts ← split (words b'?' 2) url
  (part_path, (part_query, code)) ← path_and_query parts
  items ← split (words b'/' no_limit) part_path
  path ← decode_all items
  pairs ← split (words b'&' no_limit) part_query
  (arguments, codes) ← add_arguments pairs r.arguments
  ok (record r { path = path; arguments = arguments }, code && codes)

unfoldable pub add_property : Request → Text → Result (Request × Bool)
add_property r value = do
  parts ←
      split
        (record {
          separator = b':' ∷ b' ' ∷ [];
          skip_empty = false;
          limit = 2;
          till_the_end = true;
        })
        value
  ok (elim parts [
    | [] ↦ (r, false)
    | name ∷ more ↦ elim more [
      | [] ↦ (record r { properties = assign r.properties name [] }, true)
      | text ∷ others ↦
          if is_empty others
          then (record r { properties = assign r.properties name text }, true)
          else (r, false)
    ]
  ])
