-- ===== src/Http/Url.antt =====
-- `set` on an URL.
use belt_pp.Base.{
  ℕ, suc, ◌≤◌, ◌≡◌, ◌≢◌, refl, sym, ◌∙◌, true, List, [], ◌∷◌, ◌++◌, map, length, length-map,
  replicate, zero, arith, ok, err, out_of_range,
}
use belt_pp.Http.Split.{split}
use belt_pp.Http.Find.{append-Without}
use belt_pp.Http.RoundTrip.{Coding, percent_encode, percent_decode-percent_encode}
use belt_pp.Http.Join.{IsPart, AreParts, joined, split-joined, split-lead, split_none}
use belt_pp.Http.Rounds.{append_not_empty}
use belt_pp.Http.Words.{
  is_reserved, EscapesReserved, IsWord, AreWords, percent_encode-Without, word-IsPart,
  words-AreParts, joined-Without, joined_some, decode_all-encode,
}
use belt_pp.Http.Request.{
  Text, Request, assign, words, no_limit, query_of, path_and_query, add_argument, add_arguments,
  set_url,
}

-- A key and its value.
abbrev pub Argument : Type 0
Argument = Text × Text

abbrev pub AreArguments : List Argument → Type 0
AreArguments [] = Unit {0}
AreArguments ((key, value) ∷ more) = IsWord key × IsWord value × AreArguments more

abbrev pub argument_text : Coding → Argument → Text
argument_text how (key, value) = percent_encode how key ++ (b'=' ∷ percent_encode how value)

-- `/one/two`, with the reserved characters of the words escaped.
abbrev pub path_text : Coding → Text → List Text → Text
path_text how w ws = b'/' ∷ joined b'/' (percent_encode how w) (map (percent_encode how) ws)

-- `key=value&other=value`.
abbrev pub query_text : Coding → Argument → List Argument → Text
query_text how a more = joined b'&' (argument_text how a) (map (argument_text how) more)

abbrev pub assign_all : List (Text × Text) → List Argument → List (Text × Text)
assign_all arguments [] = arguments
assign_all arguments ((key, value) ∷ more) = assign_all (assign arguments key value) more

module _ (how : Coding) (k : EscapesReserved how) where
  add_argument-text :
      (key value : Text) (arguments : List (Text × Text))
      → IsWord key
      → IsWord value
      → add_argument (percent_encode how key ∷ percent_encode how value ∷ []) arguments
        ≡ ok (assign arguments key value, true)
  unfolding add_argument
  add_argument-text key value arguments hk hv =
      rw
        (
          percent_decode-percent_encode how key (λ cs. k b'%' cs refl) hk.0,
          percent_decode-percent_encode how value (λ cs. k b'%' cs refl) hv.0,
        )
        refl

  split_argument :
      (key value : Text)
      → IsWord key
      → IsWord value
      → split (words b'=' 2) (argument_text how (key, value))
        ≡ ok (percent_encode how key ∷ percent_encode how value ∷ [])
  split_argument key value hk hv =
      split-joined b'=' true 2 (percent_encode how key) (percent_encode how value ∷ [])
        (word-IsPart how b'=' key k refl (omega arith) hk)
        (word-IsPart how b'=' value k refl (omega arith) hv, tt) (omega arith)

  add_arguments-texts :
      (more : List Argument) (arguments : List (Text × Text))
      → AreArguments more
      → add_arguments (map (argument_text how) more) arguments
        ≡ ok (assign_all arguments more, true)
  unfolding add_arguments
  add_arguments-texts [] arguments h = refl
  add_arguments-texts ((key, value) ∷ more) arguments (hk, hv, h) =
      rw
        (
          split_argument key value hk hv,
          add_argument-text key value arguments hk hv,
          add_arguments-texts more (assign arguments key value) h,
        )
        refl

  argument-IsPart :
      (d : ℕ) (key value : Text)
      → is_reserved d ≡ true
      → d ≢ b'%'
      → d ≢ b'='
      → IsWord key
      → IsWord value
      → IsPart d (argument_text how (key, value))
  argument-IsPart d key value r ne other hk hv = (
    append_not_empty (percent_encode how key) (percent_encode how value) b'=',
    append-Without d (percent_encode how key) (b'=' ∷ percent_encode how value)
        (percent_encode-Without how d key k r ne hk.0)
        (λ q. other (sym q), percent_encode-Without how d value k r ne hv.0),
  )

  arguments-AreParts :
      (d : ℕ) (more : List Argument)
      → is_reserved d ≡ true
      → d ≢ b'%'
      → d ≢ b'='
      → AreArguments more
      → AreParts d (map (argument_text how) more)
  arguments-AreParts d [] r ne other h = tt
  arguments-AreParts d ((key, value) ∷ more) r ne other (hk, hv, h) =
      (argument-IsPart d key value r ne other hk hv, arguments-AreParts d more r ne other h)

  query-IsPart :
      (d : ℕ) (key value : Text) (more : List Argument)
      → is_reserved d ≡ true
      → d ≢ b'%'
      → d ≢ b'='
      → d ≢ b'&'
      → AreArguments ((key, value) ∷ more)
      → IsPart d (query_text how (key, value) more)
  query-IsPart d key value more r ne other amp (hk, hv, h) =
      let one = argument-IsPart d key value r ne other hk hv in
      (
        joined_some b'&' (argument_text how (key, value)) (map (argument_text how) more) one.0,
        joined-Without b'&' d (argument_text how (key, value)) (map (argument_text how) more)
            (λ q. amp (sym q)) one (arguments-AreParts d more r ne other h),
      )

  path-IsPart : (w : Text) (ws : List Text) → AreWords (w ∷ ws) → IsPart b'?' (path_text how w ws)
  path-IsPart w ws (h, hs) = (
    refl,
    (
      omega arith,
      joined-Without b'/' b'?' (percent_encode how w) (map (percent_encode how) ws) (omega arith)
          (word-IsPart how b'?' w k refl (omega arith) h)
          (words-AreParts how b'?' ws k refl (omega arith) hs),
    ),
  )

  split_path :
      (w : Text) (ws : List Text)
      → AreWords (w ∷ ws)
      → suc (length ws) ≤ no_limit
      → split (words b'/' no_limit) (path_text how w ws) ≡ ok (map (percent_encode how) (w ∷ ws))
  split_path w ws (h, hs) l =
      split-lead b'/' no_limit (joined b'/' (percent_encode how w) (map (percent_encode how) ws))
        (omega arith)
      ∙ split-joined b'/' true no_limit (percent_encode how w) (map (percent_encode how) ws)
          (word-IsPart how b'/' w k refl (omega arith) h)
          (words-AreParts how b'/' ws k refl (omega arith) hs)
          (omega (arith, length-map (percent_encode how) ws))

  split_query :
      (key value : Text) (more : List Argument)
      → AreArguments ((key, value) ∷ more)
      → suc (length more) ≤ no_limit
      → split (words b'&' no_limit) (query_text how (key, value) more)
        ≡ ok (map (argument_text how) ((key, value) ∷ more))
  split_query key value more (hk, hv, h) l =
      split-joined b'&' true no_limit (argument_text how (key, value))
        (map (argument_text how) more)
        (argument-IsPart b'&' key value refl (omega arith) (omega arith) hk hv)
        (arguments-AreParts b'&' more refl (omega arith) (omega arith) h)
        (omega (arith, length-map (argument_text how) more))

  parts_lem :
      (w : Text) (ws : List Text) (key value : Text) (more : List Argument)
      → AreArguments ((key, value) ∷ more)
      → path_and_query (path_text how w ws ∷ query_text how (key, value) more ∷ [])
        ≡ ok (path_text how w ws, (query_text how (key, value) more, true))
  unfolding path_and_query query_of
  parts_lem w ws key value more h =
      let hash =
        split-joined b'#' true 2 (query_text how (key, value) more) []
          (query-IsPart b'#' key value more refl (omega arith) (omega arith) (omega arith) h) tt
          (omega arith) in
      rw hash refl

-- A text of separators has no parts.
split_marks : (n : ℕ) → split (words b'?' 2) (replicate n b'?') ≡ ok []
split_marks zero = split_none b'?' 2
split_marks (suc n) = split-lead b'?' 2 (replicate n b'?') (omega arith) ∙ split_marks n

-- `set` on `/` and one or more words with `/` between them, `?`, and one or more arguments
-- `key=value` with `&` between them, where at least the reserved characters in the words are
-- percent-encoded, with digits in upper or in lower case,
-- returns true, takes the words as the path and adds the arguments, in their order, to those that
-- the request had. No word, key or value is empty, and there are fewer than 2 ^ 64 of them.
pub set_url_lem :
    (how : Coding) (r : Request) (w : Text) (ws : List Text) (key value : Text)
    (more : List Argument)
    → EscapesReserved how
    → AreWords (w ∷ ws)
    → AreArguments ((key, value) ∷ more)
    → suc (length ws) ≤ no_limit
    → suc (length more) ≤ no_limit
    → set_url r (path_text how w ws ++ (b'?' ∷ query_text how (key, value) more))
      ≡ ok (
        record r { path = w ∷ ws; arguments = assign_all r.arguments ((key, value) ∷ more) },
        true,
      )
unfolding set_url
set_url_lem how r w ws key value more k hw ha lw la =
    let two =
      split-joined b'?' true 2 (path_text how w ws) (query_text how (key, value) more ∷ [])
        (path-IsPart how k w ws hw)
        (
          query-IsPart how k b'?' key value more refl (omega arith) (omega arith) (omega arith) ha,
          tt,
        )
        (omega arith) in
    rw
      (
        two,
        parts_lem how k w ws key value more ha,
        split_path how k w ws hw lw,
        decode_all-encode how (w ∷ ws) k hw,
        split_query how k key value more ha la,
        add_arguments-texts how k ((key, value) ∷ more) r.arguments ha,
      )
      refl

-- `set` on an URL of nothing but question marks reads the first part of an empty vector.
pub set_url_marks : (r : Request) (n : ℕ) → set_url r (replicate n b'?') ≡ err out_of_range
unfolding set_url path_and_query
set_url_marks r n = rw (split_marks n, set_url) refl
