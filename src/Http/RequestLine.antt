-- ===== src/Http/RequestLine.antt =====
-- The phase of `protocol` that reads the request line.
use belt_pp.Base.{
  ℕ, suc, ◌+◌, ◌-◌, ◌≡◌, refl, ap, sym, ◌∙◌, Bool, true, false, leb, [], ◌∷◌, ◌++◌, some, ◌==◌,
  length, take, drop, take-append, drop-append, drop_prefix, arith, ok,
}
use belt_pp.Base.Words.{add_size}
use belt_pp.Http.Find.{Without}
use belt_pp.Http.Request.{Text, Request, set_url}
use belt_pp.Http.Scan.{agree_from, check_begin, check_end}
use belt_pp.Http.Lines.{agree_nil, check_end_skip, check_end_line}
use belt_pp.Http.Headers.{at_line}
use belt_pp.Http.Protocol.{
  Kind, get, post, put, del, options, http_properties_progress, ScanStatus, going, value_post,
  value_get, value_put, value_delete, value_options, line_ending, methods, scan_method, kind_of,
  between, request_line,
}

abbrev pub value_of : Kind → Text
value_of get = value_get
value_of post = value_post
value_of put = value_put
value_of del = value_delete
value_of options = value_options

pub scan_method_lem :
    (kind : Kind) (text : Text)
    → scan_method methods (value_of kind ++ text) ≡ length (value_of kind)
unfolding scan_method check_begin agree_from
scan_method_lem get text = rw (agree_nil 4 text) refl
scan_method_lem post text = rw (agree_nil 5 text) refl
scan_method_lem put text = rw (agree_nil 4 text) refl
scan_method_lem del text = rw (agree_nil 7 text) refl
scan_method_lem options text = rw (agree_nil 8 text) refl

kind_of_lem : (kind : Kind) → kind_of (value_of kind) ≡ some kind
unfolding kind_of
kind_of_lem get = refl
kind_of_lem post = refl
kind_of_lem put = refl
kind_of_lem del = refl
kind_of_lem options = refl

-- The bytes of a method's name.
abbrev word_of : Kind → Text
word_of get = b'G' ∷ b'E' ∷ b'T' ∷ []
word_of post = b'P' ∷ b'O' ∷ b'S' ∷ b'T' ∷ []
word_of put = b'P' ∷ b'U' ∷ b'T' ∷ []
word_of del = b'D' ∷ b'E' ∷ b'L' ∷ b'E' ∷ b'T' ∷ b'E' ∷ []
word_of options = b'O' ∷ b'P' ∷ b'T' ∷ b'I' ∷ b'O' ∷ b'N' ∷ b'S' ∷ []

pair_eq : {a b c d : ℕ} → a ≡ c → b ≡ d → ◌≡◌ {A = ℕ × ℕ} (a, b) (c, d)
pair_eq {b = b} {c = c} e f = ap (λ n. (n, b)) e ∙ ap (λ n. (c, n)) f

abbrev shifted : ℕ → ℕ × ℕ → ℕ × ℕ
shifted k p = (k + p.0, k + p.1)

-- The ending is not found in a word, nor at the space before a slash.
check_end_word :
    (word more : Text)
    → Without b' ' word
    → check_end (word ++ (b' ' ∷ b'/' ∷ more)) line_ending
      ≡ shifted (length word + 1) (check_end (b'/' ∷ more) line_ending)
unfolding check_end agree_from
check_end_word [] more free = pair_eq (omega arith) (omega arith)
check_end_word (c ∷ word) more (ne, free) =
    check_end_skip c b' ' (word ++ (b' ' ∷ b'/' ∷ more))
      (b'H' ∷ b'T' ∷ b'T' ∷ b'P' ∷ b'/' ∷ b'1' ∷ b'.' ∷ b'1' ∷ 13 ∷ 10 ∷ []) (λ q. ne (sym q))
    ∙ ap (λ (p : ℕ × ℕ). (suc p.0, suc p.1)) (check_end_word word more free)
    ∙ pair_eq (omega arith) (omega arith)

abbrev pub url_text : Text → Text → Text
url_text path text = (b'/' ∷ path) ++ (line_ending ++ text)

check_end_url :
    (path text : Text)
    → Without b' ' path
    → check_end (url_text path text) line_ending ≡ (length (b'/' ∷ path), length (b'/' ∷ path) + 11)
check_end_url path text free =
    check_end_line (b'/' ∷ path) b' '
      (b'H' ∷ b'T' ∷ b'T' ∷ b'P' ∷ b'/' ∷ b'1' ∷ b'.' ∷ b'1' ∷ 13 ∷ 10 ∷ []) text
      (omega arith, free)

check_end_value :
    (kind : Kind) (path text : Text)
    → Without b' ' path
    → check_end (value_of kind ++ url_text path text) line_ending
      ≡ shifted (length (value_of kind)) (length (b'/' ∷ path), length (b'/' ∷ path) + 11)
check_end_value get path text free =
    check_end_word (word_of get) (path ++ (line_ending ++ text))
      (omega arith, (omega arith, (omega arith, tt)))
    ∙ ap (shifted 4) (check_end_url path text free)
check_end_value post path text free =
    check_end_word (word_of post) (path ++ (line_ending ++ text))
      (omega arith, (omega arith, (omega arith, (omega arith, tt))))
    ∙ ap (shifted 5) (check_end_url path text free)
check_end_value put path text free =
    check_end_word (word_of put) (path ++ (line_ending ++ text))
      (omega arith, (omega arith, (omega arith, tt)))
    ∙ ap (shifted 4) (check_end_url path text free)
check_end_value del path text free =
    check_end_word (word_of del) (path ++ (line_ending ++ text))
      (omega arith, (omega arith, (omega arith, (omega arith, (omega arith, (omega arith, tt))))))
    ∙ ap (shifted 7) (check_end_url path text free)
check_end_value options path text free =
    check_end_word (word_of options) (path ++ (line_ending ++ text)) (
      omega arith,
      (omega arith, (omega arith, (omega arith, (omega arith, (omega arith, (omega arith, tt)))))),
    )
    ∙ ap (shifted 8) (check_end_url path text free)

-- The texts that the line is cut into.
cuts :
    (value path text : Text)
    → let url = b'/' ∷ path in
      let all = value ++ url_text path text in
      let i = length value + length url in
      let j = length value + (length url + 11) in
      (take (j - i) (drop i all) ≡ line_ending)
      × (drop j all ≡ text)
      × (take (i - length value) (drop (length value) all) ≡ url)
      × (take (length value) all ≡ value)
cuts value path text =
    let url = b'/' ∷ path in
    let ending = line_ending ++ text in
    let n1 : length value + (length url + 11) - (length value + length url) ≡ 11 = omega arith in
    let n2 : length value + length url - length value ≡ length url = omega arith in
    (
      rw (n1, drop-append value (url ++ ending) (length url), drop_prefix url ending) refl,
      drop-append value (url ++ ending) (length url + 11) ∙ drop-append url ending 11,
      rw (n2, drop_prefix value (url ++ ending)) (take-append url ending),
      take-append value (url ++ ending),
    )

between_lem :
    (value path text : Text)
    → between (length value) (length value + length (b'/' ∷ path)) (value ++ url_text path text)
      ≡ ok (b'/' ∷ path)
unfolding between
between_lem value path text =
    let (_, _, e, _) = cuts value path text in
    let t : leb (length value) (length value + length (b'/' ∷ path)) ≡ true = ground arith in
    rw (t, e, between) refl

pub value_some : (kind : Kind) → (length (value_of kind) == 0) ≡ false
value_some get = refl
value_some post = refl
value_some put = refl
value_some del = refl
value_some options = refl

-- `ss` when the line is read.
abbrev pub with_line : ScanStatus → Kind → Request → ℕ → ScanStatus
with_line ss kind resource n = record ss {
  status = http_properties_progress;
  kind = kind;
  http_header_scanning = add_size ss.http_header_scanning n;
  resource = resource;
}

pub request_line_lem :
    (ss : ScanStatus) (kind : Kind) (path text fallback : Text) (resource : Request) (l : Bool)
    → Without b' ' path
    → set_url ss.resource (b'/' ∷ path) ≡ ok (resource, true)
    → request_line (at_line ss (value_of kind ++ url_text path text) fallback l)
      ≡ ok (
        at_line
            (with_line ss kind resource (length (value_of kind) + (length (b'/' ∷ path) + 11)))
            text
            text
            false,
        going,
      )
unfolding request_line
request_line_lem ss kind path text fallback resource l free url =
    let (c1, c2, c3, c4) = cuts (value_of kind) path text in
    let scanned = scan_method_lem kind (url_text path text) in
    let found = check_end_value kind path text free in
    rw
      (
        scanned,
        value_some kind,
        found,
        c1,
        c4,
        kind_of_lem kind,
        scanned,
        found,
        between_lem (value_of kind) path text,
        url,
        c2,
      )
      refl
