-- ===== src/Http/Protocol.antt =====
-- belt.pp/http.hpp: `scan_status` and `protocol`. An iterator into the session's bytes is the list
-- of the bytes from it to the end.
use belt_pp.Base.{
  ℕ, zero, suc, ◌-◌, Bool, true, false, ◌&&◌, ◌||◌, not, List, [], ◌∷◌, Option, none, some, leb,
  ltb, ◌==◌, if◌then◌else◌, Result, ok, err, out_of_range, no_fuel, ◌>>=◌, take, drop, is_empty,
}
use belt_pp.Base.Words.{add_size}
use belt_pp.Http.Request.{Text, Request, same, set_url, add_property}
use belt_pp.Http.Scan.{check_begin, check_end}

pub data Status : Type 0 where
  clean http_request_progress http_properties_progress http_done : Status

pub data Kind : Type 0 where
  get post put del options : Kind

pub record ScanStatus : Type 0 where
  pub status : Status
  pub kind : Kind
  pub http_header_scanning : ℕ
  pub resource : Request

abbrev pub initial : ScanStatus
initial = record {
  status = clean;
  kind = post;
  http_header_scanning = 0;
  resource = record { path = []; arguments = []; properties = [] };
}

abbrev pub value_post : Text
value_post = b'P' ∷ b'O' ∷ b'S' ∷ b'T' ∷ b' ' ∷ []

abbrev pub value_get : Text
value_get = b'G' ∷ b'E' ∷ b'T' ∷ b' ' ∷ []

abbrev pub value_put : Text
value_put = b'P' ∷ b'U' ∷ b'T' ∷ b' ' ∷ []

abbrev pub value_delete : Text
value_delete = b'D' ∷ b'E' ∷ b'L' ∷ b'E' ∷ b'T' ∷ b'E' ∷ b' ' ∷ []

abbrev pub value_options : Text
value_options = b'O' ∷ b'P' ∷ b'T' ∷ b'I' ∷ b'O' ∷ b'N' ∷ b'S' ∷ b' ' ∷ []

-- ` HTTP/1.1` and the end of the line.
abbrev pub line_ending : Text
line_ending = b' ' ∷ b'H' ∷ b'T' ∷ b'T' ∷ b'P' ∷ b'/' ∷ b'1' ∷ b'.' ∷ b'1' ∷ 13 ∷ 10 ∷ []

abbrev pub crlf : Text
crlf = 13 ∷ 10 ∷ []

-- `iter_scan` behind the five calls of `check_begin`, each made if the one before moved nothing.
unfoldable pub scan_method : List Text → Text → ℕ
scan_method [] text = 0
scan_method (method ∷ methods) text =
    let others = scan_method methods text in
    if check_begin text method == 0 then others else check_begin text method

abbrev pub methods : List Text
methods = value_post ∷ value_get ∷ value_put ∷ value_delete ∷ value_options ∷ []

-- `ss.type` by what was scanned, `none` for no method.
unfoldable pub kind_of : Text → Option Kind
kind_of scanned =
    if same scanned value_get
    then some get
    else if same scanned value_post
    then some post
    else if same scanned value_put
    then some put
    else if same scanned value_delete
    then some del
    else if same scanned value_options
    then some options
    else none

-- What the phases share: `ss`, `iter_scan_begin`, `iter_fallback` and `long_enough_message`.
pub record Reading : Type 0 where
  pub scan : ScanStatus
  pub rest : Text
  pub fallback : Text
  pub long_enough : Bool

-- A phase returns `error`, or the phases behind it run.
pub data Flow : Type 0 where
  failed going : Flow

-- `string(first, last)`; a `last` before `first` is undefined.
unfoldable pub between : ℕ → ℕ → Text → Result Text
between first last text =
    if leb first last then ok (take (last - first) (drop first text)) else err out_of_range

-- Even a part of a method switches to http.
unfoldable pub detect : ScanStatus → Text → ScanStatus
detect ss text = elim ss.status [
  | clean ↦
      if scan_method methods text == 0 then ss else record ss { status = http_request_progress }
  | _ ↦ ss
]

-- A whole line was read.
abbrev pub advance : Reading → ℕ → ScanStatus → Reading
advance r n ss = record {
  scan = record ss { http_header_scanning = add_size r.scan.http_header_scanning n };
  rest = drop n r.rest;
  fallback = drop n r.rest;
  long_enough = false;
}

-- The phase of the request line.
unfoldable pub request_line : Reading → Result (Reading × Flow)
request_line r =
    let k = scan_method methods r.rest in
    let (i, j) = check_end r.rest line_ending in
    let ending = take (j - i) (drop i r.rest) in
    if k == 0 || (is_empty ending && r.long_enough)
    then ok (r, failed)
    else if not (same ending line_ending)
    then ok (r, going)
    else elim (kind_of (take k r.rest)) [
      | none ↦ ok (r, going)
      | some kind ↦ do
        let r' = advance r j (record r.scan { status = http_properties_progress; kind = kind })
        url ← between k i r.rest
        (resource, good) ← set_url r.scan.resource url
        ok (
          record r' { scan = record r'.scan { resource = resource } },
          if good then going else failed,
        )
    ]

-- What one round of the loop over the properties ends in.
pub data Round : Type 0 where
  refused waits again : Round

unfoldable pub header_line : Reading → Result (Reading × Round)
header_line r =
    let (i, j) = check_end r.rest crlf in
    let line = take i r.rest in
    let ending = take (j - i) (drop i r.rest) in
    if is_empty ending && r.long_enough
    then ok (r, refused)
    else if not (same ending crlf)
    then ok (r, waits)
    else if is_empty line
    then ok (advance r j (record r.scan { status = http_done }), again)
    else (do
      (resource, good) ← add_property r.scan.resource line
      ok (advance r j (record r.scan { resource = resource }), if good then again else refused))

abbrev pub is_properties : Status → Bool
is_properties http_properties_progress = true
is_properties _ = false

-- The loop over the properties. Each round that goes on takes the end of a line; the last takes no
-- byte, so that one round more than the text has bytes is enough.
unfoldable pub headers : ℕ → ℕ → Reading → Result (Reading × Flow)
headers zero header_max r =
    if is_properties r.scan.status && ltb r.scan.http_header_scanning header_max
    then err no_fuel
    else ok (r, going)
headers (suc fuel) header_max r =
    let next = λ (r' : Reading). headers fuel header_max r' in
    if is_properties r.scan.status && ltb r.scan.http_header_scanning header_max
    then (header_line r >>= λ (r', round). elim round [
      | refused ↦ ok (r', failed)
      | waits ↦ ok (r', going)
      | again ↦ next r'
    ])
    else ok (r, going)
