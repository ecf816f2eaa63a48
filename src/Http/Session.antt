-- ===== src/Http/Session.antt =====
-- belt.pp/http.hpp: `protocol`, from its guard to what it leaves in the session.
use belt_pp.Base.{
  suc, ℕ, Bool, true, false, ◌||◌, not, List, [], ◌∷◌, ◌++◌, Option, none, some, leb, ltb, ◌==◌,
  if◌then◌else◌, Result, ok, ◌>>=◌, length, take, drop, is_empty,
}
use belt_pp.Http.Request.{Text, same}
use belt_pp.Http.Reply.{reply}
use belt_pp.Http.Number.{stoui64}
use belt_pp.Http.Protocol.{
  Status, clean, http_request_progress, http_properties_progress, http_done, get, post, put, del,
  options, ScanStatus, initial, Reading, Flow, failed, going, detect, request_line, headers,
}

-- The parts of `session_special_data` that `protocol` touches: the last `scan_status`, whether
-- `session_specal_handler` is set, and `autoreply`.
pub record Session : Type 0 where
  pub data_back : Option ScanStatus
  pub has_handler : Bool
  pub autoreply : Text

pub data ThreeState : Type 0 where
  error attempt success : ThreeState

pub record Returned : Type 0 where
  pub result : ThreeState
  pub scan : ScanStatus
  pub rest : Text
  pub fallback : Text
  pub session : Session
  pub body : Text

pub record Limits : Type 0 where
  pub enough_length : ℕ
  pub header_max_size : ℕ
  pub content_max_size : ℕ

-- A return before `guard` is dismissed takes the status from the session.
abbrev pub leave : ThreeState → Session → Text → Reading → Returned
leave result session body r = record {
  result = result;
  scan = r.scan;
  rest = r.rest;
  fallback = r.fallback;
  session = record session { data_back = none };
  body = body;
}

-- The return for more data.
abbrev pub wait : Session → Text → Reading → Returned
wait session body r = record {
  result = attempt;
  scan = r.scan;
  rest = r.rest;
  fallback = r.fallback;
  session = record session { data_back = some r.scan };
  body = body;
}

-- `properties[key]`, which adds a missing key.
unfoldable pub find_or_add : List (Text × Text) → Text → Text × List (Text × Text)
find_or_add [] key = ([], (key, []) ∷ [])
find_or_add ((k, v) ∷ entries) key =
    let others = find_or_add entries key in
    if same k key then (v, (k, v) ∷ entries) else (others.0, (k, v) ∷ others.1)

-- Content-Length
abbrev pub content_length : Text
content_length =
    b'C' ∷ b'o' ∷ b'n' ∷ b't' ∷ b'e' ∷ b'n' ∷ b't' ∷ b'-' ∷ b'L' ∷ b'e' ∷ b'n' ∷ b'g' ∷ b't' ∷ b'h'
    ∷ []

-- The branch of `post` and `put`.
unfoldable pub content : Limits → Session → Text → Reading → Returned
content limits session body r =
    let found = find_or_add r.scan.resource.properties content_length in
    let size = stoui64 found.0 in
    let r' = record r {
      scan = record r.scan { resource = record r.scan.resource { properties = found.1 } };
    } in
    if is_empty found.0 || not (size.1 == length found.0) || ltb limits.content_max_size size.0
    then leave error session body r'
    else if ltb (length r.rest) size.0
    then wait session body r'
    else leave success session (take size.0 r.fallback) (record r' { rest = drop size.0 r.rest })

-- The phase behind the header.
unfoldable pub answer : Limits → Session → Text → Reading → Returned
answer limits session body r = elim r.scan.kind [
  | options ↦
      leave attempt (record session { has_handler = false; autoreply = session.autoreply ++ reply })
        body r
  | get ↦ leave success session body r
  | del ↦ leave success session body r
  | post ↦ content limits session body r
  | put ↦ content limits session body r
]

-- Behind the loop over the properties.
unfoldable pub conclude : Limits → Session → Text → Reading → Returned
conclude limits session body r =
    if leb limits.header_max_size r.scan.http_header_scanning
    then leave error session body r
    else elim r.scan.status [
      | clean ↦ leave error session body r
      | http_request_progress ↦ wait session body r
      | http_properties_progress ↦ wait session body r
      | http_done ↦ answer limits session body (record r { rest = r.fallback })
    ]

unfoldable pub opened : Session → ScanStatus
opened session = elim session.data_back [ none ↦ initial | some ss ↦ ss ]

abbrev pub is_request : Status → Bool
is_request http_request_progress = true
is_request _ = false

-- The request line, if it is not yet read.
unfoldable pub begin : Reading → Result (Reading × Flow)
begin r = if is_request r.scan.status then request_line r else ok (r, going)

unfoldable pub protocol : Limits → Session → Text → Text → Text → Result Returned
protocol limits session rest fallback body = do
  let r : Reading = record {
    scan = detect (opened session) rest;
    rest = rest;
    fallback = fallback;
    long_enough = ltb limits.enough_length (length rest);
  }
  (r1, flow) ← begin r
  elim flow [
    | failed ↦ ok (leave error session body r1)
    | going ↦
        (headers (suc (length r1.rest)) limits.header_max_size r1 >>= λ (r2, flow2). elim flow2 [
          | failed ↦ ok (leave error session body r2)
          | going ↦ ok (conclude limits session body r2)
        ])
  ]
