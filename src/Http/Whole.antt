-- ===== src/Http/Whole.antt =====
-- `protocol` on the bytes of a whole request.
use belt_pp.Base.{
  suc, ℕ, ◌+◌, ◌<◌, ◌≤◌, ◌^◌, ◌≡◌, refl, ap, sym, ◌∙◌, Bool, true, false, ltb, leb, List, ◌∷◌, ◌++◌,
  some, none, ◌==◌, length, take, drop, is_empty, arith, Result, ok,
}
use mathlib.Core.Bool.{true≢false}
use belt_pp.Base.Words.{add_size}
use belt_pp.Http.Find.{Without}
use belt_pp.Http.Request.{Text, Request, set_url}
use belt_pp.Http.Number.{stoui64}
use belt_pp.Http.Url.{assign_all}
use belt_pp.Http.Headers.{at_line, header_text, header_size, AreHeaders, with_headers, headers_lem}
use belt_pp.Http.RequestLine.{
  value_of, url_text, with_line, scan_method_lem, value_some, request_line_lem,
}
use belt_pp.Http.Protocol.{
  Kind, get, post, put, del, options, http_request_progress, ScanStatus, initial, going, detect,
}
use belt_pp.Http.Session.{
  Session, success, Returned, Limits, leave, find_or_add, content_length, content, answer, conclude,
  opened, begin, protocol,
}

-- A request: its line, its header lines and an empty one, and what is behind them.
abbrev pub request_text : Kind → Text → List (Text × Text) → Text → Text
request_text kind path hs text = value_of kind ++ url_text path (header_text hs text)

abbrev pub request_size : Kind → Text → List (Text × Text) → ℕ
request_size kind path hs = length (value_of kind) + (length path + 12) + header_size hs

-- A URL without spaces that `set` takes.
abbrev pub IsUrl : Text → Request → Type 0
IsUrl path resource =
    Without b' ' path × (set_url initial.resource (b'/' ∷ path) ≡ ok (resource, true))

abbrev pub done_scan : Kind → Text → List (Text × Text) → Request → ScanStatus
done_scan kind path hs resource =
    with_headers (with_line initial kind resource 0) hs (request_size kind path hs)

detect_lem :
    (kind : Kind) (text : Text)
    → detect initial (value_of kind ++ text) ≡ record initial { status = http_request_progress }
unfolding detect
detect_lem kind text = rw (scan_method_lem kind text, value_some kind) refl

begin_lem :
    (kind : Kind) (path text fallback : Text) (resource : Request) (l : Bool)
    → IsUrl path resource
    → begin (
        at_line
          (record initial { status = http_request_progress })
          (value_of kind ++ url_text path text)
          fallback
          l)
      ≡ ok (
        at_line
            (with_line initial kind resource (length (value_of kind) + (length (b'/' ∷ path) + 11)))
            text
            text
            false,
        going,
      )
unfolding begin
begin_lem kind path text fallback resource l (free, url) =
    request_line_lem (record initial { status = http_request_progress }) kind path text fallback
      resource l free url

opened_fresh : (session : Session) → session.data_back ≡ none → opened session ≡ initial
unfolding opened
opened_fresh session e = ap (λ o. elim o as (λ _. ScanStatus) [ none ↦ initial | some ss ↦ ss ]) e

protocol_header :
    (limits : Limits) (session : Session) (kind : Kind) (path : Text) (hs : List (Text × Text))
    (text fallback body : Text) (resource : Request)
    → session.data_back ≡ none
    → IsUrl path resource
    → AreHeaders hs
    → request_size kind path hs < limits.header_max_size
    → limits.header_max_size < 2 ^ 64
    → protocol limits session (request_text kind path hs text) fallback body
      ≡ ok
          (conclude limits session body (at_line (done_scan kind path hs resource) text text false))
unfolding protocol
protocol_header limits session kind path hs text fallback body resource fresh url h b w =
    let line_size = length (value_of kind) + (length (b'/' ∷ path) + 11) in
    let rest = header_text hs text in
    let sum : add_size 0 line_size + header_size hs ≡ request_size kind path hs = omega arith in
    let all =
      headers_lem (suc (length rest)) limits.header_max_size
        (with_line initial kind resource line_size) hs text rest false refl h (omega arith) w
        (omega arith) in
    rw
      (
        opened_fresh session fresh,
        detect_lem kind (url_text path rest),
        begin_lem kind path rest fallback resource
            (ltb limits.enough_length (length (request_text kind path hs text))) url,
        all,
        sum,
      )
      refl

-- The request was read whole: the answer is `success`, with the properties of the header lines, and
-- nothing of it stays in the session.
abbrev pub Reads : Result Returned → Kind → Request → Text → Text → Type 0
Reads result kind resource body rest =
    (out : Returned) × (result ≡ ok out)
    × (out.result ≡ success)
    × (out.scan.kind ≡ kind)
    × (out.scan.resource ≡ resource)
    × (out.body ≡ body)
    × (out.rest ≡ rest)
    × (out.session.data_back ≡ none)

abbrev pub done_resource : Request → List (Text × Text) → Request
done_resource resource hs = record resource { properties = assign_all resource.properties hs }

conclude_done :
    (limits : Limits) (session : Session) (kind : Kind) (path : Text) (hs : List (Text × Text))
    (text body : Text) (resource : Request)
    → request_size kind path hs < limits.header_max_size
    → conclude limits session body (at_line (done_scan kind path hs resource) text text false)
      ≡ answer limits session body (at_line (done_scan kind path hs resource) text text false)
unfolding conclude
conclude_done limits session kind path hs text body resource h =
    let t : leb limits.header_max_size (request_size kind path hs) ≡ false = ground arith in
    rw t refl

abbrev pub is_bodyless : Kind → Bool
is_bodyless get = true
is_bodyless del = true
is_bodyless _ = false

abbrev pub has_content : Kind → Bool
has_content post = true
has_content put = true
has_content _ = false

answer_bodyless :
    (limits : Limits) (session : Session) (kind : Kind) (path : Text) (hs : List (Text × Text))
    (resource : Request) (text body : Text)
    → is_bodyless kind ≡ true
    → let r = at_line (done_scan kind path hs resource) text text false in
      answer limits session body r ≡ leave success session body r
unfolding answer
answer_bodyless limits session get path hs resource text body t = refl
answer_bodyless limits session del path hs resource text body t = refl
answer_bodyless limits session post path hs resource text body t = absurd (true≢false (sym t))
answer_bodyless limits session put path hs resource text body t = absurd (true≢false (sym t))
answer_bodyless limits session options path hs resource text body t = absurd (true≢false (sym t))

answer-content :
    (limits : Limits) (session : Session) (kind : Kind) (path : Text) (hs : List (Text × Text))
    (resource : Request) (text body : Text)
    → has_content kind ≡ true
    → let r = at_line (done_scan kind path hs resource) text text false in
      answer limits session body r ≡ content limits session body r
unfolding answer
answer-content limits session post path hs resource text body t = refl
answer-content limits session put path hs resource text body t = refl
answer-content limits session get path hs resource text body t = absurd (true≢false (sym t))
answer-content limits session del path hs resource text body t = absurd (true≢false (sym t))
answer-content limits session options path hs resource text body t = absurd (true≢false (sym t))

-- `protocol` on the bytes of a whole GET or DELETE request, in a session without a status: where the
-- URL begins with a slash and has no space and `set` takes it, the names and values of the header
-- lines are not empty and have no carriage return, the names no colon, and the header is shorter than its
-- limit, the result is success, with all the header's properties; the body is left as it was, the
-- bytes behind the request stay, and the session keeps no status.
pub protocol_bodyless :
    (limits : Limits) (session : Session) (kind : Kind) (path : Text) (hs : List (Text × Text))
    (text fallback body : Text) (resource : Request)
    → is_bodyless kind ≡ true
    → session.data_back ≡ none
    → IsUrl path resource
    → AreHeaders hs
    → request_size kind path hs < limits.header_max_size
    → limits.header_max_size < 2 ^ 64
    → Reads
        (protocol limits session (request_text kind path hs text) fallback body)
        kind
        (done_resource resource hs)
        body
        text
protocol_bodyless limits session kind path hs text fallback body resource k fresh url h b w = (
  leave success session body (at_line (done_scan kind path hs resource) text text false),
  protocol_header limits session kind path hs text fallback body resource fresh url h b w
      ∙ ap ok (
          conclude_done limits session kind path hs text body resource b
          ∙ answer_bodyless limits session kind path hs resource text body k),
  refl,
  refl,
  refl,
  refl,
  refl,
  refl,
)

content_lem :
    (limits : Limits) (session : Session) (body text size_text : Text) (ss : ScanStatus)
    (properties : List (Text × Text)) (n : ℕ)
    → find_or_add ss.resource.properties content_length ≡ (size_text, properties)
    → is_empty size_text ≡ false
    → stoui64 size_text ≡ (n, length size_text)
    → n ≤ limits.content_max_size
    → n ≤ length text
    → content limits session body (at_line ss text text false)
      ≡ leave success session
          (take n text)
          (record (at_line
            (record ss { resource = record ss.resource { properties = properties } })
            text
            text
            false) { rest = drop n text })
unfolding content
content_lem limits session body text size_text ss properties n found some_text number fits here =
    let whole : (length size_text == length size_text) ≡ true = ground arith in
    let t1 : ltb limits.content_max_size n ≡ false = ground arith in
    let t2 : ltb (length text) n ≡ false = ground arith in
    rw (found, some_text, number, whole, t1, t2) refl

-- `protocol` on the bytes of a whole POST or PUT request, in a session without a status and under the
-- conditions on its URL and header that hold for a GET request too: where the property
-- Content-Length is a number n that does not exceed its limit and n bytes or more follow the header,
-- the result is success, the body is the n bytes behind the header, the bytes behind the body stay,
-- and the session keeps no status.
pub protocol_content :
    (limits : Limits) (session : Session) (kind : Kind) (path : Text) (hs : List (Text × Text))
    (text fallback body size_text : Text) (resource : Request) (properties : List (Text × Text))
    (n : ℕ)
    → has_content kind ≡ true
    → session.data_back ≡ none
    → IsUrl path resource
    → AreHeaders hs
    → request_size kind path hs < limits.header_max_size
    → limits.header_max_size < 2 ^ 64
    → find_or_add (assign_all resource.properties hs) content_length ≡ (size_text, properties)
    → is_empty size_text ≡ false
    → stoui64 size_text ≡ (n, length size_text)
    → n ≤ limits.content_max_size
    → n ≤ length text
    → Reads
        (protocol limits session (request_text kind path hs text) fallback body)
        kind
        (record resource { properties = properties })
        (take n text)
        (drop n text)
protocol_content limits session kind path hs text fallback body size_text resource properties n k
      fresh url h b w found some_text number fits here =
    (
      _,
      protocol_header limits session kind path hs text fallback body resource fresh url h b w
          ∙ ap ok (
              conclude_done limits session kind path hs text body resource b
              ∙ answer-content limits session kind path hs resource text body k
              ∙ content_lem limits session body text size_text (done_scan kind path hs resource)
                  properties n found some_text number fits here),
      refl,
      refl,
      refl,
      refl,
      refl,
      refl,
    )
