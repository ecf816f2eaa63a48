-- ===== src/Http/Safety.antt =====
-- What holds of every return of `protocol`.
use belt_pp.Base.{
  suc, if◌then◌else◌, ◌<◌, ◌≡◌, refl, subst, false, not, ◌||◌, ◌==◌, leb, ltb, if_cases, ◌⊎◌, inl,
  inr, ◌++◌, length, take, drop, is_empty, none, Result, ok, err, out_of_range, arith, ◌>>=◌,
}
use belt_pp.Http.Request.{Text}
use belt_pp.Http.Fuel.{Defined, Defined-cases, then_Defined, headers-Defined, request_line-Defined}
use belt_pp.Http.Number.{stoui64}
use belt_pp.Http.Reply.{reply}
use belt_pp.Http.Protocol.{
  Status, clean, http_request_progress, http_properties_progress, http_done, get, post, put, del,
  options, Reading, Flow, failed, going, detect, headers,
}
use belt_pp.Http.Session.{
  Session, error, attempt, success, Returned, Limits, leave, wait, find_or_add, content_length,
  content, answer, conclude, opened, is_request, begin, protocol,
}

-- Only an error leaves a header of the limit's size or more, and only an attempt leaves a status in
-- the session.
pub record Kept (limits : Limits) (out : Returned) : Type 0 where
  pub bounded : (out.result ≡ error) ⊎ (out.scan.http_header_scanning < limits.header_max_size)
  pub dropped : (out.result ≡ attempt) ⊎ (out.session.data_back ≡ none)

content-Kept :
    (limits : Limits) (session : Session) (body : Text) (r : Reading)
    → r.scan.http_header_scanning < limits.header_max_size
    → Kept limits (content limits session body r)
unfolding content
content-Kept limits session body r h =
    let found = find_or_add r.scan.resource.properties content_length in
    let size = stoui64 found.0 in
    let r' : Reading = record r {
      scan = record r.scan { resource = record r.scan.resource { properties = found.1 } };
    } in
    let read =
      leave success session (take size.0 r.fallback) (record r' { rest = drop size.0 r.rest }) in
    if_cases (Kept limits)
      (is_empty found.0 || not (size.1 == length found.0) || ltb limits.content_max_size size.0)
      (leave error session body r')
      (if ltb (length r.rest) size.0 then wait session body r' else read)
      (λ _. record { bounded = inl refl; dropped = inr refl })
      (λ _.
        if_cases (Kept limits) (ltb (length r.rest) size.0) (wait session body r') read
          (λ _. record { bounded = inr h; dropped = inl refl })
          (λ _. record { bounded = inr h; dropped = inr refl }))

answer-Kept :
    (limits : Limits) (session : Session) (body : Text) (r : Reading)
    → r.scan.http_header_scanning < limits.header_max_size
    → Kept limits (answer limits session body r)
unfolding answer
answer-Kept limits session body r h =
    elim r.scan.kind
      as (λ k. Kept limits (elim k [
        | options ↦
            leave attempt
              (record session { has_handler = false; autoreply = session.autoreply ++ reply }) body
              r
        | get ↦ leave success session body r
        | del ↦ leave success session body r
        | post ↦ content limits session body r
        | put ↦ content limits session body r
      ])) [
        | options ↦ record { bounded = inr h; dropped = inl refl }
        | get ↦ record { bounded = inr h; dropped = inr refl }
        | del ↦ record { bounded = inr h; dropped = inr refl }
        | post ↦ content-Kept limits session body r h
        | put ↦ content-Kept limits session body r h
      ]

conclude-Kept :
    (limits : Limits) (session : Session) (body : Text) (r : Reading)
    → Kept limits (conclude limits session body r)
unfolding conclude
conclude-Kept limits session body r =
    let go : Status → Returned = λ st. elim st [
      | clean ↦ leave error session body r
      | http_request_progress ↦ wait session body r
      | http_properties_progress ↦ wait session body r
      | http_done ↦ answer limits session body (record r { rest = r.fallback })
    ] in
    if_cases (Kept limits) (leb limits.header_max_size r.scan.http_header_scanning)
      (leave error session body r) (go r.scan.status)
      (λ _. record { bounded = inl refl; dropped = inr refl })
      (λ t.
        let h : r.scan.http_header_scanning < limits.header_max_size = ground arith in
        elim r.scan.status as (λ st. Kept limits (go st)) [
          | clean ↦ record { bounded = inl refl; dropped = inr refl }
          | http_request_progress ↦ record { bounded = inr h; dropped = inl refl }
          | http_properties_progress ↦ record { bounded = inr h; dropped = inl refl }
          | http_done ↦ answer-Kept limits session body (record r { rest = r.fallback }) h
        ])

abbrev Each : Limits → Result Returned → Type 0
Each limits (err fault) = Unit {0}
Each limits (ok out) = Kept limits out

-- What both chains of phases do with a phase's result.
then_Kept :
    (limits : Limits) (session : Session) (body : Text) (x : Result (Reading × Flow))
    (next : Reading → Result Returned)
    → ((r : Reading) → Each limits (next r))
    → Each limits
        (x >>= λ (r, flow). elim flow [ failed ↦ ok (leave error session body r) | going ↦ next r ])
then_Kept limits session body (err fault) next h = tt
then_Kept limits session body (ok (r, failed)) next h = record {
  bounded = inl refl;
  dropped = inr refl;
}
then_Kept limits session body (ok (r, going)) next h = h r

protocol-Each :
    (limits : Limits) (session : Session) (rest fallback body : Text)
    → Each limits (protocol limits session rest fallback body)
unfolding protocol
protocol-Each limits session rest fallback body =
    then_Kept limits session body
      (begin (record {
        scan = detect (opened session) rest;
        rest = rest;
        fallback = fallback;
        long_enough = ltb limits.enough_length (length rest);
      }))
      (λ r1. headers (suc (length r1.rest)) limits.header_max_size r1 >>= λ (r2, flow2).
        elim flow2 [
          | failed ↦ ok (leave error session body r2)
          | going ↦ ok (conclude limits session body r2)
        ])
      (λ r1.
        then_Kept limits session body (headers (suc (length r1.rest)) limits.header_max_size r1)
          (λ r2. ok (conclude limits session body r2)) (λ r2. conclude-Kept limits session body r2))

begin-Defined : (r : Reading) → Defined (begin r)
unfolding begin
begin-Defined r =
    if_cases Defined (is_request r.scan.status) _ _ (λ _. request_line-Defined r) (λ _. tt)

protocol-Defined :
    (limits : Limits) (session : Session) (rest fallback body : Text)
    → Defined (protocol limits session rest fallback body)
unfolding protocol
protocol-Defined limits session rest fallback body =
    then_Defined (begin _) _ (begin-Defined _) (λ (r1, flow) e. after_line r1 flow)
  where
    after_header :
        (r2 : Reading) (flow : Flow)
        → Defined (elim flow as (λ _. Result Returned) [
          | failed ↦ ok (leave error session body r2)
          | going ↦ ok (conclude limits session body r2)
        ])
    after_header r2 failed = tt
    after_header r2 going = tt

    after_line :
        (r1 : Reading) (flow : Flow)
        → Defined (elim flow as (λ _. Result Returned) [
          | failed ↦ ok (leave error session body r1)
          | going ↦
              (headers (suc (length r1.rest)) limits.header_max_size r1 >>= λ (r2, flow2).
              elim flow2 [
                | failed ↦ ok (leave error session body r2)
                | going ↦ ok (conclude limits session body r2)
              ])
        ])
    after_line r1 failed = tt
    after_line r1 going =
        then_Defined (headers (suc (length r1.rest)) limits.header_max_size r1) _
          (headers-Defined (suc (length r1.rest)) limits.header_max_size r1 (omega arith))
          (λ (r2, flow) e. after_header r2 flow)

-- Whatever the bytes and the session, `protocol` returns, or it has made an access outside a vector
-- or a text, which the source leaves undefined. A return that is not an error has read fewer header
-- bytes than the limit, and one that does not ask for more data leaves no status behind.
pub protocol-Kept :
    (limits : Limits) (session : Session) (rest fallback body : Text)
    → ((out : Returned) × (protocol limits session rest fallback body ≡ ok out) × Kept limits out)
      ⊎ (protocol limits session rest fallback body ≡ err out_of_range)
protocol-Kept limits session rest fallback body =
    elim (Defined-cases (protocol limits session rest fallback body)
      (protocol-Defined limits session rest fallback body)) [
        | inl (out, e) ↦
            inl (out, e, subst (Each limits) e (protocol-Each limits session rest fallback body))
        | inr e ↦ inr e
      ]
