-- ===== src/Http/Headers.antt =====
-- The loop of `protocol` over the header lines.
use belt_pp.Base.{
  ℕ, zero, suc, ◌+◌, ◌-◌, ◌<◌, ◌≤◌, ◌^◌, ◌≡◌, refl, ap, ◌∙◌, Bool, true, false, ◌&&◌, List, [], ◌∷◌,
  ◌++◌, ltb, lt→ltb, length, take, drop, take-append, drop-append, drop_prefix, length-append,
  arith, ok, is_empty,
}
use mathlib.Core.Bool.{true≢false}
use belt_pp.Base.Words.{add_size}
use belt_pp.Http.Find.{Without}
use belt_pp.Http.Join.{IsPart}
use belt_pp.Http.Request.{Text, assign}
use belt_pp.Http.Url.{assign_all}
use belt_pp.Http.Property.{add_property_lem}
use belt_pp.Http.Lines.{check_end_line}
use belt_pp.Http.Protocol.{
  http_properties_progress, http_done, ScanStatus, Reading, going, again, crlf, is_properties,
  header_line, headers,
}

-- The three texts that a line is cut into.
line_cut :
    (line text : Text)
    → (take (length line) (line ++ (13 ∷ 10 ∷ text)) ≡ line)
      × (take (length line + 2 - length line) (drop (length line) (line ++ (13 ∷ 10 ∷ text)))
          ≡ crlf)
      × (drop (length line + 2) (line ++ (13 ∷ 10 ∷ text)) ≡ text)
line_cut line text =
    let two : length line + 2 - length line ≡ 2 = omega arith in
    (
      take-append line (13 ∷ 10 ∷ text),
      rw (two, drop_prefix line (13 ∷ 10 ∷ text)) refl,
      drop-append line (13 ∷ 10 ∷ text) 2,
    )

abbrev pub at_line : ScanStatus → Text → Text → Bool → Reading
at_line ss rest fallback long_enough = record {
  scan = ss;
  rest = rest;
  fallback = fallback;
  long_enough = long_enough;
}

abbrev pub counted : ScanStatus → ℕ → ScanStatus
counted ss n = record ss { http_header_scanning = add_size ss.http_header_scanning n }

pub blank_line :
    (ss : ScanStatus) (text fallback : Text) (l : Bool)
    → header_line (at_line ss (13 ∷ 10 ∷ text) fallback l)
      ≡ ok (at_line (counted (record ss { status = http_done }) 2) text text false, again)
unfolding header_line
blank_line ss text fallback l = rw (check_end_line [] 13 (10 ∷ []) text tt) refl

pub property_line :
    (ss : ScanStatus) (name value text fallback : Text) (l : Bool)
    → IsPart b':' name
    → is_empty value ≡ false
    → Without 13 (name ++ (b':' ∷ b' ' ∷ value))
    → header_line (at_line ss ((name ++ (b':' ∷ b' ' ∷ value)) ++ (13 ∷ 10 ∷ text)) fallback l)
      ≡ ok (
        at_line
            (counted
              (record ss {
                resource = record ss.resource {
                  properties = assign ss.resource.properties name value;
                };
              })
              (length (name ++ (b':' ∷ b' ' ∷ value)) + 2))
            text
            text
            false,
        again,
      )
unfolding header_line
property_line ss [] value text fallback l h v free = absurd (true≢false h.0)
property_line ss (c ∷ name) value text fallback l h v free =
    let line = (c ∷ name) ++ (b':' ∷ b' ' ∷ value) in
    let (c1, c2, c3) = line_cut line text in
    rw
      (
        check_end_line line 13 (10 ∷ []) text free,
        c1,
        c2,
        c3,
        add_property_lem ss.resource (c ∷ name) value h v,
      )
      refl

-- One header line for each property, and the empty line behind them.
abbrev pub header_text : List (Text × Text) → Text → Text
header_text [] text = 13 ∷ 10 ∷ text
header_text ((name, value) ∷ more) text =
    (name ++ (b':' ∷ b' ' ∷ value)) ++ (13 ∷ 10 ∷ header_text more text)

abbrev pub header_size : List (Text × Text) → ℕ
header_size [] = 2
header_size ((name, value) ∷ more) = length (name ++ (b':' ∷ b' ' ∷ value)) + 2 + header_size more

abbrev pub AreHeaders : List (Text × Text) → Type 0
AreHeaders [] = Unit {0}
AreHeaders ((name, value) ∷ more) =
    IsPart b':' name
    × (is_empty value ≡ false)
    × Without 13 (name ++ (b':' ∷ b' ' ∷ value))
    × AreHeaders more

-- `ss` when the header is read, with the properties set one after the other.
abbrev pub with_headers : ScanStatus → List (Text × Text) → ℕ → ScanStatus
with_headers ss hs n = record ss {
  status = http_done;
  http_header_scanning = n;
  resource = record ss.resource { properties = assign_all ss.resource.properties hs };
}

headers_again :
    (fuel limit : ℕ) (r r' : Reading)
    → r.scan.status ≡ http_properties_progress
    → r.scan.http_header_scanning < limit
    → header_line r ≡ ok (r', again)
    → headers (suc fuel) limit r ≡ headers fuel limit r'
unfolding headers
headers_again fuel limit r r' s h e =
    let test : (is_properties r.scan.status && ltb r.scan.http_header_scanning limit) ≡ true =
      ap (λ b. is_properties b && ltb r.scan.http_header_scanning limit) s
      ∙ lt→ltb r.scan.http_header_scanning limit h in
    rw (test, e, headers) refl

headers_done :
    (fuel limit : ℕ) (r : Reading)
    → r.scan.status ≡ http_done
    → headers fuel limit r ≡ ok (r, going)
unfolding headers
headers_done zero limit r s = rw (s, headers) refl
headers_done (suc fuel) limit r s = rw (s, headers) refl

pub headers_lem :
    (fuel limit : ℕ) (ss : ScanStatus) (hs : List (Text × Text)) (text fallback : Text) (l : Bool)
    → ss.status ≡ http_properties_progress
    → AreHeaders hs
    → ss.http_header_scanning + header_size hs < limit
    → limit < 2 ^ 64
    → length (header_text hs text) ≤ fuel
    → headers fuel limit (at_line ss (header_text hs text) fallback l)
      ≡ ok (
        at_line (with_headers ss hs (ss.http_header_scanning + header_size hs)) text text false,
        going,
      )
headers_lem zero limit ss [] text fallback l s h b w f = absurd (omega arith)
headers_lem zero limit ss ((name, value) ∷ hs) text fallback l s h b w f =
    absurd
      (omega (arith, length-append (name ++ (b':' ∷ b' ' ∷ value)) (13 ∷ 10 ∷ header_text hs text)))
headers_lem (suc fuel) limit ss [] text fallback l s h b w f =
    let sum : add_size ss.http_header_scanning 2 ≡ ss.http_header_scanning + 2 = omega arith in
    headers_again fuel limit (at_line ss (13 ∷ 10 ∷ text) fallback l)
      (at_line (counted (record ss { status = http_done }) 2) text text false) s (omega arith)
      (blank_line ss text fallback l)
    ∙ headers_done fuel limit
        (at_line (counted (record ss { status = http_done }) 2) text text false) refl
    ∙ ap (λ n. ok (at_line (with_headers ss [] n) text text false, going)) sum
headers_lem (suc fuel) limit ss ((name, value) ∷ hs) text fallback l s (part, some_value, free, h) b
      w f =
    let line = name ++ (b':' ∷ b' ' ∷ value) in
    let rest = header_text hs text in
    let ss' : ScanStatus =
      counted
        (record ss {
          resource = record ss.resource { properties = assign ss.resource.properties name value };
        })
        (length line + 2) in
    let sum : add_size ss.http_header_scanning (length line + 2)
        ≡ ss.http_header_scanning + (length line + 2) =
      omega arith in
    let total : add_size ss.http_header_scanning (length line + 2) + header_size hs
        ≡ ss.http_header_scanning + (length line + 2 + header_size hs) =
      omega arith in
    headers_again fuel limit (at_line ss (line ++ (13 ∷ 10 ∷ rest)) fallback l)
      (at_line ss' rest rest false) s (omega arith)
      (property_line ss name value rest fallback l part some_value free)
    ∙ headers_lem fuel limit ss' hs text rest false s h (omega arith) w
        (omega (arith, length-append line (13 ∷ 10 ∷ rest)))
    ∙ ap (λ n. ok (at_line (with_headers ss ((name, value) ∷ hs) n) text text false, going)) total
