-- ===== src/Tests/Exchanges.antt =====
-- belt.pp/http.hpp: `protocol` on the bytes of two requests.
use belt_pp.Base.{
  ◌⊎◌, Result, err, out_of_range, ok, ◌≡◌, refl, arith, true, List, [], ◌∷◌, none, take, drop,
}
use belt_pp.Http.Split.{find, find_or_end, next_index, split_loop, split}
use belt_pp.Http.Percent.{digit, percent_loop, percent_decode}
use belt_pp.Http.Number.{
  digit_below, digits_from, begins_digit, unsigned_from, strtoull_from, stoui64,
}
use belt_pp.Http.Url.{assign_all}
use belt_pp.Http.Request.{
  Text, Request, assign, query_of, path_and_query, decode_all, add_arguments, set_url,
}
use belt_pp.Http.Scan.{agree_from, check_begin, check_end}
use belt_pp.Http.Safety.{Kept, protocol-Kept}
use belt_pp.Http.Protocol.{
  get, post, detect, scan_method, request_line, headers, kind_of, line_ending, header_line, between,
}
use belt_pp.Http.Session.{
  Session, Limits, Returned, ThreeState, error, attempt, begin, opened, conclude, find_or_add,
  content_length, protocol,
}
use belt_pp.Http.Headers.{AreHeaders}
use belt_pp.Http.Whole.{
  IsUrl, Reads, request_text, done_resource, protocol_bodyless, protocol_content,
}

abbrev fresh_session : Session
fresh_session = record { data_back = none; has_handler = true; autoreply = [] }

abbrev limits : Limits
limits = record { enough_length = 5; header_max_size = 100; content_max_size = 10 }

-- The URL `/c`, without its slash.
abbrev path : Text
path = b'c' ∷ []

abbrev resource : Request
resource = record { path = path ∷ []; arguments = []; properties = [] }

path-IsUrl : IsUrl path resource
unfolding set_url split split_loop next_index find_or_end find path_and_query query_of decode_all
    percent_decode percent_loop add_arguments
path-IsUrl = ((omega arith, tt), refl)

-- `Content-Length: 2`
abbrev two_bytes : List (Text × Text)
two_bytes = (content_length, b'2' ∷ []) ∷ []

two_bytes-AreHeaders : AreHeaders two_bytes
two_bytes-AreHeaders = (
  (
    refl,
    (
      omega arith,
      (
        omega arith,
        (
          omega arith,
          (
            omega arith,
            (
              omega arith,
              (
                omega arith,
                (
                  omega arith,
                  (
                    omega arith,
                    (
                      omega arith,
                      (omega arith, (omega arith, (omega arith, (omega arith, (omega arith, tt))))),
                    ),
                  ),
                ),
              ),
            ),
          ),
        ),
      ),
    ),
  ),
  refl,
  (
    omega arith,
    (
      omega arith,
      (
        omega arith,
        (
          omega arith,
          (
            omega arith,
            (
              omega arith,
              (
                omega arith,
                (
                  omega arith,
                  (
                    omega arith,
                    (
                      omega arith,
                      (
                        omega arith,
                        (
                          omega arith,
                          (
                            omega arith,
                            (omega arith, (omega arith, (omega arith, (omega arith, tt)))),
                          ),
                        ),
                      ),
                    ),
                  ),
                ),
              ),
            ),
          ),
        ),
      ),
    ),
  ),
  tt,
)

-- Two bytes of content, and a third one behind them.
abbrev three : Text
three = b'a' ∷ b'b' ∷ b'x' ∷ []

size_found : find_or_add (assign_all [] two_bytes) content_length ≡ (b'2' ∷ [], two_bytes)
unfolding find_or_add assign
size_found = refl

size_read : stoui64 (b'2' ∷ []) ≡ (2, 1)
unfolding stoui64 strtoull_from unsigned_from digits_from digit_below digit begins_digit
size_read = refl

protocol_bodyless_example :
    Reads
      (protocol limits fresh_session (request_text get path two_bytes three) [] [])
      get
      (done_resource resource two_bytes)
      []
      three
protocol_bodyless_example =
    protocol_bodyless limits fresh_session get path two_bytes three [] [] resource refl refl
      path-IsUrl two_bytes-AreHeaders (omega arith) (omega arith)

protocol_content_example :
    Reads
      (protocol limits fresh_session (request_text post path two_bytes three) [] [])
      post
      (record resource { properties = two_bytes })
      (take 2 three)
      (drop 2 three)
protocol_content_example =
    protocol_content limits fresh_session post path two_bytes three [] [] (b'2' ∷ []) resource
      two_bytes 2 refl refl path-IsUrl two_bytes-AreHeaders (omega arith) (omega arith) size_found
      refl size_read (omega arith) (omega arith)

-- The request line alone: the session waits for the header.
abbrev line_alone : Text
line_alone = b'G' ∷ b'E' ∷ b'T' ∷ b' ' ∷ b'/' ∷ line_ending

protocol-Kept_example :
    ((out : Returned) × (protocol limits fresh_session line_alone [] [] ≡ ok out) × Kept limits out)
    ⊎ (protocol limits fresh_session line_alone [] [] ≡ err out_of_range)
protocol-Kept_example = protocol-Kept limits fresh_session line_alone [] []

-- What `protocol` answers there.
abbrev answer_to : Result Returned → ThreeState
answer_to (ok out) = out.result
answer_to (err _) = error

line_alone_waits : answer_to (protocol limits fresh_session line_alone [] []) ≡ attempt
unfolding protocol begin detect opened scan_method check_begin agree_from request_line check_end
    headers conclude kind_of header_line between set_url split split_loop next_index find_or_end
    find path_and_query query_of decode_all percent_decode percent_loop add_arguments
line_alone_waits = refl
