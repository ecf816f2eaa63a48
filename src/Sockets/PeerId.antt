-- ===== src/Sockets/PeerId.antt =====
-- belt.pp/isocket.hpp, the text of an `ip_address`, and libsocket/socket.cpp, the peer ids: the id of a
-- channel with the text of its addresses. A text is a list of bytes; `decimal` is `std::to_string`.
pub mod RoundTrip
use belt_pp.Base.{
  ℕ, zero, suc, ◌+◌, ◌/◌, ◌%◌, Bool, true, false, ◌||◌, not, Option, none, some, List, [], ◌∷◌,
  ◌++◌, is_empty, ltb, ◌==◌, if◌then◌else◌, Result, ok, err, runtime_error, ◌>>=◌, ◌>>◌, require,
}
use belt_pp.Http.Split.{find}
use belt_pp.Http.Number.{stoui64}
use belt_pp.Sockets.Channels.{IpDestination, IpType, any, ipv4, ipv6, IpAddress}

-- The digits of a number, on fuel.
unfoldable pub decimal_from : ℕ → ℕ → List ℕ
decimal_from zero n = []
decimal_from (suc fuel) n =
    let rest = decimal_from fuel (n / 10) in
    if ltb n 10 then (48 + n) ∷ [] else rest ++ ((48 + n % 10) ∷ [])

unfoldable pub decimal : ℕ → List ℕ
decimal n = decimal_from (suc n) n

-- `<=>`
abbrev pub arrow : List ℕ
arrow = b'<' ∷ (b'=' ∷ (b'>' ∷ []))

abbrev pub open_mark : IpType → List ℕ
open_mark any = b'{' ∷ []
open_mark ipv4 = []
open_mark ipv6 = b'[' ∷ []

abbrev pub close_mark : IpType → List ℕ
close_mark any = b'}' ∷ []
close_mark ipv4 = []
close_mark ipv6 = b']' ∷ []

unfoldable pub is_unset : IpDestination → Bool
is_unset d = d.port == 0 || is_empty d.address

-- `to_string_dest` of the address with the type and the destination as its local end.
unfoldable pub to_string_dest : IpType → IpDestination → List ℕ
to_string_dest ip_type d =
    if is_unset d
    then []
    else open_mark ip_type ++ (d.address ++ (close_mark ip_type ++ (b':' ∷ decimal d.port)))

-- `to_string`; its call for the remote end has none of its own.
unfoldable pub to_string : IpAddress → List ℕ
to_string a =
    to_string_dest a.ip_type a.local
    ++ (if is_unset a.remote then [] else arrow ++ to_string_dest a.ip_type a.remote)

unfoldable pub construct_peer_id : ℕ → IpAddress → List ℕ
construct_peer_id id bundle = decimal id ++ (arrow ++ to_string bundle)

unfoldable pub parse_peer_id : List ℕ → Result ℕ
parse_peer_id peer_id = elim (find arrow peer_id) [
  | none ↦ err runtime_error
  | some pos ↦
      let (id, parse_end) = stoui64 peer_id in do require (parse_end == pos) runtime_error; ok id
]
