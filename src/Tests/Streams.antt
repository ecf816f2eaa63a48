-- ===== src/Tests/Streams.antt =====
-- Bytes that were queued and taken, and a peer id: the theorems applied there.
use belt_pp.Base.{ℕ, ◌≡◌, refl, arith, List, [], ◌∷◌, ◌++◌, take, replicate, ok}
use belt_pp.Queue.{
  Queue, push, reserve, append, grow, construct, capacity2pow, next2pow, next2pow_from, relocate,
  pop, at, valid_index,
}
use belt_pp.Sockets.Channels.{no_address, no_bytes}
use belt_pp.Sockets.PeerId.{construct_peer_id, parse_peer_id}
use belt_pp.Sockets.PeerId.RoundTrip.{parse_peer_id-construct_peer_id}
use belt_pp.Sockets.Stream.{push_all, chunk, pop_times, offered, after_send, taken_bytes}
use belt_pp.Sockets.Stream.Bytes.{Sent, none_sent, queued, took, Flows, Sent-Flows}

parse_peer_id-construct_peer_id_example :
    parse_peer_id (construct_peer_id 4096 no_address) ≡ ok 4096
parse_peer_id-construct_peer_id_example =
    parse_peer_id-construct_peer_id 4096 no_address (omega arith)

abbrev three : List ℕ
three = 10 ∷ (20 ∷ (30 ∷ []))

-- The vector grows to 128 places.
abbrev held_three : Queue ℕ
held_three = record { start = 0; size = 3; loops = 0; buf = three ++ replicate 125 0 }

abbrev held_one : Queue ℕ
held_one = record { start = 2; size = 1; loops = 0; buf = three ++ replicate 125 0 }

three_pushed : push_all three no_bytes ≡ ok held_three
unfolding push_all push reserve append grow construct capacity2pow next2pow next2pow_from relocate
three_pushed = refl

three_sent : Sent three [] held_three
three_sent = queued none_sent three three_pushed

all_offered : offered held_three ≡ ok three
unfolding offered chunk at valid_index
all_offered = refl

two_taken : after_send (taken_bytes 2) held_three ≡ ok held_one
unfolding after_send pop_times pop
two_taken = refl

Sent-Flows_example : Flows three (take 2 three) held_one
Sent-Flows_example =
    Sent-Flows three (take 2 three) held_one
      (took three_sent three 2 all_offered (omega arith) two_taken) (omega arith)
