-- ===== src/Sockets/Stream.antt =====
-- libsocket/native.cpp, the functions for Linux and macOS: the bytes that wait to be sent on a channel.
-- The call `::send` is an argument: how many bytes it took, or the error that is not `EAGAIN`.
pub mod Bytes
use belt_pp.Base.{
  ℕ, zero, suc, ◌+◌, ◌*◌, Bool, true, false, Option, List, [], ◌∷◌, is_empty, ◌==◌, if◌then◌else◌,
  Result, ok, err, Fault, no_fuel, ◌>>=◌,
}
use belt_pp.Base.Words.{add_size}
use belt_pp.Queue.{Queue, begin_index, end_index, empty, at, pop, push}
use belt_pp.Sockets.Poll.{Epoll, receive_task, send_task, proceed}
use belt_pp.Sockets.Events.{Events, add, remove}
use belt_pp.Sockets.Channels.{with_kernel}

-- What `::send` answers: a number of bytes, 0 for `EAGAIN`, or an error.
pub data Taken : Type 0 where
  taken_bytes failed_send : ℕ → Taken

unfoldable pub push_all : List ℕ → Queue ℕ → Result (Queue ℕ)
push_all [] q = ok q
push_all (b ∷ bs) q = do q' ← push 0 q b; push_all bs q'

-- The bytes from an index on, so many at most.
unfoldable pub chunk : ℕ → ℕ → Queue ℕ → Result (List ℕ)
chunk zero index q = ok []
chunk (suc limit) index q =
    let rest = chunk limit (add_size index 1) q in
    if index == end_index q then ok [] else do b ← at q index; bs ← rest; ok (b ∷ bs)

unfoldable pub pop_times : ℕ → Queue ℕ → Result (Queue ℕ)
pop_times zero q = ok q
pop_times (suc n) q = do q' ← pop q; pop_times n q'

-- The loop that empties the queue, on fuel.
unfoldable pub pop_all : ℕ → Queue ℕ → Result (Queue ℕ)
pop_all zero q = err no_fuel
pop_all (suc fuel) q =
    let rest = λ (q' : Queue ℕ). pop_all fuel q' in if empty q then ok q else do q' ← pop q; rest q'

abbrev pub chunk_size : ℕ
chunk_size = 2 * 1024 * 1024

module _ {K : Type 0} (epoll : Epoll K) where
  -- The slot is kept for another task.
  unfoldable pub change_task : Bool → ℕ → Option ℕ → ℕ → ℕ → Events K → Events K × Result ℕ
  change_task to_send item handle item_id eh_id e =
      proceed (remove epoll handle eh_id false true e) (λ e' f. (e', err f))
        (λ e' _.
          add epoll item handle item_id (if to_send then send_task else receive_task) true eh_id e')

  unfoldable pub async_send :
      ℕ → Option ℕ → ℕ → ℕ → List ℕ → Events K × Queue ℕ → (Events K × Queue ℕ) × Result (Unit {0})
  async_send item handle item_id eh_id message (e, stream) =
      let pushed = λ (e' : Events K).
        let r : (Events K × Queue ℕ) × Result (Unit {0}) = elim (push_all message stream) [
          | err f ↦ ((e', stream), err f)
          | ok stream' ↦ ((e', stream'), ok tt)
        ] in
        r in
      if empty stream
      then proceed (change_task true item handle item_id eh_id e) (λ e' f. ((e', stream), err f))
          (λ e' _. pushed e')
      else pushed e

-- What `send` does to the stream: the bytes that it offers, and the stream behind the answer.
unfoldable pub offered : Queue ℕ → Result (List ℕ)
offered stream = chunk chunk_size (begin_index stream) stream

unfoldable pub after_send : Taken → Queue ℕ → Result (Queue ℕ)
after_send (taken_bytes n) stream = pop_times n stream
after_send (failed_send code) stream = pop_all (suc stream.size) stream

module _ {K : Type 0} (epoll : Epoll K) (sending : K → Option ℕ → List ℕ → K × Taken) where
  -- `send`, with the number of bytes or the error.
  unfoldable pub send_bytes :
      ℕ → Option ℕ → ℕ → ℕ → Events K × Queue ℕ → (Events K × Queue ℕ) × Result Taken
  send_bytes item handle item_id eh_id (e, stream) = elim (offered stream) [
    | err f ↦ ((e, stream), err f)
    | ok bytes ↦
        let (kernel, answer) = sending e.poll.kernel handle bytes in
        let e' = with_kernel kernel e in
        let called : (Events K × Queue ℕ) × Result Taken = elim (after_send answer stream) [
          | err f ↦ ((e', stream), err f)
          | ok stream' ↦
              if empty stream'
              then proceed (change_task epoll false item handle item_id eh_id e')
                  (λ e'' f. ((e'', stream'), err f)) (λ e'' _. ((e'', stream'), ok answer))
              else ((e', stream'), ok answer)
        ] in
        if is_empty bytes then ((e, stream), ok (taken_bytes 0)) else called
  ]
