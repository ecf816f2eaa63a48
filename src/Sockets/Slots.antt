-- ===== src/Sockets/Slots.antt =====
-- What the channels of libsocket/socket.cpp and the event slots of event_impl.hpp share: a
-- `std::list` of `beltpp::queue`s. An id is an index; the last queue takes the new elements, and
-- when it is full a queue of twice its size that starts at its end index is put behind it. An
-- element is closed in place, and leaves when all before it in its queue are closed too.
pub mod Held
pub mod Seek
pub mod Drain
pub mod Grow
pub mod Keeps
pub mod Split
pub mod Write
use belt_pp.Base.{
  ℕ, zero, suc, ◌+◌, Bool, true, false, ◌&&◌, not, Option, none, some, List, [], ◌∷◌, ◌++◌,
  is_empty, if◌then◌else◌, Result, ok, err, no_fuel, ◌>>=◌,
}
use belt_pp.Base.Words.{mul_size}
use belt_pp.Queue.{Queue, end_index, valid_index, empty, full, front, at, pop, push, construct}

-- An iterator into the list: what stands before it, at it and behind it.
pub record Cursor {ℓ} (A : Type ℓ) : Type ℓ where
  pub before : List (Queue A)
  pub here : Queue A
  pub after : List (Queue A)

module _ {ℓ} {A : Type ℓ} where
  abbrev pub behind : Queue A → Option (Cursor A) → Option (Cursor A)
  behind q none = none
  behind q (some c) = some (record c { before = q ∷ c.before })

  -- The loop from `begin()` to the first queue with the test.
  unfoldable pub seek : (Queue A → Bool) → List (Queue A) → Option (Cursor A)
  seek test [] = none
  seek test (q ∷ qs) =
      let rest = seek test qs in
      if test q then some (record { before = []; here = q; after = qs }) else behind q rest

  -- The list with another queue at the iterator.
  abbrev pub rebuild : Cursor A → Queue A → List (Queue A)
  rebuild c q = c.before ++ (q ∷ c.after)

  -- `erase` when the queue is empty and not the last.
  unfoldable pub erase_empty : Cursor A → Queue A → List (Queue A)
  erase_empty c q = if empty q && not (is_empty c.after) then c.before ++ c.after else rebuild c q

  -- The end index of the last queue.
  unfoldable pub next_id : List (Queue A) → ℕ
  next_id [] = 0
  next_id (q ∷ []) = end_index q
  next_id (q ∷ (r ∷ qs)) = next_id (r ∷ qs)

module _ {ℓ} {A : Type ℓ} (closed : A → Bool) where
  -- The loop that pops the closed elements at the front, on fuel.
  unfoldable pub drain_from : ℕ → Queue A → Result (Queue A)
  drain_from zero q = err no_fuel
  drain_from (suc fuel) q =
      let rest = λ (q' : Queue A). drain_from fuel q' in
      if empty q then ok q else do a ← front q; if closed a then (do q' ← pop q; rest q') else ok q

  unfoldable pub drain : Queue A → Result (Queue A)
  drain q = drain_from (suc q.size) q

  -- `valid_index(id)` and the element not closed; `operator []` is called on a valid index only.
  unfoldable pub open_at : ℕ → Queue A → Bool
  open_at id q = valid_index q id && elim (at q id) [ ok a ↦ not (closed a) | err _ ↦ false ]

module _ {ℓ} {A : Type ℓ} (blank : A) where
  unfoldable pub first_queue : ℕ → List (Queue A) → Result (List (Queue A))
  first_queue capacity [] = do q ← construct blank capacity 0 0; ok (q ∷ [])
  first_queue capacity (q ∷ qs) = ok (q ∷ qs)

  unfoldable pub widen : List (Queue A) → Result (List (Queue A))
  widen [] = ok []
  widen (q ∷ []) =
      if full q
      then (do r ← construct blank (mul_size q.size 2) (end_index q) 0; ok (q ∷ (r ∷ [])))
      else ok (q ∷ [])
  widen (q ∷ (r ∷ qs)) = do rest ← widen (r ∷ qs); ok (q ∷ rest)

  -- The list with room in its last queue; `capacity` is that of the first queue ever made.
  unfoldable pub make_room : ℕ → List (Queue A) → Result (List (Queue A))
  make_room capacity qs = do qs' ← first_queue capacity qs; widen qs'

  unfoldable pub push_last : A → List (Queue A) → Result (List (Queue A))
  push_last a [] = ok []
  push_last a (q ∷ []) = do q' ← push blank q a; ok (q' ∷ [])
  push_last a (q ∷ (r ∷ qs)) = do rest ← push_last a (r ∷ qs); ok (q ∷ rest)
