-- ===== src/Sockets/Events/Tables.antt =====
-- What the calls on the event handler do to the table of slots, whether or not the poll master
-- fails.
use belt_pp.Base.{
  ℕ, suc, ◌^◌, ◌<◌, ◌≡◌, refl, sym, ap, subst, ◌∙◌, arith, List, Option, none, some, Bool, true,
  false, Result, ok, err, dec_lt, ◌>>=◌,
}
use belt_pp.Base.Words.{size_mod}
use belt_pp.Queue.{Queue, valid_index, at, put}
use belt_pp.Queue.Laws.{is_some}
use belt_pp.Sockets.Slots.{
  Cursor, seek, rebuild, erase_empty, first_queue, widen, make_room, next_id, push_last, drain,
}
use belt_pp.Sockets.Slots.Seek.{valid-Asks}
use belt_pp.Sockets.Slots.Drain.{open_of}
use belt_pp.Sockets.Slots.Keeps.{Keeps, Keeps-beyond, write, make_room-Keeps, push_last-Keeps}
use belt_pp.Sockets.Slots.Split.{
  Split, seek-Split, seek-none, drain-Split, erase_empty-Keeps, rebuild-Keeps,
}
use belt_pp.Sockets.Slots.Write.{open_write_closed, open_write_gone}
use belt_pp.Sockets.Poll.{Epoll, PollMaster, Task, proceed, poll_add, poll_remove}
use belt_pp.Sockets.Events.{
  EventSlot, blank_slot, slot_closed, Events, claim, place, add, close_slot, release, remove,
  slot_of,
}

-- An entry of the table has an id below the next one.
pub below_next {ℓ} :
    {A : Type ℓ} (blank : A) {qs : List (Queue A)} {n : ℕ} {f : ℕ → Option A} (i : ℕ) {a : A}
    → Keeps blank qs n f
    → f i ≡ some a
    → i < n
below_next blank {n = n} i k there = elim (dec_lt i n) [
  | yes lt ↦ lt
  | no ge ↦ let gone = Keeps-beyond blank i k (omega arith) in absurd (cc)
]

claim_fresh :
    (slot_id : ℕ) (ids : List (Queue EventSlot)) {ids' : List (Queue EventSlot)}
    → make_room blank_slot 16 ids ≡ ok ids'
    → claim false slot_id ids ≡ ok (ids', next_id ids')
unfolding claim make_room
claim_fresh slot_id ids {ids'} e = go (first_queue blank_slot 16 ids) e
  where
    go :
        (r : Result (List (Queue EventSlot)))
        → (r >>= λ qs. widen blank_slot qs) ≡ ok ids'
        → (let both : List (Queue EventSlot) → Result (List (Queue EventSlot) × ℕ) =
              λ qs. widen blank_slot qs >>= λ rs. ok (rs, next_id rs) in
            (r >>= both) ≡ ok (ids', next_id ids'))
    go (err f) e = absurd (cc)
    go (ok qs) e = rw e refl

module _ {K : Type 0} (epoll : Epoll K) (e : Events K) (n : ℕ) (g : ℕ → Option EventSlot) where
  -- What an `add` that takes a new id leaves: the slot under the next id, or the table as it was.
  abbrev pub Added : EventSlot → PollMaster K × Result (Unit {0}) → Events K × Result ℕ → Type 0
  Added slot (p, ok u) r =
      (e' : Events K) × (r ≡ (e', ok n))
      × Keeps blank_slot e'.ids (suc n) (write g n (some slot))
      × (e'.poll ≡ p)
  Added slot (p, err f) r =
      (e' : Events K) × (r ≡ (e', err f)) × Keeps blank_slot e'.ids n g × (e'.poll ≡ p)

  add_fresh :
      (item : ℕ) (handle : Option ℕ) (item_id : ℕ) (action : Task) (slot_id : ℕ)
      → (ids' ids'' : List (Queue EventSlot)) → claim false slot_id e.ids ≡ ok (ids', n)
      → push_last blank_slot (record { closed = false; item_id = item_id; item = item }) ids'
        ≡ ok ids''
      → add epoll item handle item_id action false slot_id e
        ≡ proceed
            (poll_add epoll handle n action e.poll)
            (λ poll f. (record e { ids = ids'; poll = poll }, err f))
            (λ poll _. (record e { ids = ids''; poll = poll }, ok n))
  unfolding add place
  add_fresh item handle item_id action slot_id ids' ids'' claimed pushed =
      rw (add, claimed, place, pushed) refl

  -- A descriptor that is added gets the next id, and its slot stands under it; when the poll
  -- master throws, so does `add`, and the table is as it was.
  pub add_lem :
      (item : ℕ) (handle : Option ℕ) (item_id : ℕ) (action : Task) (slot_id : ℕ)
      → Keeps blank_slot e.ids n g
      → n < 2 ^ 61
      → Added
          (record { closed = false; item_id = item_id; item = item })
          (poll_add epoll handle n action e.poll)
          (add epoll item handle item_id action false slot_id e)
  add_lem item handle item_id action slot_id k small =
      let slot : EventSlot = record { closed = false; item_id = item_id; item = item } in
      let (ids', made, kept, room, next) =
        make_room-Keeps blank_slot 16 (omega arith) (omega arith) k small in
      let (ids'', pushed, kept') = push_last-Keeps blank_slot slot kept room in
      let claimed = claim_fresh slot_id e.ids made ∙ ap (λ m. ok (ids', m)) next in
      subst (Added slot (poll_add epoll handle n action e.poll))
        (sym (add_fresh item handle item_id action slot_id ids' ids'' claimed pushed))
        (go slot ids' ids'' kept kept' (poll_add epoll handle n action e.poll))
    where
      go :
          (slot : EventSlot) (ids' ids'' : List (Queue EventSlot))
          → Keeps blank_slot ids' n g
          → Keeps blank_slot ids'' (suc n) (write g n (some slot))
          → (polled : PollMaster K × Result (Unit {0}))
          → Added slot polled (
              proceed polled
                (λ poll f. (record e { ids = ids'; poll = poll }, err f))
                (λ poll _. (record e { ids = ids''; poll = poll }, ok n)))
      go slot ids' ids'' kept kept' (p, ok u) =
          (record e { ids = ids''; poll = p }, refl, kept', refl)
      go slot ids' ids'' kept kept' (p, err f) =
          (record e { ids = ids'; poll = p }, refl, kept, refl)

  -- What a `remove` leaves: the slot is closed, and when the poll master throws it is left so.
  -- Without `keep_slot` the closed slots at the front of its queue go too.
  abbrev pub Removed :
      ℕ
      → EventSlot
      → Bool
      → PollMaster K × Result (Unit {0})
      → Events K × Result (Unit {0})
      → Type 0
  Removed id slot keep_slot (p, err f) r =
      (e' : Events K) × (r ≡ (e', err f))
      × Keeps blank_slot e'.ids n (write g id (some (record slot { closed = true })))
      × (e'.poll ≡ p)
  Removed id slot true (p, ok u) r =
      (e' : Events K) × (r ≡ (e', ok tt))
      × Keeps blank_slot e'.ids n (write g id (some (record slot { closed = true })))
      × (e'.poll ≡ p)
  Removed id slot false (p, ok u) r =
      (e' : Events K) × (r ≡ (e', ok tt))
      × (g' : ℕ → Option EventSlot) × Keeps blank_slot e'.ids n g'
      × ((j : ℕ) → open_of slot_closed (g' j) ≡ open_of slot_closed (write g id none j))
      × (e'.poll ≡ p)

  remove_run :
      (handle : Option ℕ) (id : ℕ) (already_closed keep_slot : Bool) (c : Cursor EventSlot)
      → (q q' : Queue EventSlot) → seek (λ q. valid_index q id) e.ids ≡ some c
      → close_slot c id ≡ ok q
      → release keep_slot q ≡ ok q'
      → remove epoll handle id already_closed keep_slot e
        ≡ proceed
            (poll_remove epoll handle already_closed e.poll)
            (λ poll f. (record e { ids = rebuild c q; poll = poll }, err f))
            (λ poll _. (record e { ids = erase_empty c q'; poll = poll }, ok tt))
  unfolding remove
  remove_run handle id already_closed keep_slot c q q' found closed released =
      rw (remove, found, closed, released) refl

  close_slot_lem :
      (c : Cursor EventSlot) (id : ℕ) (slot : EventSlot) (q : Queue EventSlot)
      → at c.here id ≡ ok slot
      → slot.closed ≡ false
      → put c.here id (record slot { closed = true }) ≡ ok q
      → close_slot c id ≡ ok q
  unfolding close_slot
  close_slot_lem c id slot q read open_slot written = rw (close_slot, read, open_slot, written) refl

  emptied :
      (id : ℕ) (slot : EventSlot) (j : ℕ)
      → open_of slot_closed (write g id (some (record slot { closed = true })) j)
        ≡ open_of slot_closed (write g id none j)
  emptied id slot j =
      open_write_closed slot_closed g (λ k. open_of slot_closed (g k)) (λ k. refl) id
        (record slot { closed = true }) j refl
      ∙ sym (open_write_gone slot_closed g (λ k. open_of slot_closed (g k)) (λ k. refl) id j)

  -- In a table with fewer than 2 ^ 61 ids given, remove of an id with an open slot closes that slot
  -- and leaves every other open slot under its id; with keep_slot, and when the poll master throws,
  -- the closed slot stays under the id.
  pub remove_lem :
      (handle : Option ℕ) (id : ℕ) (already_closed keep_slot : Bool) (slot : EventSlot)
      → Keeps blank_slot e.ids n g
      → n < 2 ^ 61
      → g id ≡ some slot
      → slot.closed ≡ false
      → Removed id slot keep_slot
          (poll_remove epoll handle already_closed e.poll)
          (remove epoll handle id already_closed keep_slot e)
  unfolding release
  remove_lem handle id already_closed keep_slot slot k small there open_slot =
      let lt = below_next blank_slot id k there in
      let word : id < size_mod = omega arith in
      let (c, found, read, written) =
        seek-Split blank_slot id slot is_some (λ q. valid_index q id)
          (valid-Asks blank_slot id word) refl k small word there refl in
      let (q, stored, split) = written (record slot { closed = true }) in
      let closed = close_slot_lem c id slot q read open_slot stored in
      let (q', drained, g', split', same) = drain-Split blank_slot slot_closed split small in
      let polled = poll_remove epoll handle already_closed e.poll in
      go keep_slot polled c q split
        (λ t r e.
          subst (Removed id slot t polled)
            (sym (remove_run handle id already_closed t c q r found closed e)))
        q' drained g' split' (λ j. same j ∙ emptied id slot j)
    where
      left :
          Cursor EventSlot
          → Queue EventSlot
          → Queue EventSlot
          → PollMaster K × Result (Unit {0})
          → Events K × Result (Unit {0})
      left c q q' polled =
          proceed polled (λ poll f. (record e { ids = rebuild c q; poll = poll }, err f))
            (λ poll _. (record e { ids = erase_empty c q'; poll = poll }, ok tt))

      go :
          (t : Bool) (polled : PollMaster K × Result (Unit {0})) (c : Cursor EventSlot)
          (q : Queue EventSlot)
          → Split blank_slot c q n (write g id (some (record slot { closed = true })))
          → ((t : Bool) (r : Queue EventSlot)
              → release t q ≡ ok r
              → Removed id slot t polled (left c q r polled)
              → Removed id slot t polled (remove epoll handle id already_closed t e))
          → (q' : Queue EventSlot) → drain slot_closed q ≡ ok q'
          → (g' : ℕ → Option EventSlot) → Split blank_slot c q' n g'
          → ((j : ℕ) → open_of slot_closed (g' j) ≡ open_of slot_closed (write g id none j))
          → Removed id slot t polled (remove epoll handle id already_closed t e)
      go true (p, ok u) c q split run q' drained g' split' same = run true q refl (
        record e { ids = erase_empty c q; poll = p },
        refl,
        erase_empty-Keeps blank_slot split,
        refl,
      )
      go true (p, err f) c q split run q' drained g' split' same =
          run true q refl
            (record e { ids = rebuild c q; poll = p }, refl, rebuild-Keeps blank_slot split, refl)
      go false (p, err f) c q split run q' drained g' split' same =
          run false q' drained
            (record e { ids = rebuild c q; poll = p }, refl, rebuild-Keeps blank_slot split, refl)
      go false (p, ok u) c q split run q' drained g' split' same = run false q' drained (
        record e { ids = erase_empty c q'; poll = p },
        refl,
        g',
        erase_empty-Keeps blank_slot split',
        same,
        refl,
      )

slot_missing :
    (id : ℕ) (ids : List (Queue EventSlot))
    → seek (λ q. valid_index q id) ids ≡ none
    → slot_of id ids ≡ ok none
unfolding slot_of
slot_missing id ids missed = rw (slot_of, missed) refl

slot_found :
    (id : ℕ) (ids : List (Queue EventSlot)) (c : Cursor EventSlot) (slot : EventSlot)
    → seek (λ q. valid_index q id) ids ≡ some c
    → at c.here id ≡ ok slot
    → slot_of id ids ≡ ok (some slot)
unfolding slot_of
slot_found id ids c slot found read = rw (slot_of, found, read) refl

-- `wait` finds the slot that the table has.
pub slot_of_lem :
    (id : ℕ) {ids : List (Queue EventSlot)} {n : ℕ} {g : ℕ → Option EventSlot}
    → Keeps blank_slot ids n g
    → n < 2 ^ 61
    → id < size_mod
    → slot_of id ids ≡ ok (g id)
slot_of_lem id {ids} {n} {g} k small word = go (g id) refl
  where
    go : (o : Option EventSlot) → g id ≡ o → slot_of id ids ≡ ok o
    go none gone = slot_missing id ids (
        seek-none blank_slot id is_some (λ q. valid_index q id) (valid-Asks blank_slot id word) refl
          k small (ap is_some gone))
    go (some slot) there =
        let (c, found, read, _) =
          seek-Split blank_slot id slot is_some (λ q. valid_index q id)
            (valid-Asks blank_slot id word) refl k small word there refl in
        slot_found id ids c slot found read
