-- ===== src/Sockets/Events.antt =====
-- libsocket/event_impl.hpp: `event_handler_impl`, the slots of the descriptors that an event handler
-- watches. A call answers with the state that it leaves and its result, so that what stands after
-- an exception shows.
pub mod Tables
pub mod Reuse
use belt_pp.Base.{
  ℕ, Bool, true, false, Option, none, some, List, [], ◌∷◌, not, Result, ok, err, runtime_error,
  out_of_range, ◌==◌, if◌then◌else◌, require, ◌>>=◌, ◌>>◌,
}
use belt_pp.Queue.{Queue, valid_index, at, put}
use belt_pp.Sockets.Slots.{
  Cursor, behind, seek, rebuild, erase_empty, drain, first_queue, widen, next_id, push_last,
}
use belt_pp.Sockets.Poll.{Epoll, PollMaster, Task, proceed, poll_add, poll_remove}

-- `m_pitem` is the identity of an `event_item`, 0 for the null pointer.
pub record EventSlot : Type 0 where
  pub closed : Bool
  pub item_id : ℕ
  pub item : ℕ

abbrev pub blank_slot : EventSlot
blank_slot = record { closed = false; item_id = 0; item = 0 }

abbrev pub slot_closed : EventSlot → Bool
slot_closed s = s.closed

-- `m_ids`, `m_poll_master` and `sync_eh_ids`.
pub record Events (K : Type 0) : Type 0 where
  pub ids : List (Queue EventSlot)
  pub poll : PollMaster K
  pub sync_ids : List ℕ

-- The loop of `add` that goes back from the last queue to the one with the id, or to the first.
unfoldable pub seek_last {ℓ} : {A : Type ℓ} → (Queue A → Bool) → List (Queue A) → Option (Cursor A)
seek_last test [] = none
seek_last test (q ∷ qs) = elim (seek_last test qs) [
  | some c ↦ behind q (some c)
  | none ↦ if test q then some (record { before = []; here = q; after = qs }) else none
]

unfoldable pub seek_back {ℓ} : {A : Type ℓ} → (Queue A → Bool) → List (Queue A) → Option (Cursor A)
seek_back test [] = none
seek_back test (q ∷ qs) = elim (seek_last test qs) [
  | some c ↦ behind q (some c)
  | none ↦ some (record { before = []; here = q; after = qs })
]

-- Where the new slot goes, with the id: `slot_id` again, or the next one, in a list with room.
unfoldable pub claim : Bool → ℕ → List (Queue EventSlot) → Result (List (Queue EventSlot) × ℕ)
claim reuse_slot slot_id ids = do
  ids' ← first_queue blank_slot 16 ids
  let next = (do ids'' ← widen blank_slot ids'; ok (ids'', next_id ids''))
  (if reuse_slot then ok (ids', slot_id) else next)

-- The write of the slot, through `operator []` or by `push`.
unfoldable pub place :
    Bool → ℕ → EventSlot → List (Queue EventSlot) → Result (List (Queue EventSlot))
place reuse_slot id slot ids =
    if reuse_slot
    then elim (seek_back (λ q. valid_index q id) ids) [
      | none ↦ err out_of_range
      | some c ↦ do q ← put c.here id slot; ok (rebuild c q)
    ]
    else push_last blank_slot slot ids

-- The slot that `wait` finds for an id.
unfoldable pub slot_of : ℕ → List (Queue EventSlot) → Result (Option EventSlot)
slot_of id ids = elim (seek (λ q. valid_index q id) ids) [
  | none ↦ ok none
  | some c ↦ do slot ← at c.here id; ok (some slot)
]

-- Membership in an `unordered_set` of ids.
unfoldable pub contains : ℕ → List ℕ → Bool
contains id [] = false
contains id (j ∷ js) = let rest = contains id js in if id == j then true else rest

-- The slot of an id that is not closed, closed in place.
unfoldable pub close_slot : Cursor EventSlot → ℕ → Result (Queue EventSlot)
close_slot c id = do
  slot ← at c.here id
  require (not slot.closed) runtime_error
  put c.here id (record slot { closed = true })

-- The queue with its closed slots popped, unless the slot is kept for another use.
unfoldable pub release : Bool → Queue EventSlot → Result (Queue EventSlot)
release keep_slot q = if keep_slot then ok q else drain slot_closed q

module _ {K : Type 0} (epoll : Epoll K) where
  -- `add`: the poll master first, and its `remove` again when the slot is not written.
  unfoldable pub add : ℕ → Option ℕ → ℕ → Task → Bool → ℕ → Events K → Events K × Result ℕ
  add item handle item_id action reuse_slot slot_id e = elim (claim reuse_slot slot_id e.ids) [
    | err f ↦ (e, err f)
    | ok (ids, id) ↦
        let slot : EventSlot = record { closed = false; item_id = item_id; item = item } in
        proceed (poll_add epoll handle id action e.poll)
          (λ poll f. (record e { ids = ids; poll = poll }, err f))
          (λ poll _. elim (place reuse_slot id slot ids) [
            | err f ↦
                (record e { ids = ids; poll = (poll_remove epoll handle false poll).0 }, err f)
            | ok ids' ↦ (record e { ids = ids'; poll = poll }, ok id)
          ])
  ]

  unfoldable pub remove : Option ℕ → ℕ → Bool → Bool → Events K → Events K × Result (Unit {0})
  remove handle id already_closed keep_slot e = elim (seek (λ q. valid_index q id) e.ids) [
    | none ↦ (e, err runtime_error)
    | some c ↦ elim (close_slot c id) [
      | err f ↦ (e, err f)
      | ok q ↦
          proceed (poll_remove epoll handle already_closed e.poll)
            (λ poll f. (record e { ids = rebuild c q; poll = poll }, err f))
            (λ poll _. elim (release keep_slot q) [
              | err f ↦ (record e { ids = rebuild c q; poll = poll }, err f)
              | ok q' ↦ (record e { ids = erase_empty c q'; poll = poll }, ok tt)
            ])
    ]
  ]

module _ {K : Type 0} where
  -- `set_sync_result`; an `unordered_set` has an id once.
  unfoldable pub set_sync_result : ℕ → Events K → Events K
  set_sync_result id e =
      if contains id e.sync_ids then e else record e { sync_ids = id ∷ e.sync_ids }
