-- ===== src/Sockets/Events/Reuse.antt =====
-- `add` with `reuse_slot`, and the calls of `remove` that name no open slot.
use belt_pp.Base.{
  ℕ, ◌^◌, ◌<◌, ◌≡◌, refl, sym, ap, subst, ◌∙◌, arith, List, [], ◌∷◌, Option, none, some, Bool, true,
  false, Result, ok, err, runtime_error, if◌then◌else◌,
}
use belt_pp.Base.Words.{size_mod}
use belt_pp.Queue.{Queue, valid_index, at, put}
use belt_pp.Queue.Laws.{is_some}
use belt_pp.Queue.Model.{lookup_from}
use belt_pp.Sockets.Slots.{Cursor, behind, seek, rebuild, first_queue}
use belt_pp.Sockets.Slots.Held.{Segment, ends, top, Held, Held-le_top, lookup_inside, look_below}
use belt_pp.Sockets.Slots.Seek.{valid-Asks, seek_there, seek_past, seek_miss}
use belt_pp.Sockets.Slots.Drain.{open_of}
use belt_pp.Sockets.Slots.Keeps.{Keeps, write}
use belt_pp.Sockets.Slots.Split.{seek-Split, seek-none, rebuild-Keeps}
use belt_pp.Sockets.Poll.{Epoll, PollMaster, Task, proceed, poll_add}
use belt_pp.Sockets.Events.{
  EventSlot, blank_slot, slot_closed, Events, seek_last, seek_back, claim, place, add, close_slot,
  remove,
}
use belt_pp.Sockets.Events.Tables.{below_next}

module _ {ℓ} {A : Type ℓ} (blank : A) (i : ℕ) (word : i < size_mod) where
  abbrev test : Queue A → Bool
  test q = valid_index q i

  abbrev back_from : Queue A → List (Queue A) → Option (Cursor A) → Option (Cursor A)
  back_from q qs (some c) = behind q (some c)
  back_from q qs none = if test q then some (record { before = []; here = q; after = qs }) else none

  seek_last-cons :
      (q : Queue A) (qs : List (Queue A)) (o : Option (Cursor A))
      → seek_last test qs ≡ o
      → seek_last test (q ∷ qs) ≡ back_from q qs o
  unfolding seek_last
  seek_last-cons q qs none e = rw (e, seek_last) refl
  seek_last-cons q qs (some c) e = rw (e, seek_last) refl

  past_none :
      (q : Queue A) (qs : List (Queue A)) (o : Option (Cursor A))
      → test q ≡ false
      → back_from q qs o ≡ behind q o
  past_none q qs none e = rw e refl
  past_none q qs (some c) e = refl

  both_nil : seek_last test [] ≡ seek test []
  unfolding seek_last seek
  both_nil = refl

  -- The ranges of the queues are apart, so that the last one with the id is the first.
  seek_last_lem :
      (lo : ℕ) (qs : List (Queue A)) (ss : List (Segment A))
      → Held blank lo qs ss
      → top lo ss < 2 ^ 62
      → seek_last test qs ≡ seek test qs
  seek_last_lem lo [] ss h small = both_nil
  seek_last_lem lo (q ∷ qs) [] h small = absurd h.1
  seek_last_lem lo (q ∷ qs) (s ∷ ss) (holds, above, room, rest) small =
      let bound = Held-le_top blank (ends s) qs ss rest in
      let asks = valid-Asks blank i word in
      let here = asks q s.base s.items holds (omega arith) in
      seek_last-cons q qs (seek test qs) (seek_last_lem (ends s) qs ss rest small)
      ∙ go (lookup_from s.base s.items i) refl here
    where
      go :
          (o : Option A)
          → lookup_from s.base s.items i ≡ o
          → test q ≡ is_some o
          → back_from q qs (seek test qs) ≡ seek test (q ∷ qs)
      go none e here =
          past_none q qs (seek test qs) here
          ∙ sym (seek_past blank i is_some test (valid-Asks blank i word) refl q qs here)
      go (some a) e here =
          let inside = lookup_inside s.base s.items i a e in
          let gone = look_below blank (ends s) qs ss i rest inside.1 in
          let missed =
            seek_miss blank i is_some test (valid-Asks blank i word) refl (ends s) qs ss rest small
              (ap is_some gone) in
          ap (back_from q qs) missed
          ∙ ap (λ t. if t then some (record { before = []; here = q; after = qs }) else none) here
          ∙ sym (seek_there blank i is_some test (valid-Asks blank i word) refl q qs here)

  seek_back_lem :
      (qs : List (Queue A)) (c : Cursor A) → seek_last test qs ≡ some c → seek_back test qs ≡ some c
  unfolding seek_last seek_back
  seek_back_lem [] c e = absurd (cc)
  seek_back_lem (q ∷ qs) c e = go (seek_last test qs) (test q) e
    where
      go :
          (o : Option (Cursor A)) (t : Bool)
          → (let r : Option (Cursor A) = elim o [
            | some c ↦ behind q (some c)
            | none ↦ if t then some (record { before = []; here = q; after = qs }) else none
          ] in
              r ≡ some c)
          → (let r : Option (Cursor A) = elim o [
            | some c ↦ behind q (some c)
            | none ↦ some (record { before = []; here = q; after = qs })
          ] in
              r ≡ some c)
      go (some d) t e = e
      go none true e = e
      go none false e = absurd (cc)

claim_again :
    (id : ℕ) (ids : List (Queue EventSlot)) (c : Cursor EventSlot)
    → seek (λ q. valid_index q id) ids ≡ some c
    → claim true id ids ≡ ok (ids, id)
unfolding claim first_queue seek
claim_again id [] c found = absurd (cc)
claim_again id (q ∷ qs) c found = refl

place_again :
    (id : ℕ) (slot : EventSlot) (ids : List (Queue EventSlot)) (c : Cursor EventSlot)
    → (q : Queue EventSlot) → seek_back (λ q. valid_index q id) ids ≡ some c
    → put c.here id slot ≡ ok q
    → place true id slot ids ≡ ok (rebuild c q)
unfolding place
place_again id slot ids c q found stored = rw (place, found, stored) refl

module _ {K : Type 0} (epoll : Epoll K) (e : Events K) (n : ℕ) (g : ℕ → Option EventSlot) where
  abbrev pub Reused :
      ℕ → EventSlot → PollMaster K × Result (Unit {0}) → Events K × Result ℕ → Type 0
  Reused id slot (p, ok u) r =
      (e' : Events K) × (r ≡ (e', ok id))
      × Keeps blank_slot e'.ids n (write g id (some slot))
      × (e'.poll ≡ p)
  Reused id slot (p, err f) r = r ≡ (record e { poll = p }, err f)

  add_again :
      (item : ℕ) (handle : Option ℕ) (item_id : ℕ) (action : Task) (id : ℕ)
      (ids' : List (Queue EventSlot))
      → claim true id e.ids ≡ ok (e.ids, id)
      → place true id (record { closed = false; item_id = item_id; item = item }) e.ids ≡ ok ids'
      → add epoll item handle item_id action true id e
        ≡ proceed
            (poll_add epoll handle id action e.poll)
            (λ poll f. (record e { poll = poll }, err f))
            (λ poll _. (record e { ids = ids'; poll = poll }, ok id))
  unfolding add
  add_again item handle item_id action id ids' claimed placed = rw (add, claimed, placed) refl

  -- `add` with `reuse_slot` writes the slot of the id, whatever it held, and no other.
  pub reuse_lem :
      (item : ℕ) (handle : Option ℕ) (item_id : ℕ) (action : Task) (id : ℕ) (old : EventSlot)
      → Keeps blank_slot e.ids n g
      → n < 2 ^ 61
      → g id ≡ some old
      → Reused id
          (record { closed = false; item_id = item_id; item = item })
          (poll_add epoll handle id action e.poll)
          (add epoll item handle item_id action true id e)
  reuse_lem item handle item_id action id old k small there =
      let slot : EventSlot = record { closed = false; item_id = item_id; item = item } in
      let lt = below_next blank_slot id k there in
      let word : id < size_mod = omega arith in
      let (c, found, _, written) =
        seek-Split blank_slot id old is_some (λ q. valid_index q id) (valid-Asks blank_slot id word)
          refl k small word there refl in
      let (q, stored, split) = written slot in
      let t = k.same_top in
      let back =
        seek_back_lem blank_slot id word e.ids c
          (seek_last_lem blank_slot id word 0 e.ids k.segments k.held (omega arith) ∙ found) in
      subst (Reused id slot (poll_add epoll handle id action e.poll))
        (sym (
          add_again item handle item_id action id (rebuild c q) (claim_again id e.ids c found)
            (place_again id slot e.ids c q back stored)))
        (go slot (rebuild c q) (rebuild-Keeps blank_slot split)
          (poll_add epoll handle id action e.poll))
    where
      go :
          (slot : EventSlot) (ids' : List (Queue EventSlot))
          → Keeps blank_slot ids' n (write g id (some slot))
          → (polled : PollMaster K × Result (Unit {0}))
          → Reused id slot polled (
              proceed polled
                (λ poll f. (record e { poll = poll }, err f))
                (λ poll _. (record e { ids = ids'; poll = poll }, ok id)))
      go slot ids' kept (p, ok u) = (record e { ids = ids'; poll = p }, refl, kept, refl)
      go slot ids' kept (p, err f) = refl

  remove_missing :
      (handle : Option ℕ) (id : ℕ) (already_closed keep_slot : Bool)
      → seek (λ q. valid_index q id) e.ids ≡ none
      → remove epoll handle id already_closed keep_slot e ≡ (e, err runtime_error)
  unfolding remove
  remove_missing handle id already_closed keep_slot missed = rw (remove, missed) refl

  remove_closed :
      (handle : Option ℕ) (id : ℕ) (already_closed keep_slot : Bool) (c : Cursor EventSlot)
      → (slot : EventSlot) → seek (λ q. valid_index q id) e.ids ≡ some c
      → at c.here id ≡ ok slot
      → slot.closed ≡ true
      → remove epoll handle id already_closed keep_slot e ≡ (e, err runtime_error)
  unfolding remove close_slot
  remove_closed handle id already_closed keep_slot c slot found read shut =
      rw (remove, found, close_slot, read, shut) refl

  -- `remove` of an id without an open slot throws, and nothing changes.
  pub remove_refused :
      (handle : Option ℕ) (id : ℕ) (already_closed keep_slot : Bool)
      → Keeps blank_slot e.ids n g
      → n < 2 ^ 61
      → id < size_mod
      → open_of slot_closed (g id) ≡ none
      → remove epoll handle id already_closed keep_slot e ≡ (e, err runtime_error)
  remove_refused handle id already_closed keep_slot k small word shut = go (g id) refl shut
    where
      go :
          (o : Option EventSlot)
          → g id ≡ o
          → open_of slot_closed o ≡ none
          → remove epoll handle id already_closed keep_slot e ≡ (e, err runtime_error)
      go none there shut = remove_missing handle id already_closed keep_slot (
          seek-none blank_slot id is_some (λ q. valid_index q id) (valid-Asks blank_slot id word)
            refl k small (ap is_some there))
      go (some slot) there shut =
          let (c, found, read, _) =
            seek-Split blank_slot id slot is_some (λ q. valid_index q id)
              (valid-Asks blank_slot id word) refl k small word there refl in
          remove_closed handle id already_closed keep_slot c slot found read
            (shut_slot slot.closed refl shut)
        where
          shut_slot :
              (t : Bool)
              → slot.closed ≡ t
              → (if t then none else some slot) ≡ none
              → slot.closed ≡ true
          shut_slot true e h = e
          shut_slot false e h = absurd (cc)
