-- ===== src/Sockets/Channels/Delete.antt =====
-- `delete_channel`.
use belt_pp.Base.{
  ℕ, ◌^◌, ◌<◌, ◌≡◌, refl, ap, ◌∙◌, arith, Option, none, some, Bool, true, false, not, ok, err,
  runtime_error, if◌then◌else◌,
}
use belt_pp.Base.Words.{size_mod}
use belt_pp.Queue.{Queue, at, put}
use belt_pp.Sockets.Slots.{Cursor, seek, erase_empty, drain, open_at}
use belt_pp.Sockets.Slots.Seek.{is_open, open-Asks}
use belt_pp.Sockets.Slots.Drain.{open_of}
use belt_pp.Sockets.Slots.Keeps.{write}
use belt_pp.Sockets.Slots.Write.{open_write_closed, open_write_gone}
use belt_pp.Sockets.Slots.Split.{seek-Split, seek-none, drain-Split, erase_empty-Keeps}
use belt_pp.Sockets.Poll.{Epoll, poll_remove}
use belt_pp.Sockets.Events.{EventSlot, slot_closed, Events, remove}
use belt_pp.Sockets.Events.Tables.{below_next, remove_lem}
use belt_pp.Sockets.Channels.{
  Channel, Sockets, Net, blank_channel, channel_closed, kernel_of, with_kernel, reset_handle, shut,
  delete_channel,
}
use belt_pp.Sockets.Channels.Links.{State, Links-drop, slot_for, open_some}

module _ {K S : Type 0} (no_session : S) (epoll : Epoll K) (net : Net K) (s : Sockets K S) where
  delete_missing :
      (id : ℕ)
      → seek (open_at channel_closed id) s.channels ≡ none
      → delete_channel no_session epoll net id s ≡ (s, ok tt)
  unfolding delete_channel
  delete_missing id missed = rw (delete_channel, missed) refl

  delete_run :
      (id : ℕ) (c : Cursor (Channel S)) (channel : Channel S) (q q' : Queue (Channel S))
      → (e' : Events K) → seek (open_at channel_closed id) s.channels ≡ some c
      → at c.here id ≡ ok channel
      → put c.here id (shut no_session channel) ≡ ok q
      → remove epoll none channel.eh_id true false
          (with_kernel (reset_handle net channel.descriptor (kernel_of s)).0 s.events)
        ≡ (e', ok tt)
      → drain channel_closed q ≡ ok q'
      → delete_channel no_session epoll net id s ≡ (
        record { events = e'; channels = erase_empty c q' },
        if (reset_handle net channel.descriptor (kernel_of s)).1 then ok tt else err runtime_error,
      )
  unfolding delete_channel
  delete_run id c channel q q' e' found read stored removed drained =
      rw (delete_channel, found, read, stored, removed, drained) refl

  module _ (self n m : ℕ) (F : ℕ → Option (Channel S)) (G : ℕ → Option EventSlot) where
    -- Deleting an id without an open channel changes nothing.
    pub delete_nothing :
        (id : ℕ)
        → State no_session self s n m F G
        → n < 2 ^ 61
        → id < size_mod
        → F id ≡ none
        → delete_channel no_session epoll net id s ≡ (s, ok tt)
    delete_nothing id st small word gone = delete_missing id (
        seek-none (blank_channel no_session) id (is_open channel_closed) (open_at channel_closed id)
          (open-Asks (blank_channel no_session) channel_closed id word) refl st.keeps_channels small
          (shut_now (st.channels id) (st.open_channels id ∙ gone)))
      where
        shut_now :
            (o : Option (Channel S))
            → open_of channel_closed o ≡ none
            → is_open channel_closed o ≡ false
        shut_now none e = refl
        shut_now (some c) e = go c.closed e
          where
            go : (t : Bool) → (if t then none else some c) ≡ none → not t ≡ false
            go true e = refl
            go false e = absurd (cc)

    -- In a state that keeps its tables, with fewer than 2 ^ 61 ids given, deleting an open channel
    -- takes it and its slot away and no other open one of either, and throws only when close
    -- failed.
    pub delete_open :
        (id : ℕ) (c : Channel S)
        → State no_session self s n m F G
        → n < 2 ^ 61
        → m < 2 ^ 61
        → F id ≡ some c
        → (s' : Sockets K S) × (delete_channel no_session epoll net id s ≡ (
          s',
          if (reset_handle net c.descriptor (kernel_of s)).1 then ok tt else err runtime_error,
        ))
          × State no_session self s' n m (write F id none) (write G c.eh_id none)
    unfolding poll_remove
    delete_open id c st small small' there =
        let blank = blank_channel no_session in
        let (present, live) =
          open_some channel_closed (st.channels id) c (st.open_channels id ∙ there) in
        let lt = below_next blank id st.keeps_channels present in
        let word : id < size_mod = omega arith in
        let (cur, found, read, written) =
          seek-Split blank id c (is_open channel_closed) (open_at channel_closed id)
            (open-Asks blank channel_closed id word) refl st.keeps_channels small word present
            (ap not live) in
        let (q, stored, split) = written (shut no_session c) in
        let (q', drained, f', split', same) = drain-Split blank channel_closed split small in
        let (slot_there, slot_live) =
          open_some slot_closed (st.slots c.eh_id) (slot_for self id)
            (st.open_slots c.eh_id ∙ st.links.onward id c there) in
        let e : Events K = with_kernel (reset_handle net c.descriptor (kernel_of s)).0 s.events in
        let (e', removed, g', kept, same', _) =
          remove_lem epoll e m st.slots none c.eh_id true false (slot_for self id) st.keeps_slots
            small' slot_there slot_live in
        (
          record { events = e'; channels = erase_empty cur q' },
          delete_run id cur c q q' e' found read stored removed drained,
          record {
            channels = f';
            slots = g';
            keeps_channels = erase_empty-Keeps blank split';
            keeps_slots = kept;
            open_channels = λ i.
                same i
                ∙ open_write_closed channel_closed st.channels F st.open_channels id
                    (shut no_session c) i refl;
            open_slots =
                λ j. same' j ∙ open_write_gone slot_closed st.slots G st.open_slots c.eh_id j;
            links = Links-drop self F G id c st.links there;
          },
        )
