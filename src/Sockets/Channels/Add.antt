-- ===== src/Sockets/Channels/Add.antt =====
-- `add_channel`.
use belt_pp.Base.{
  ℕ, suc, ◌^◌, ◌≤◌, ◌<◌, ◌≡◌, ◌⊎◌, inl, inr, refl, sym, ap, subst, ◌∙◌, arith, List, ◌∷◌, Option,
  none, some, Bool, true, false, Result, ok, err, Fault, terminate, if◌then◌else◌,
}
use belt_pp.Queue.{Queue}
use belt_pp.Sockets.Slots.{make_room, next_id, push_last}
use belt_pp.Sockets.Slots.Drain.{open_of}
use belt_pp.Sockets.Slots.Grow.{HasRoom}
use belt_pp.Sockets.Slots.Keeps.{Keeps, Keeps-beyond, write, make_room-Keeps, push_last-Keeps}
use belt_pp.Sockets.Slots.Write.{write_here, open_write, open_write_back}
use belt_pp.Sockets.Poll.{
  Epoll, PollMaster, Task, connect_task, remove_task, accept_task, receive_task, send_task,
  poll_add, poll_remove, proceed,
}
use belt_pp.Sockets.Events.{
  EventSlot, blank_slot, slot_closed, Events, add, remove, contains, set_sync_result,
}
use belt_pp.Sockets.Events.Tables.{Added, add_lem, Removed, remove_lem}
use belt_pp.Sockets.Channels.{
  Channel, Sockets, Net, PeerType, IpAddress, SyncResult, blank_channel, no_bytes, channel_closed,
  with_kernel, task_of, connecting, bundle_for, undo, add_channel,
}
use belt_pp.Sockets.Channels.Links.{State, Links, Links-join, slot_for}

synced : {K : Type 0} (id : ℕ) (e : Events K) → (set_sync_result id e).ids ≡ e.ids
unfolding set_sync_result
synced id e = go (contains id e.sync_ids)
  where
    go : (t : Bool) → (if t then e else record e { sync_ids = id ∷ e.sync_ids }).ids ≡ e.ids
    go true = refl
    go false = refl

-- `native::connect` leaves the slots.
connecting-ids :
    {K : Type 0} (net : Net K) (task : Task) (handle : Option ℕ) (eh_id : ℕ) (addr : List ℕ)
    → (e : Events K) → (connecting net task handle eh_id addr e).0.ids ≡ e.ids
unfolding connecting
connecting-ids {K} net connect_task handle eh_id addr e =
    let (k, sync) = net.connect e.poll.kernel handle addr in go (with_kernel k e) sync.is_set
  where
    go : (e : Events K) (t : Bool) → (if t then set_sync_result eh_id e else e).ids ≡ e.ids
    go e true = synced eh_id e
    go e false = refl
connecting-ids net remove_task handle eh_id addr e = refl
connecting-ids net accept_task handle eh_id addr e = refl
connecting-ids net receive_task handle eh_id addr e = refl
connecting-ids net send_task handle eh_id addr e = refl

module _ {K S : Type 0} (no_session : S) (epoll : Epoll K) (net : Net K) (s : Sockets K S)
    (self : ℕ) (handle : Option ℕ) (kind : PeerType) (attempts : ℕ) (addr : List ℕ)
    (address : IpAddress) where
  -- The state of the event handler behind `native::connect`, and what that call answered.
  abbrev pub connected : ℕ → Events K → Events K × SyncResult
  connected eh_id e = connecting net (task_of kind attempts) handle eh_id addr e

  abbrev pub new_channel : IpAddress → ℕ → SyncResult → Channel S
  new_channel network eh_id sync = record {
    closed = false;
    descriptor = handle;
    kind = kind;
    attempts = attempts;
    eh_id = eh_id;
    bundle = bundle_for (task_of kind attempts) address network;
    bundle_from_network = network;
    receive_stream = no_bytes;
    send_stream = no_bytes;
    special_data = no_session;
    sync = sync;
  }

  abbrev run : Sockets K S × Result (ℕ × IpAddress)
  run = add_channel no_session epoll net self handle kind attempts addr address s

  add_thrown :
      (chans : List (Queue (Channel S))) (e' : Events K) (f : Fault)
      → make_room (blank_channel no_session) 4 s.channels ≡ ok chans
      → add epoll self handle (next_id chans) (task_of kind attempts) false 0 s.events ≡ (e', err f)
      → run ≡ (record { events = e'; channels = chans }, err f)
  unfolding add_channel
  add_thrown chans e' f made added = rw (add_channel, made, added) refl

  add_undone :
      (chans : List (Queue (Channel S))) (e' : Events K) (eh_id : ℕ) (f : Fault)
      → make_room (blank_channel no_session) 4 s.channels ≡ ok chans
      → add epoll self handle (next_id chans) (task_of kind attempts) false 0 s.events
        ≡ (e', ok eh_id)
      → net.socket_bundle (connected eh_id e').0.poll.kernel handle ≡ err f
      → run
        ≡ undo epoll handle eh_id f (record { events = (connected eh_id e').0; channels = chans })
  unfolding add_channel
  add_undone chans e' eh_id f made added failed = rw (add_channel, made, added, failed) refl

  add_done :
      (chans chans' : List (Queue (Channel S))) (e' : Events K) (eh_id : ℕ) (network : IpAddress)
      → make_room (blank_channel no_session) 4 s.channels ≡ ok chans
      → add epoll self handle (next_id chans) (task_of kind attempts) false 0 s.events
        ≡ (e', ok eh_id)
      → net.socket_bundle (connected eh_id e').0.poll.kernel handle ≡ ok network
      → push_last
          (blank_channel no_session)
          (new_channel network eh_id (connected eh_id e').1)
          chans
        ≡ ok chans'
      → run ≡ (
        record { events = (connected eh_id e').0; channels = chans' },
        ok (next_id chans, bundle_for (task_of kind attempts) address network),
      )
  unfolding add_channel
  add_done chans chans' e' eh_id network made added read pushed =
      rw (add_channel, made, added, read, pushed) refl

  module _ (n m : ℕ) (F : ℕ → Option (Channel S)) (G : ℕ → Option EventSlot) where
    -- A new channel under the next id, with its slot.
    abbrev pub Opened : Sockets K S × Result (ℕ × IpAddress) → Type 0
    Opened r =
        (s' : Sockets K S) × (e : Events K) × (network : IpAddress) × (net.socket_bundle
            (connected m e).0.poll.kernel handle
          ≡ ok network)
        × (r ≡ (s', ok (n, bundle_for (task_of kind attempts) address network)))
        × State no_session self s' (suc n) (suc m)
            (write F n (some (new_channel network m (connected m e).1)))
            (write G m (some (slot_for self n)))

    -- An exception, of the poll master or of `get_socket_bundle`, with every table as it was.
    abbrev pub Refused : Sockets K S × Result (ℕ × IpAddress) → Type 0
    Refused r =
        (s' : Sockets K S) × (f : Fault) × (m' : ℕ) × (r ≡ (s', err f))
        × (m' ≤ suc m)
        × State no_session self s' n m' F G

    -- The end of the program, which the guard comes to when the poll master does not take the
    -- descriptor back.
    abbrev pub Ended : Sockets K S × Result (ℕ × IpAddress) → Type 0
    Ended r =
        (s' : Sockets K S) × (poll : PollMaster K) × (f : Fault) × ((poll_remove epoll handle false
            poll).1
          ≡ err f)
        × (r ≡ (s', err terminate))

    undone :
        (chans : List (Queue (Channel S))) (f : ℕ → Option (Channel S)) (g : ℕ → Option EventSlot)
        → (e : Events K) (fault : Fault) → Keeps (blank_channel no_session) chans n f
        → ((i : ℕ) → open_of channel_closed (f i) ≡ F i)
        → Keeps blank_slot e.ids (suc m) (write g m (some (slot_for self n)))
        → ((j : ℕ) → open_of slot_closed (g j) ≡ G j)
        → g m ≡ none
        → Links self F G
        → suc m < 2 ^ 61
        → Refused (undo epoll handle m fault (record { events = e; channels = chans }))
          ⊎ Ended (undo epoll handle m fault (record { events = e; channels = chans }))
    unfolding undo
    undone chans f g e fault keeps same_f slots same_g free links small =
        go (poll_remove epoll handle false e.poll) refl (
          remove_lem epoll e (suc m) (write g m (some (slot_for self n))) handle m false false
            (slot_for self n) slots small (write_here g m (some (slot_for self n))) refl)
      where
        left : Events K → Sockets K S
        left e' = record { events = e'; channels = chans }

        answer : Events K × Result (Unit {0}) → Sockets K S × Result (ℕ × IpAddress)
        answer r = proceed r (λ e' _. (left e', err terminate)) (λ e' _. (left e', err fault))

        go :
            (polled : PollMaster K × Result (Unit {0}))
            → poll_remove epoll handle false e.poll ≡ polled
            → Removed epoll e
                (suc m)
                (write g m (some (slot_for self n)))
                m
                (slot_for self n)
                false
                polled
                (remove epoll handle m false false e)
            → Refused (undo epoll handle m fault (left e))
              ⊎ Ended (undo epoll handle m fault (left e))
        go (p, err f') polled (e', run', _, _) =
            inr (left e', e.poll, f', ap (λ x. x.1) polled, ap answer run')
        go (p, ok u) polled (e', run', g', kept, same, _) = inl (
          left e',
          fault,
          suc m,
          ap answer run',
          omega arith,
          record {
            channels = f;
            slots = g';
            keeps_channels = keeps;
            keeps_slots = kept;
            open_channels = same_f;
            open_slots =
                λ j. same j ∙ open_write_back slot_closed g G same_g m (slot_for self n) j free;
            links = links;
          },
        )

    -- In a state that keeps its tables, with fewer than 2 ^ 61 - 1 ids given, add_channel puts an
    -- open channel under the next id, linked with a new slot of the event handler; or it throws,
    -- and the open channels and the open slots are as before; or the guard, when the poll master
    -- does not take the descriptor back, ends the program.
    pub add_channel_lem :
        State no_session self s n m F G
        → n < 2 ^ 61
        → suc m < 2 ^ 61
        → Opened run ⊎ (Refused run ⊎ Ended run)
    add_channel_lem st small small' =
        let blank = blank_channel no_session in
        let (chans, made, kept, room, next) =
          make_room-Keeps blank 4 (omega arith) (omega arith) st.keeps_channels small in
        go chans made kept room next (poll_add epoll handle m (task_of kind attempts) s.events.poll)
          (add_lem epoll s.events m st.slots self handle (next_id chans) (task_of kind attempts) 0
            st.keeps_slots (omega arith))
      where
        free : st.slots m ≡ none
        free = Keeps-beyond blank_slot m st.keeps_slots (omega arith)

        free_channel : F n ≡ none
        free_channel =
            sym (st.open_channels n)
            ∙ ap (open_of channel_closed)
                (Keeps-beyond (blank_channel no_session) n st.keeps_channels (omega arith))

        free_slot : G m ≡ none
        free_slot = sym (st.open_slots m) ∙ ap (open_of slot_closed) free

        go :
            (chans : List (Queue (Channel S)))
            → make_room (blank_channel no_session) 4 s.channels ≡ ok chans
            → Keeps (blank_channel no_session) chans n st.channels
            → HasRoom chans
            → next_id chans ≡ n
            → (polled : PollMaster K × Result (Unit {0}))
            → Added epoll s.events m st.slots
                (slot_for self (next_id chans))
                polled
                (add epoll self handle (next_id chans) (task_of kind attempts) false 0 s.events)
            → Opened run ⊎ (Refused run ⊎ Ended run)
        go chans made kept room next (p, err f) (e', added, slots, _) = inr (
            inl (
              record { events = e'; channels = chans },
              f,
              m,
              add_thrown chans e' f made added,
              omega arith,
              record {
                channels = st.channels;
                slots = st.slots;
                keeps_channels = kept;
                keeps_slots = slots;
                open_channels = st.open_channels;
                open_slots = st.open_slots;
                links = st.links;
              },
            ))
        go chans made kept room next (p, ok u) (e', added, slots, _) =
            let e2 = (connected m e').0 in
            let ids_same = connecting-ids net (task_of kind attempts) handle m addr e' in
            let slots' : Keeps blank_slot e2.ids (suc m)
                (write st.slots m (some (slot_for self n))) =
              subst
                (λ k. Keeps blank_slot e2.ids (suc m) (write st.slots m (some (slot_for self k))))
                next
                (subst
                  (λ ids.
                    Keeps blank_slot ids (suc m)
                      (write st.slots m (some (slot_for self (next_id chans)))))
                  (sym ids_same) slots) in
            read (net.socket_bundle e2.poll.kernel handle) refl slots'
          where
            read :
                (b : Result IpAddress)
                → net.socket_bundle (connected m e').0.poll.kernel handle ≡ b
                → Keeps blank_slot
                    (connected m e').0.ids
                    (suc m)
                    (write st.slots m (some (slot_for self n)))
                → Opened run ⊎ (Refused run ⊎ Ended run)
            read (err f) failed slots' = inr (
                subst (λ r. Refused r ⊎ Ended r) (sym (add_undone chans e' m f made added failed))
                  (undone chans st.channels st.slots (connected m e').0 f kept st.open_channels
                    slots' st.open_slots free st.links small'))
            read (ok network) got slots' =
                let channel = new_channel network m (connected m e').1 in
                let (chans', pushed, kept') =
                  push_last-Keeps (blank_channel no_session) channel kept room in
                inl (
                  record { events = (connected m e').0; channels = chans' },
                  e',
                  network,
                  got,
                  add_done chans chans' e' m network made added got pushed
                      ∙ ap
                          (λ k. (
                            record { events = (connected m e').0; channels = chans' },
                            ok (k, bundle_for (task_of kind attempts) address network),
                          ))
                          next,
                  record {
                    channels = write st.channels n (some channel);
                    slots = write st.slots m (some (slot_for self n));
                    keeps_channels = kept';
                    keeps_slots = slots';
                    open_channels = λ i.
                        open_write channel_closed st.channels F st.open_channels n channel i refl;
                    open_slots = λ j.
                        open_write slot_closed st.slots G st.open_slots m (slot_for self n) j refl;
                    links = Links-join self F G n channel st.links free_channel free_slot;
                  },
                )
