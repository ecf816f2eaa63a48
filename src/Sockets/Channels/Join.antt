-- ===== src/Sockets/Channels/Join.antt =====
-- `receive` at a connection that has come about.
use belt_pp.Base.{ℕ, ◌^◌, ◌<◌, ◌≡◌, refl, ap, subst, ◌∙◌, arith, Option, some, true, false, not, ok}
use belt_pp.Base.Words.{size_mod}
use belt_pp.Queue.{Queue, at, put}
use belt_pp.Sockets.Slots.{Cursor, seek, rebuild, open_at}
use belt_pp.Sockets.Slots.Seek.{is_open, open-Asks}
use belt_pp.Sockets.Slots.Drain.{open_of}
use belt_pp.Sockets.Slots.Keeps.{write}
use belt_pp.Sockets.Slots.Split.{seek-Split, rebuild-Keeps}
use belt_pp.Sockets.Slots.Write.{write_here, write_again, open_write}
use belt_pp.Sockets.Poll.{Epoll, PollMaster, receive_task, poll_add, poll_remove}
use belt_pp.Sockets.Events.{EventSlot, slot_closed, Events, add, remove}
use belt_pp.Sockets.Events.Tables.{below_next, Removed, remove_lem}
use belt_pp.Sockets.Events.Reuse.{Reused, reuse_lem}
use belt_pp.Sockets.Channels.{
  Channel, Sockets, Net, IpAddress, blank_channel, channel_closed, connect_success,
}
use belt_pp.Sockets.Channels.Links.{State, Links-update, slot_for, open_some}

module _ {K S : Type 0} (no_session : S) (epoll : Epoll K) (net : Net K) (s : Sockets K S)
    (self : ℕ) where
  -- The channel of a connection.
  abbrev pub joined : Channel S → IpAddress → Channel S
  joined c network = record c { attempts = 0; bundle_from_network = network }

  connect_success_run :
      (id : ℕ) (c : Cursor (Channel S)) (channel : Channel S) (q : Queue (Channel S))
      → (e e' : Events K) (network : IpAddress)
      → seek (open_at channel_closed id) s.channels ≡ some c
      → at c.here id ≡ ok channel
      → remove epoll channel.descriptor channel.eh_id false true s.events ≡ (e, ok tt)
      → add epoll self channel.descriptor id receive_task true channel.eh_id e
        ≡ (e', ok channel.eh_id)
      → net.socket_bundle e'.poll.kernel channel.descriptor ≡ ok network
      → put c.here id (joined channel network) ≡ ok q
      → connect_success no_session epoll net self id s
        ≡ (record { events = e'; channels = rebuild c q }, ok tt)
  unfolding connect_success
  connect_success_run id c channel q e e' network found read removed added got stored =
      rw (connect_success, found, read, removed, added, got, stored) refl

  module _ (n m : ℕ) (F : ℕ → Option (Channel S)) (G : ℕ → Option EventSlot) where
    -- In a state that keeps its tables, with fewer than 2 ^ 61 ids given, when the poll master
    -- gives the descriptor of an open channel back and takes it again, and the addresses are read,
    -- the channel keeps its id and its slot, counts no attempts and has the addresses.
    pub connect_success_lem :
        (id : ℕ) (c : Channel S) (network : IpAddress) (p p' : PollMaster K)
        → State no_session self s n m F G
        → n < 2 ^ 61
        → m < 2 ^ 61
        → F id ≡ some c
        → poll_remove epoll c.descriptor false s.events.poll ≡ (p, ok tt)
        → poll_add epoll c.descriptor c.eh_id receive_task p ≡ (p', ok tt)
        → net.socket_bundle p'.kernel c.descriptor ≡ ok network
        → (s' : Sockets K S) × (connect_success no_session epoll net self id s ≡ (s', ok tt))
          × State no_session self s' n m (write F id (some (joined c network))) G
    connect_success_lem id c network p p' st small small' there taken_back given got =
        let blank = blank_channel no_session in
        let (present, live) =
          open_some channel_closed (st.channels id) c (st.open_channels id ∙ there) in
        let lt = below_next blank id st.keeps_channels present in
        let word : id < size_mod = omega arith in
        let (cur, found, read, written) =
          seek-Split blank id c (is_open channel_closed) (open_at channel_closed id)
            (open-Asks blank channel_closed id word) refl st.keeps_channels small word present
            (ap not live) in
        let (q, stored, split) = written (joined c network) in
        let (slot_there, slot_live) =
          open_some slot_closed (st.slots c.eh_id) (slot_for self id)
            (st.open_slots c.eh_id ∙ st.links.onward id c there) in
        let removed : Removed epoll s.events m st.slots c.eh_id (slot_for self id) true (p, ok tt)
            (remove epoll c.descriptor c.eh_id false true s.events) =
          subst
            (λ x.
              Removed epoll s.events m st.slots c.eh_id (slot_for self id) true x
                (remove epoll c.descriptor c.eh_id false true s.events))
            taken_back
            (remove_lem epoll s.events m st.slots c.descriptor c.eh_id false true (slot_for self id)
              st.keeps_slots small' slot_there slot_live) in
        let (e, run, kept, polled) = removed in
        let closed : EventSlot = record { closed = true; item_id = id; item = self } in
        let g' = write st.slots c.eh_id (some closed) in
        let given' : poll_add epoll c.descriptor c.eh_id receive_task e.poll ≡ (p', ok tt) =
          ap (poll_add epoll c.descriptor c.eh_id receive_task) polled ∙ given in
        let reused : Reused epoll e m g' c.eh_id (slot_for self id) (p', ok tt)
            (add epoll self c.descriptor id receive_task true c.eh_id e) =
          subst
            (λ x.
              Reused epoll e m g' c.eh_id (slot_for self id) x
                (add epoll self c.descriptor id receive_task true c.eh_id e))
            given'
            (reuse_lem epoll e m g' self c.descriptor id receive_task c.eh_id closed kept small'
              (write_here st.slots c.eh_id (some closed))) in
        let (e', run', kept', polled') = reused in
        (
          record { events = e'; channels = rebuild cur q },
          connect_success_run id cur c q e e' network found read run run'
              (ap (λ (x : PollMaster K). net.socket_bundle x.kernel c.descriptor) polled' ∙ got)
              stored,
          record {
            channels = write st.channels id (some (joined c network));
            slots = write g' c.eh_id (some (slot_for self id));
            keeps_channels = rebuild-Keeps blank split;
            keeps_slots = kept';
            open_channels = λ i.
                open_write channel_closed st.channels F st.open_channels id (joined c network) i
                  live;
            open_slots = λ j.
                ap (open_of slot_closed)
                  (write_again st.slots c.eh_id (slot_for self id) closed j slot_there)
                ∙ st.open_slots j;
            links = Links-update self F G id c (joined c network) st.links there refl;
          },
        )
