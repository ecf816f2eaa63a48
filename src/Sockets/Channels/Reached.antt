-- ===== src/Sockets/Channels/Reached.antt =====
-- Every state that a socket and the event handler come to, while other sockets use the same event
-- handler.
use belt_pp.Base.{
  ℕ, suc, ◌^◌, ◌<◌, ◌≡◌, ◌≢◌, refl, sym, subst, arith, List, [], Option, none, some, Bool, false,
  ok, err, terminate,
}
use belt_pp.Base.Words.{size_mod}
use belt_pp.Sockets.Slots.Keeps.{Keeps, Keeps-nil}
use belt_pp.Sockets.Poll.{Epoll, PollMaster, Task, receive_task, poll_add, poll_remove}
use belt_pp.Sockets.Events.{EventSlot, blank_slot, Events, add, remove, slot_of}
use belt_pp.Sockets.Channels.{
  Channel, Sockets, Net, PeerType, IpAddress, blank_channel, get_channel_safe, add_channel,
  delete_channel, connect_success,
}
use belt_pp.Sockets.Channels.Sound.{
  Sound, opened-Sound, deleted-Sound, connection-Sound, other_added-Sound, other_removed-Sound,
}

module _ {K S : Type 0} (no_session : S) (epoll : Epoll K) (net : Net K) (self : ℕ) where
  -- The states after so many calls. An `add_channel` that ends the program has none behind it, and
  -- a connection comes about when the poll master and `get_socket_bundle` do not throw. Another
  -- item adds its slots and removes those that name it.
  pub data Reached : ℕ → Sockets K S → Type 0 where
    started : (e : Events K) → e.ids ≡ [] → Reached 0 (record { events = e; channels = [] })
    opened :
        {k : ℕ} {s : Sockets K S}
        → Reached k s
        → (handle : Option ℕ) (kind : PeerType) (attempts : ℕ) (addr : List ℕ) (address : IpAddress)
        → (add_channel no_session epoll net self handle kind attempts addr address s).1
          ≢ err terminate
        → Reached
            (suc k)
            (add_channel no_session epoll net self handle kind attempts addr address s).0
    deleted :
        {k : ℕ} {s : Sockets K S}
        → Reached k s
        → (id : ℕ) → id < size_mod
        → Reached (suc k) (delete_channel no_session epoll net id s).0
    connection :
        {k : ℕ} {s : Sockets K S}
        → Reached k s
        → (id : ℕ) (c : Channel S) (network : IpAddress) (p p' : PollMaster K) → id < size_mod
        → get_channel_safe id s ≡ ok (some c)
        → poll_remove epoll c.descriptor false s.events.poll ≡ (p, ok tt)
        → poll_add epoll c.descriptor c.eh_id receive_task p ≡ (p', ok tt)
        → net.socket_bundle p'.kernel c.descriptor ≡ ok network
        → Reached (suc k) (connect_success no_session epoll net self id s).0
    other_added :
        {k : ℕ} {s : Sockets K S}
        → Reached k s
        → (item : ℕ) (handle : Option ℕ) (item_id : ℕ) (action : Task) → item ≢ self
        → Reached
            (suc k)
            (record s { events = (add epoll item handle item_id action false 0 s.events).0 })
    other_removed :
        {k : ℕ} {s : Sockets K S}
        → Reached k s
        → (handle : Option ℕ) (id : ℕ) (already_closed : Bool) (slot : EventSlot) → id < size_mod
        → slot_of id s.events.ids ≡ ok (some slot)
        → slot.closed ≡ false
        → slot.item ≢ self
        → Reached
            (suc k)
            (record s { events = (remove epoll handle id already_closed false s.events).0 })

  -- Whatever fewer than 2 ^ 60 calls led to a state, it keeps a table of channels and one of slots,
  -- with no more ids given than there were calls, in which every open channel has an open slot that
  -- names the socket and the id of the channel, and every open slot that names the socket has such a
  -- channel. The calls are add_channel where it does not end the program, delete_channel, and add and
  -- remove by other event items, whether or not the calls of the operating system behind them throw,
  -- and the connection branch of receive where those behind it succeed.
  pub Reached-Sound :
      (k : ℕ) (s : Sockets K S) → Reached k s → k < 2 ^ 60 → Sound no_session epoll net self k s
  Reached-Sound k s (started e none_held) small = record {
    next = 0;
    next_slot = 0;
    open_channels = λ i. none;
    open_slots = λ j. none;
    state = record {
      channels = λ i. none;
      slots = λ j. none;
      keeps_channels = Keeps-nil (blank_channel no_session);
      keeps_slots =
          subst (λ ids. Keeps blank_slot ids 0 (λ j. none)) (sym none_held) (Keeps-nil blank_slot);
      open_channels = λ i. refl;
      open_slots = λ j. refl;
      links = record { onward = λ i c e. absurd (cc); back = λ j slot e own. absurd (cc) };
    };
    few = omega arith;
    few_slots = omega arith;
  }
  Reached-Sound k s (opened {k = j} {s = before} r handle kind attempts addr address alive) small =
      opened-Sound no_session epoll net self handle kind attempts addr address (omega arith) alive
        (Reached-Sound j before r (omega arith))
  Reached-Sound k s (deleted {k = j} {s = before} r id word) small =
      deleted-Sound no_session epoll net self id (omega arith) word
        (Reached-Sound j before r (omega arith))
  Reached-Sound k s
        (connection {k = j} {s = before} r id c network p p' word found taken_back given got)
        small =
      connection-Sound no_session epoll net self id c network p p' (omega arith) word found
        taken_back given got (Reached-Sound j before r (omega arith))
  Reached-Sound k s (other_added {k = j} {s = before} r item handle item_id action other) small =
      other_added-Sound no_session epoll net self item handle item_id action (omega arith) other
        (Reached-Sound j before r (omega arith))
  Reached-Sound k s
        (other_removed {k = j} {s = before} r handle id already_closed slot word found live other)
        small =
      other_removed-Sound no_session epoll net self handle id already_closed slot (omega arith) word
        found live other (Reached-Sound j before r (omega arith))
