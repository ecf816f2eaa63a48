-- ===== src/Sockets/Channels/Sound.antt =====
-- What holds of a socket and the event handler after so many calls, and that each call keeps it.
use belt_pp.Base.{
  ℕ, suc, ◌^◌, ◌≤◌, ◌<◌, ◌≡◌, ◌≢◌, inl, inr, refl, sym, ap, subst, ◌∙◌, arith, List, Option, none,
  some, Bool, true, false, Result, ok, err, terminate, if◌then◌else◌,
}
use belt_pp.Base.Words.{size_mod}
use belt_pp.Sockets.Slots.Drain.{open_of}
use belt_pp.Sockets.Slots.Keeps.{Keeps, Keeps-beyond, write}
use belt_pp.Sockets.Slots.Write.{open_write, open_write_closed, open_write_gone}
use belt_pp.Sockets.Poll.{Epoll, PollMaster, Task, receive_task, poll_add, poll_remove}
use belt_pp.Sockets.Events.{EventSlot, blank_slot, slot_closed, Events, add, remove, slot_of}
use belt_pp.Sockets.Events.Tables.{Added, add_lem, Removed, remove_lem, slot_of_lem}
use belt_pp.Sockets.Channels.{
  Channel, Sockets, Net, PeerType, IpAddress, get_channel_safe, add_channel, delete_channel,
  connect_success,
}
use belt_pp.Sockets.Channels.Links.{State, Links, Links-other, Links-other_gone}
use belt_pp.Sockets.Channels.Add.{add_channel_lem}
use belt_pp.Sockets.Channels.Delete.{delete_nothing, delete_open}
use belt_pp.Sockets.Channels.Get.{get_channel_safe_lem}
use belt_pp.Sockets.Channels.Join.{connect_success_lem}

module _ {K S : Type 0} (no_session : S) (epoll : Epoll K) (net : Net K) (self : ℕ) where
  -- What holds after so many calls.
  pub record Sound (k : ℕ) (s : Sockets K S) : Type 0 where
    pub next : ℕ
    pub next_slot : ℕ
    pub open_channels : ℕ → Option (Channel S)
    pub open_slots : ℕ → Option EventSlot
    pub state : State no_session self s next next_slot open_channels open_slots
    pub few : next ≤ k
    pub few_slots : next_slot ≤ k

  -- The event handler alone goes on.
  with_events :
      {k : ℕ} {s : Sockets K S} (i : Sound k s) (e : Events K) (m : ℕ) (g G : ℕ → Option EventSlot)
      → Keeps blank_slot e.ids m g
      → ((j : ℕ) → open_of slot_closed (g j) ≡ G j)
      → Links self i.open_channels G
      → m ≤ suc k
      → Sound (suc k) (record s { events = e })
  with_events i e m g G kept same links bound = record {
    next = i.next;
    next_slot = m;
    open_channels = i.open_channels;
    open_slots = G;
    state = record {
      channels = i.state.channels;
      slots = g;
      keeps_channels = i.state.keeps_channels;
      keeps_slots = kept;
      open_channels = i.state.open_channels;
      open_slots = same;
      links = links;
    };
    few = let few = i.few in omega arith;
    few_slots = bound;
  }

  pub other_added-Sound :
      {k : ℕ} {s : Sockets K S} (item : ℕ) (handle : Option ℕ) (item_id : ℕ) (action : Task)
      → k < 2 ^ 60
      → item ≢ self
      → Sound k s
      → Sound
          (suc k)
          (record s { events = (add epoll item handle item_id action false 0 s.events).0 })
  other_added-Sound {k} {s} item handle item_id action small other i =
      let few_slots = i.few_slots in
      go (poll_add epoll handle i.next_slot action s.events.poll) (
        add_lem epoll s.events i.next_slot i.state.slots item handle item_id action 0
          i.state.keeps_slots (omega arith))
    where
      after : Events K × Result ℕ → Type 0
      after r = Sound (suc k) (record s { events = r.0 })

      slot : EventSlot
      slot = record { closed = false; item_id = item_id; item = item }

      go :
          (polled : PollMaster K × Result (Unit {0}))
          → Added epoll s.events i.next_slot i.state.slots slot polled
              (add epoll item handle item_id action false 0 s.events)
          → after (add epoll item handle item_id action false 0 s.events)
      go (p, ok u) (e', run, kept, _) =
          let few_slots = i.few_slots in
          let free = Keeps-beyond blank_slot i.next_slot i.state.keeps_slots (omega arith) in
          subst after (sym run) (
            with_events i e' (suc i.next_slot) (write i.state.slots i.next_slot (some slot))
              (write i.open_slots i.next_slot (some slot)) kept
              (λ j.
                open_write slot_closed i.state.slots i.open_slots i.state.open_slots i.next_slot
                  slot j refl)
              (Links-other self i.open_channels i.open_slots i.next_slot slot i.state.links
                (sym (i.state.open_slots i.next_slot) ∙ ap (open_of slot_closed) free) other)
              (omega arith))
      go (p, err f) (e', run, kept, _) =
          let few_slots = i.few_slots in
          subst after (sym run) (
            with_events i e' i.next_slot i.state.slots i.open_slots kept i.state.open_slots
              i.state.links (omega arith))

  pub other_removed-Sound :
      {k : ℕ} {s : Sockets K S} (handle : Option ℕ) (id : ℕ) (already_closed : Bool)
      (slot : EventSlot)
      → k < 2 ^ 60
      → id < size_mod
      → slot_of id s.events.ids ≡ ok (some slot)
      → slot.closed ≡ false
      → slot.item ≢ self
      → Sound k s
      → Sound
          (suc k)
          (record s { events = (remove epoll handle id already_closed false s.events).0 })
  other_removed-Sound {k} {s} handle id already_closed slot small word found live other i =
      let few_slots = i.few_slots in
      let read = sym (slot_of_lem id i.state.keeps_slots (omega arith) word) ∙ found in
      let there : i.state.slots id ≡ some slot =
        ap (λ r. elim r [ ok o ↦ o | err _ ↦ none ]) read in
      go there (poll_remove epoll handle already_closed s.events.poll) (
        remove_lem epoll s.events i.next_slot i.state.slots handle id already_closed false slot
          i.state.keeps_slots (omega arith) there live)
    where
      after : Events K × Result (Unit {0}) → Type 0
      after r = Sound (suc k) (record s { events = r.0 })

      unlinked :
          i.state.slots id ≡ some slot → Links self i.open_channels (write i.open_slots id none)
      unlinked there =
          Links-other_gone self i.open_channels i.open_slots id slot i.state.links
            (sym (i.state.open_slots id)
              ∙ ap (open_of slot_closed) there
              ∙ ap (λ t. if t then none else some slot) live)
            other

      go :
          i.state.slots id ≡ some slot
          → (polled : PollMaster K × Result (Unit {0}))
          → Removed epoll s.events i.next_slot i.state.slots id slot false polled
              (remove epoll handle id already_closed false s.events)
          → after (remove epoll handle id already_closed false s.events)
      go there (p, ok u) (e', run, g', kept, same, _) =
          let few_slots = i.few_slots in
          subst after (sym run) (
            with_events i e' i.next_slot g' (write i.open_slots id none) kept
              (λ j.
                same j
                ∙ open_write_gone slot_closed i.state.slots i.open_slots i.state.open_slots id j)
              (unlinked there) (omega arith))
      go there (p, err f) (e', run, kept, _) =
          let few_slots = i.few_slots in
          let shut : EventSlot = record slot { closed = true } in
          subst after (sym run) (
            with_events i e' i.next_slot (write i.state.slots id (some shut))
              (write i.open_slots id none) kept
              (λ j.
                open_write_closed slot_closed i.state.slots i.open_slots i.state.open_slots id shut
                  j refl)
              (unlinked there) (omega arith))

  pub opened-Sound :
      {k : ℕ} {s : Sockets K S} (handle : Option ℕ) (kind : PeerType) (attempts : ℕ) (addr : List ℕ)
      → (address : IpAddress) → k < 2 ^ 60
      → (add_channel no_session epoll net self handle kind attempts addr address s).1
        ≢ err terminate
      → Sound k s
      → Sound (suc k) (add_channel no_session epoll net self handle kind attempts addr address s).0
  opened-Sound {k} {s} handle kind attempts addr address small alive i =
      let few = i.few in
      let few_slots = i.few_slots in
      elim (add_channel_lem no_session epoll net s self handle kind attempts addr address i.next
        i.next_slot i.open_channels i.open_slots i.state (omega arith) (omega arith)) [
          | inl (s', e, network, _, run, st) ↦
              subst (λ r. Sound (suc k) r.0) (sym run)
                (record {
                  next = suc i.next;
                  next_slot = suc i.next_slot;
                  open_channels = _;
                  open_slots = _;
                  state = st;
                  few = omega arith;
                  few_slots = omega arith;
                })
          | inr (inl (s', f, m', run, bound, st)) ↦
              subst (λ r. Sound (suc k) r.0) (sym run)
                (record {
                  next = i.next;
                  next_slot = m';
                  open_channels = i.open_channels;
                  open_slots = i.open_slots;
                  state = st;
                  few = omega arith;
                  few_slots = omega arith;
                })
          | inr (inr (s', poll, f, _, run)) ↦ absurd (alive (ap (λ r. r.1) run))
        ]

  -- The same tables, or with other channels, one call later.
  later :
      {k : ℕ} {s s' : Sockets K S} (i : Sound k s)
      → (F : ℕ → Option (Channel S)) (G : ℕ → Option EventSlot)
      → State no_session self s' i.next i.next_slot F G
      → Sound (suc k) s'
  later i F G st = record {
    next = i.next;
    next_slot = i.next_slot;
    open_channels = F;
    open_slots = G;
    state = st;
    few = let few = i.few in omega arith;
    few_slots = let few_slots = i.few_slots in omega arith;
  }

  pub deleted-Sound :
      {k : ℕ} {s : Sockets K S} (id : ℕ)
      → k < 2 ^ 60
      → id < size_mod
      → Sound k s
      → Sound (suc k) (delete_channel no_session epoll net id s).0
  deleted-Sound {k} {s} id small word i = go (i.open_channels id) refl
    where
      go :
          (o : Option (Channel S))
          → i.open_channels id ≡ o
          → Sound (suc k) (delete_channel no_session epoll net id s).0
      go none missing =
          let few = i.few in
          subst (λ r. Sound (suc k) r.0)
            (sym (
              delete_nothing no_session epoll net s self i.next i.next_slot i.open_channels
                i.open_slots id i.state (omega arith) word missing))
            (later i i.open_channels i.open_slots i.state)
      go (some c) there =
          let few = i.few in
          let few_slots = i.few_slots in
          let (s', run, st) =
            delete_open no_session epoll net s self i.next i.next_slot i.open_channels i.open_slots
              id c i.state (omega arith) (omega arith) there in
          subst (λ r. Sound (suc k) r.0) (sym run) (later i _ _ st)

  pub connection-Sound :
      {k : ℕ} {s : Sockets K S} (id : ℕ) (c : Channel S) (network : IpAddress) (p p' : PollMaster K)
      → k < 2 ^ 60
      → id < size_mod
      → get_channel_safe id s ≡ ok (some c)
      → poll_remove epoll c.descriptor false s.events.poll ≡ (p, ok tt)
      → poll_add epoll c.descriptor c.eh_id receive_task p ≡ (p', ok tt)
      → net.socket_bundle p'.kernel c.descriptor ≡ ok network
      → Sound k s
      → Sound (suc k) (connect_success no_session epoll net self id s).0
  connection-Sound {k} {s} id c network p p' small word found taken_back given got i =
      let few = i.few in
      let few_slots = i.few_slots in
      let read =
        sym (
          get_channel_safe_lem no_session s self i.next i.next_slot i.open_channels i.open_slots id
            i.state (omega arith) word)
        ∙ found in
      let there : i.open_channels id ≡ some c = ap (λ r. elim r [ ok o ↦ o | err _ ↦ none ]) read in
      let (s', run, st) =
        connect_success_lem no_session epoll net s self i.next i.next_slot i.open_channels
          i.open_slots id c network p p' i.state (omega arith) (omega arith) there taken_back given
          got in
      subst (λ r. Sound (suc k) r.0) (sym run) (later i _ _ st)
