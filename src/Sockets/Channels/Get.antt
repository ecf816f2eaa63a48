-- ===== src/Sockets/Channels/Get.antt =====
-- `get_channel` and `get_channel_safe`.
use belt_pp.Base.{
  ℕ, ◌^◌, ◌≤◌, ◌<◌, ◌≡◌, refl, ap, ◌∙◌, Option, none, some, Bool, true, false, not, ok, err,
  runtime_error, if◌then◌else◌,
}
use belt_pp.Base.Words.{size_mod}
use belt_pp.Queue.{at, valid_index}
use belt_pp.Queue.Laws.{is_some}
use belt_pp.Sockets.Slots.{Cursor, seek, open_at}
use belt_pp.Sockets.Slots.Seek.{is_open, open-Asks, valid-Asks}
use belt_pp.Sockets.Slots.Drain.{open_of}
use belt_pp.Sockets.Slots.Keeps.{Keeps-beyond}
use belt_pp.Sockets.Slots.Split.{seek-Split, seek-none}
use belt_pp.Sockets.Events.{EventSlot}
use belt_pp.Sockets.Channels.{
  Channel, Sockets, blank_channel, channel_closed, get_channel, get_channel_safe,
}
use belt_pp.Sockets.Channels.Links.{State, open_some}

module _ {K S : Type 0} (no_session : S) (s : Sockets K S) where
  safe_missing :
      (id : ℕ)
      → seek (open_at channel_closed id) s.channels ≡ none
      → get_channel_safe id s ≡ ok none
  unfolding get_channel_safe
  safe_missing id missed = rw (get_channel_safe, missed) refl

  safe_found :
      (id : ℕ) (c : Cursor (Channel S)) (channel : Channel S)
      → seek (open_at channel_closed id) s.channels ≡ some c
      → at c.here id ≡ ok channel
      → get_channel_safe id s ≡ ok (some channel)
  unfolding get_channel_safe
  safe_found id c channel found read = rw (get_channel_safe, found, read) refl

  get_missing :
      (id : ℕ)
      → seek (λ q. valid_index q id) s.channels ≡ none
      → get_channel id s ≡ err runtime_error
  unfolding get_channel
  get_missing id missed = rw (get_channel, missed) refl

  get_found :
      (id : ℕ) (c : Cursor (Channel S)) (channel : Channel S)
      → seek (λ q. valid_index q id) s.channels ≡ some c
      → at c.here id ≡ ok channel
      → get_channel id s ≡ ok channel
  unfolding get_channel
  get_found id c channel found read = rw (get_channel, found, read) refl

  module _ (self n m : ℕ) (F : ℕ → Option (Channel S)) (G : ℕ → Option EventSlot) where
    -- In a state that keeps its tables, with fewer than 2 ^ 61 ids given, get_channel_safe answers
    -- for every 64-bit id whether its channel is open, and with which channel.
    pub get_channel_safe_lem :
        (id : ℕ)
        → State no_session self s n m F G
        → n < 2 ^ 61
        → id < size_mod
        → get_channel_safe id s ≡ ok (F id)
    get_channel_safe_lem id st small word = go (st.channels id) refl (st.open_channels id)
      where
        blank : Channel S
        blank = blank_channel no_session

        missed : (is_open channel_closed (st.channels id)) ≡ false → get_channel_safe id s ≡ ok none
        missed e = safe_missing id (
            seek-none blank id (is_open channel_closed) (open_at channel_closed id)
              (open-Asks blank channel_closed id word) refl st.keeps_channels small e)

        go :
            (o : Option (Channel S))
            → st.channels id ≡ o
            → open_of channel_closed o ≡ F id
            → get_channel_safe id s ≡ ok (F id)
        go none there same = missed (ap (is_open channel_closed) there) ∙ ap ok same
        go (some c) there same = cases c.closed refl same
          where
            cases :
                (t : Bool)
                → c.closed ≡ t
                → (if t then none else some c) ≡ F id
                → get_channel_safe id s ≡ ok (F id)
            cases true shut same =
                missed (ap (is_open channel_closed) there ∙ ap not shut) ∙ ap ok same
            cases false live same =
                let (cur, found, read, _) =
                  seek-Split blank id c (is_open channel_closed) (open_at channel_closed id)
                    (open-Asks blank channel_closed id word) refl st.keeps_channels small word there
                    (ap not live) in
                safe_found id cur c found read ∙ ap ok same

    -- `get_channel` answers with an open channel, and throws for an id that was never given.
    pub get_channel_lem :
        (id : ℕ)
        → State no_session self s n m F G
        → n < 2 ^ 61
        → id < size_mod
        → ((c : Channel S) → F id ≡ some c → get_channel id s ≡ ok c)
          × (n ≤ id → get_channel id s ≡ err runtime_error)
    get_channel_lem id st small word = (
      λ c there.
          let (present, _) =
            open_some channel_closed (st.channels id) c (st.open_channels id ∙ there) in
          let (cur, found, read, _) =
            seek-Split (blank_channel no_session) id c is_some (λ q. valid_index q id)
              (valid-Asks (blank_channel no_session) id word) refl st.keeps_channels small word
              present refl in
          get_found id cur c found read,
      λ beyond. get_missing id (
          seek-none (blank_channel no_session) id is_some (λ q. valid_index q id)
            (valid-Asks (blank_channel no_session) id word) refl st.keeps_channels small
            (ap is_some (Keeps-beyond (blank_channel no_session) id st.keeps_channels beyond))),
    )
