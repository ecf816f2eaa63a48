-- ===== src/Sockets/Wait/Reports.antt =====
-- What a socket is told: the ids of the channels whose slots the poll master reports.
use belt_pp.Base.{ℕ, ◌<◌, ◌≡◌, List, [], ◌∷◌, Option, some, Bool, true, false}
use belt_pp.Base.Words.{size_mod}
use belt_pp.Queue.{Queue}
use belt_pp.Timer.{Timer}
use belt_pp.Sockets.Events.{Events, contains}
use belt_pp.Sockets.Channels.{Channel}
use belt_pp.Sockets.Wait.{
  WaitResult, event, on_demand_and_event, timer_out_and_event, on_demand_and_timer_out_and_event,
  ids_of,
}

abbrev pub AllWords : List ℕ → Type 0
AllWords [] = Unit {0}
AllWords (i ∷ is) = (i < size_mod) × AllWords is

-- What `wait` answers when an id with a slot is reported: an event, with the wake-up on demand and the
-- expired timer beside it.
abbrev pub with_event : (demand timer : Bool) → WaitResult
with_event false false = event
with_event true false = on_demand_and_event
with_event false true = timer_out_and_event
with_event true true = on_demand_and_timer_out_and_event

-- The open channels whose slots are reported are all told.
abbrev Tells : {S : Type 0} → ℕ → (ℕ → Option (Channel S)) → List ℕ → List ℕ × List (ℕ × ℕ) → Type 0
Tells {S} self F set_ids found =
    (id : ℕ) (c : Channel S)
    → F id ≡ some c
    → contains c.eh_id set_ids ≡ true
    → (contains id (ids_of self found.1) ≡ true) × (contains c.eh_id found.0 ≡ true)
