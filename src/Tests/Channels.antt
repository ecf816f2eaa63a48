-- ===== src/Tests/Channels.antt =====
-- The tables of the sockets at a channel that was opened: the theorems applied there.
use belt_pp.Base.{
  ℕ, suc, ◌^◌, ◌<◌, ◌≡◌, ◌≢◌, ◌⊎◌, refl, sym, ap, ◌∙◌, arith, List, [], ◌∷◌, Option, none, some,
  Bool, true, false, Result, ok, err, terminate, runtime_error, if◌then◌else◌, ◌==◌,
}
use belt_pp.Queue.{
  capacity2pow, next2pow, next2pow_from, construct, full, push, reserve, append, valid_index, at,
}
use belt_pp.Sockets.Slots.{make_room, first_queue, widen, next_id, push_last, seek, open_at}
use belt_pp.Sockets.Poll.{poll_add, poll_remove, Epoll, receive_task}
use belt_pp.Sockets.Events.{add, claim, place, set_sync_result, contains, slot_closed}
use belt_pp.Sockets.Channels.{
  Channel, Sockets, Net, blank_channel, task_of, connecting, bundle_for, streaming_opened,
  no_address, no_sync, get_channel_safe, add_channel, delete_channel, connect_success, reset_handle,
  kernel_of,
}
use belt_pp.Timer.{Timer}
use belt_pp.Sockets.Wait.{Handler}
use belt_pp.Sockets.Channels.Links.{State, slot_for, open_some}
use belt_pp.Sockets.Slots.Keeps.{write}
use belt_pp.Sockets.Channels.Join.{joined, connect_success_lem}
use belt_pp.Sockets.Channels.Get.{get_channel_safe_lem}
use belt_pp.Sockets.Channels.Delete.{delete_open}
use belt_pp.Sockets.Channels.Add.{add_channel_lem, Opened, Refused, Ended}
use belt_pp.Sockets.Channels.Reached.{Reached, started, opened, Reached-Sound}
use belt_pp.Sockets.Channels.Sound.{Sound}

-- The kernel counts the descriptors that it was given.
abbrev epoll : Epoll ℕ
epoll = record { ctl_add = λ k handle id out. some (suc k); ctl_del = λ k handle. some k }

abbrev net : Net ℕ
net = record {
  connect = λ k handle addr. (k, no_sync);
  socket_bundle = λ k handle. ok no_address;
  close = λ k handle. (k, true);
}

abbrev nothing_yet : Sockets ℕ ℕ
nothing_yet = record {
  events = record { ids = []; poll = record { kernel = 0; arr_event = 1 }; sync_ids = [] };
  channels = [];
}

-- The socket of identity 7 opens a channel with the handle 3 and one attempt.
abbrev one_open : Sockets ℕ ℕ
one_open = (add_channel 0 epoll net 7 (some 3) streaming_opened 1 [] no_address nothing_yet).0

opened_fine :
    (add_channel 0 epoll net 7 (some 3) streaming_opened 1 [] no_address nothing_yet).1
    ≡ ok (0, no_address)
unfolding add_channel make_room first_queue widen next_id push_last task_of connecting bundle_for
    add claim place poll_add construct capacity2pow next2pow next2pow_from full push reserve append
    set_sync_result contains
opened_fine = refl

alive :
    (add_channel 0 epoll net 7 (some 3) streaming_opened 1 [] no_address nothing_yet).1
    ≢ err terminate
alive e = let fine = opened_fine in cc

abbrev channel : Channel ℕ
channel = record (blank_channel 0) { descriptor = some 3; kind = streaming_opened; attempts = 1 }

found_open : get_channel_safe 0 one_open ≡ ok (some channel)
unfolding get_channel_safe seek open_at valid_index at add_channel make_room first_queue widen
    next_id push_last task_of connecting bundle_for add claim place poll_add construct capacity2pow
    next2pow next2pow_from full push reserve append set_sync_result contains
found_open = refl

one_opened : Reached 0 epoll net 7 1 one_open
one_opened =
    opened (started nothing_yet.events refl) (some 3) streaming_opened 1 [] no_address alive

Reached-Sound_example : Sound 0 epoll net 7 1 one_open
Reached-Sound_example = Reached-Sound 0 epoll net 7 1 one_open one_opened (omega arith)

abbrev kept : Sound 0 epoll net 7 1 one_open
kept = Reached-Sound 0 epoll net 7 1 one_open one_opened (omega arith)

few : kept.next < 2 ^ 61
few = let bound = kept.few in omega arith

few_slots : suc kept.next_slot < 2 ^ 61
few_slots = let bound = kept.few_slots in omega arith

get_channel_safe_lem_example : get_channel_safe 0 one_open ≡ ok (kept.open_channels 0)
get_channel_safe_lem_example =
    get_channel_safe_lem 0 one_open 7 kept.next kept.next_slot kept.open_channels kept.open_slots 0
      kept.state few (omega arith)

there : kept.open_channels 0 ≡ some channel
there =
    ap
      (λ (r : Result (Option (Channel ℕ))).
        let o : Option (Channel ℕ) = elim r [ ok o ↦ o | err _ ↦ none ] in o)
      (sym (
          get_channel_safe_lem 0 one_open 7 kept.next kept.next_slot kept.open_channels
            kept.open_slots 0 kept.state few (omega arith))
        ∙ found_open)

slot_there : kept.state.slots 0 ≡ some (slot_for 7 0)
slot_there =
    (open_some slot_closed (kept.state.slots 0) (slot_for 7 0)
      (kept.state.open_slots 0 ∙ kept.state.links.onward 0 channel there)).0

taken_back :
    poll_remove epoll channel.descriptor false one_open.events.poll
    ≡ (record { kernel = 1; arr_event = 1 }, ok tt)
unfolding poll_remove add_channel make_room first_queue widen next_id push_last task_of connecting
    bundle_for add claim place poll_add construct capacity2pow next2pow next2pow_from full push
    reserve append set_sync_result contains
taken_back = refl

given :
    poll_add epoll channel.descriptor channel.eh_id receive_task
      (record { kernel = 1; arr_event = 1 })
    ≡ (record { kernel = 2; arr_event = 2 }, ok tt)
unfolding poll_add
given = refl

add_channel_lem_example :
    Opened 0 epoll net one_open 7
      (some 4)
      streaming_opened
      0
      []
      no_address
      kept.next
      kept.next_slot
      kept.open_channels
      kept.open_slots
      (add_channel 0 epoll net 7 (some 4) streaming_opened 0 [] no_address one_open)
    ⊎ (Refused 0 epoll net one_open 7
          (some 4)
          streaming_opened
          0
          []
          no_address
          kept.next
          kept.next_slot
          kept.open_channels
          kept.open_slots
          (add_channel 0 epoll net 7 (some 4) streaming_opened 0 [] no_address one_open)
        ⊎ Ended 0 epoll net one_open 7
            (some 4)
            streaming_opened
            0
            []
            no_address
            kept.next
            kept.next_slot
            kept.open_channels
            kept.open_slots
            (add_channel 0 epoll net 7 (some 4) streaming_opened 0 [] no_address one_open))
add_channel_lem_example =
    add_channel_lem 0 epoll net one_open 7 (some 4) streaming_opened 0 [] no_address kept.next
      kept.next_slot kept.open_channels kept.open_slots kept.state few few_slots

delete_open_example :
    (s' : Sockets ℕ ℕ) × (delete_channel 0 epoll net 0 one_open ≡ (
      s',
      if (reset_handle net channel.descriptor (kernel_of one_open)).1
          then ok tt
          else err runtime_error,
    ))
    × State 0 7 s' kept.next kept.next_slot
        (write kept.open_channels 0 none)
        (write kept.open_slots channel.eh_id none)
delete_open_example =
    delete_open 0 epoll net one_open 7 kept.next kept.next_slot kept.open_channels kept.open_slots 0
      channel kept.state few (let few = few_slots in omega arith) there

connect_success_lem_example :
    (s' : Sockets ℕ ℕ) × (connect_success 0 epoll net 7 0 one_open ≡ (s', ok tt))
    × State 0 7 s' kept.next kept.next_slot
        (write kept.open_channels 0 (some (joined 0 epoll net one_open 7 channel no_address)))
        kept.open_slots
connect_success_lem_example =
    connect_success_lem 0 epoll net one_open 7 kept.next kept.next_slot kept.open_channels
      kept.open_slots 0 channel no_address (record { kernel = 1; arr_event = 1 })
      (record { kernel = 2; arr_event = 2 }) kept.state few (let few = few_slots in omega arith)
      there taken_back given refl

-- The poll master reports the slot 0.
abbrev reports : ℕ → Timer → ℕ × Result (List ℕ × Bool)
reports k timer = (k, ok (0 ∷ [], false))

-- Set for every 10, expired at the second reading of the clock.
abbrev ten : Timer
ten = record { is_set = true; last_point_expired = 0; timer_period = 10 }

abbrev clock : ℕ → ℕ
clock k = if k == 0 then 5 else 25

abbrev handler : Handler ℕ
handler = record { events = one_open.events; timer = ten; items = 7 ∷ []; item_ids = [] }
