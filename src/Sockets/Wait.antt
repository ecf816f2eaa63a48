-- ===== src/Sockets/Wait.antt =====
-- libsocket/event.cpp: `event_handler_ex::wait` and `waited`. The steady clock is an argument, by its
-- readings one after the other; so are what an item does in `prepare_wait`, and the poll master's
-- `wait` with the ids it reports and whether it was woken on demand. An `unordered_set` or
-- `unordered_map` is the list of its entries.
pub mod Reports
use belt_pp.Base.{
  ℕ, suc, Bool, true, false, ◌&&◌, not, Option, none, some, List, [], ◌∷◌, ◌==◌, is_empty, map,
  Result, ok, err, Fault, out_of_range, if◌then◌else◌, ◌>>=◌,
}
use belt_pp.Queue.{Queue}
use belt_pp.Timer.{Timer, expired, update}
use belt_pp.Sockets.Poll.{proceed}
use belt_pp.Sockets.Events.{EventSlot, Events, slot_of}

pub record Handler (K : Type 0) : Type 0 where
  pub events : Events K
  pub timer : Timer
  pub items : List ℕ
  pub item_ids : List (ℕ × ℕ)

pub data WaitResult : Type 0 where
  nothing on_demand timer_out on_demand_and_timer_out event on_demand_and_event timer_out_and_event
        on_demand_and_timer_out_and_event :
      WaitResult

-- The tests at the end of `wait`.
unfoldable pub wait_result : Bool → Bool → Bool → WaitResult
wait_result demand timer ids =
    if not demand && (not timer && not ids)
    then nothing
    else if demand && (not timer && not ids)
    then on_demand
    else if not demand && (timer && not ids)
    then timer_out
    else if not demand && (not timer && ids)
    then event
    else if demand && (timer && not ids)
    then on_demand_and_timer_out
    else if demand && (not timer && ids)
    then on_demand_and_event
    else if not demand && (timer && ids)
    then timer_out_and_event
    else on_demand_and_timer_out_and_event

-- The loop over the reported ids: those with a slot stay, each with its item and the item's id.
unfoldable pub gather_ids : List ℕ → List (Queue EventSlot) → Result (List ℕ × List (ℕ × ℕ))
gather_ids [] ids = ok ([], [])
gather_ids (id ∷ set_ids) ids = do
  slot ← slot_of id ids
  rest ← gather_ids set_ids ids
  elim slot [ none ↦ ok rest | some s ↦ ok (id ∷ rest.0, (s.item, s.item_id) ∷ rest.1) ]

-- The entry of an item in `m_event_item_ids`.
unfoldable pub ids_of : ℕ → List (ℕ × ℕ) → List ℕ
ids_of item [] = []
ids_of item (e ∷ es) = let rest = ids_of item es in if e.0 == item then e.1 ∷ rest else rest

-- `waited`: `at` throws when the item has no entry.
unfoldable pub waited : {K : Type 0} → ℕ → Handler K → Result (List ℕ)
waited item h =
    let ids = ids_of item h.item_ids in if is_empty ids then err out_of_range else ok ids

-- The loop of `prepare_wait`.
unfoldable pub prepared :
    {K : Type 0} → (ℕ → Handler K → Handler K) → List ℕ → Handler K → Handler K
prepared prepare [] h = h
prepared prepare (item ∷ items) h = prepared prepare items (prepare item h)

-- What follows the poll master's `wait`; the items to be served stand by the result.
unfoldable pub serve :
    {K : Type 0}
    → ℕ
    → (ℕ → ℕ)
    → Handler K
    → Events K × Result (List ℕ × Bool)
    → Handler K × Result (WaitResult × List ℕ)
serve fuel clock h answer =
    proceed answer (λ e f. (record h { events = e }, err f))
      (λ e reported. elim (gather_ids reported.0 e.ids) [
        | err f ↦ (record h { events = e }, err f)
        | ok found ↦
            let on_timer = expired (clock 1) h.timer in
            let items = map (λ x. x.0) found.1 in
            let result = wait_result reported.1 on_timer (not (is_empty found.0)) in
            elim (if on_timer then update fuel clock 2 h.timer else ok h.timer) [
              | err f ↦ (record h { events = e; item_ids = found.1 }, err f)
              | ok t ↦ (record h { events = e; timer = t; item_ids = found.1 }, ok (result, items))
            ]
      ])

module _ {K : Type 0} (poll_wait : K → Timer → K × Result (List ℕ × Bool)) where
  -- One id that `native::connect` answered for at once, or what the poll master reports.
  unfoldable pub ready : Timer → Events K → Events K × Result (List ℕ × Bool)
  ready timer e = elim e.sync_ids [
    | id ∷ rest ↦ (record e { sync_ids = rest }, ok (id ∷ [], false))
    | [] ↦
        let (k, reported) = poll_wait e.poll.kernel timer in
        (record e { poll = record { kernel = k; arr_event = e.poll.arr_event } }, reported)
  ]

  -- `wait` behind the loop of `prepare_wait`.
  unfoldable pub await : ℕ → (ℕ → ℕ) → Handler K → Handler K × Result (WaitResult × List ℕ)
  await fuel clock h =
      let timed_out : Handler K × Result (WaitResult × List ℕ) =
        elim (update fuel clock 1 h.timer) [
          | err f ↦ (h, err f)
          | ok t ↦ (record h { timer = t }, ok (timer_out, []))
        ] in
      if expired (clock 0) h.timer then timed_out else serve fuel clock h (ready h.timer h.events)

  unfoldable pub wait :
      ℕ
      → (ℕ → ℕ)
      → (ℕ → Handler K → Handler K)
      → Handler K
      → Handler K × Result (WaitResult × List ℕ)
  wait fuel clock prepare h =
      await fuel clock (prepared prepare h.items (record h { item_ids = [] }))
