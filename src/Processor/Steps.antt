-- ===== src/Processor/Steps.antt =====
-- libprocessor/processor.cpp: the functions of `processor_ex`, `loop_ex` and the event handler. The
-- threads, the callers and the condition variables interleave in any order; one step is what happens
-- under one hold of the mutex, or one call of the worker's `send`.
use belt_pp.Base.{
  ℕ, ◌+◌, ◌-◌, ◌%◌, ◌^◌, ◌≡◌, Bool, ◌&&◌, not, List, [], ◌∷◌, ◌++◌, none, some, map, ltb, leb, ◌==◌,
  if◌then◌else◌, length, get_elem?, set, is_empty,
}
use belt_pp.Processor.{
  Label, Next, Pool, absent, any_asleep, asleep, asleep_at, awake, awake_at, began, blocked, busy,
  busy_at, ended, event, is_absent, is_emptying, is_new, is_testing, joined, made, notified,
  on_demand, received, rouse, sent, silent, stopped, tests, waited,
}

module _ {ℓ} {A : Type ℓ} where
  -- `send`.
  unfoldable pub send : A → Pool A → Next A
  send pack s =
      if is_new s.policy
      then some (
        sent pack,
        record s {
          input_queue = s.input_queue ++ (pack ∷ []);
          task_count = (s.task_count + 1) % 2 ^ 64;
          notices = s.notices + 1;
        },
      )
      else some (silent, s)

  -- The `notify_one` of `send`: it wakes a thread `id` that is blocked, if there is one.
  unfoldable pub notify_one : ℕ → Pool A → Next A
  notify_one id s =
      if s.notices == 0
      then none
      else if any_asleep s.threads
      then (if asleep_at (get_elem? s.threads id)
          then some (silent, record s { notices = s.notices - 1; threads = set s.threads id awake })
          else none)
      else some (silent, record s { notices = s.notices - 1 })

  -- `receive`.
  unfoldable pub receive : Pool A → Next A
  receive s = some (received s.output_queue, record s { output_queue = [] })

  -- `setCoreCount`, its first block.
  unfoldable pub set_count : ℕ → Pool A → Next A
  set_count count s = some (silent, record s { thread_count = count })

  -- `setCoreCount`, one round of its first loop.
  unfoldable pub spawn : Pool A → Next A
  spawn s =
      if ltb (length s.threads) s.thread_count
      then some (silent, record s { threads = s.threads ++ (awake ∷ []) })
      else none

  -- `setCoreCount`, `notify_all`, when fewer threads are wanted than there are.
  unfoldable pub notify_all : Pool A → Next A
  notify_all s =
      if ltb s.thread_count (length s.threads)
      then some (silent, record s { threads = map rouse s.threads })
      else none

  -- `setCoreCount`, one round of its second loop.
  unfoldable pub join : Pool A → Next A
  join s =
      if ltb s.thread_count (length s.threads)
      then elim (joined s.threads) [
        | none ↦ none
        | some left ↦ some (silent, record s { threads = left })
      ]
      else none

  -- `loop_ex`, from its lock to the worker: the thread returns, blocks, or takes a package.
  unfoldable pub enter : (A → List A) → ℕ → Pool A → Next A
  enter worker id s =
      if awake_at (get_elem? s.threads id)
      then elim s.input_queue [
        | [] ↦
            if ltb s.thread_count (id + 1)
            then some (silent, record s { threads = set s.threads id stopped })
            else some (silent, record s { threads = set s.threads id asleep })
        | pack ∷ rest ↦ some (
          began pack,
          record s {
            input_queue = rest;
            busy_count = s.busy_count + 1;
            threads = set s.threads id (busy (if is_emptying s.policy then [] else worker pack));
          },
        )
      ]
      else none

  -- `async_result_ex::send`, called by the worker.
  unfoldable pub respond : ℕ → Pool A → Next A
  respond id s = elim (busy_at (get_elem? s.threads id)) [
    | none ↦ none
    | some [] ↦ none
    | some (result ∷ left) ↦ some (
      made result,
      record s {
        output_queue = s.output_queue ++ (result ∷ []);
        threads = set s.threads id (busy left);
        handler = notified s.handler;
      },
    )
  ]

  -- Whether the tasks are done, the test in `loop_ex` and in `wait`.
  abbrev pub idle : Pool A → Bool
  idle s = is_empty s.input_queue && s.busy_count == 0

  abbrev pub leave_busy : ℕ → Pool A → Pool A
  leave_busy id s = record s { busy_count = s.busy_count - 1; threads = set s.threads id awake }

  -- `loop_ex`, behind the worker.
  unfoldable pub leave : ℕ → Pool A → Next A
  leave id s = elim (busy_at (get_elem? s.threads id)) [
    | none ↦ none
    | some (result ∷ left) ↦ none
    | some [] ↦ some (
      ended,
      if idle (leave_busy id s)
          then record (leave_busy id s) { waiter = notified s.waiter }
          else leave_busy id s,
    )
  ]

  -- `wait`: the call, and the test of its condition variable.
  unfoldable pub call_wait : ℕ → Pool A → Next A
  call_wait i_task_count s =
      if is_absent s.waiter
      then some (silent, record s { waiter = tests; wanted = i_task_count })
      else none

  unfoldable pub test_wait : Pool A → Next A
  test_wait s =
      if is_testing s.waiter
      then (if idle s && leb s.wanted s.task_count
          then some (waited, record s { waiter = absent; task_count = 0 })
          else some (silent, record s { waiter = blocked }))
      else none

  -- `processor_event_handler_ex::wait`: the call, and its test.
  unfoldable pub call_handler : Pool A → Next A
  call_handler s = if is_absent s.handler then some (silent, record s { handler = tests }) else none

  unfoldable pub test_handler : Pool A → Next A
  test_handler s =
      if is_testing s.handler
      then (if not (is_empty s.output_queue)
          then some (event, record s { handler = absent })
          else if not (s.on_demand_wakeup == 0)
          then some
              (on_demand, record s { handler = absent; on_demand_wakeup = s.on_demand_wakeup - 1 })
          else some (silent, record s { handler = blocked }))
      else none

  -- `processor_event_handler_ex::wake`.
  unfoldable pub wake : Pool A → Next A
  wake s = some (
    silent,
    record s { on_demand_wakeup = (s.on_demand_wakeup + 1) % 2 ^ 64; handler = notified s.handler },
  )

-- One step of a thread or of a caller.
pub data Event {ℓ} (A : Type ℓ) : Type ℓ where
  sending : A → Event A
  receiving notifying_all spawning joining testing handling looking waking : Event A
  notifying entering responding leaving counting waiting : ℕ → Event A

module _ {ℓ} {A : Type ℓ} (worker : A → List A) where
  unfoldable pub step : Event A → Pool A → Next A
  step (sending pack) s = send pack s
  step receiving s = receive s
  step notifying_all s = notify_all s
  step spawning s = spawn s
  step joining s = join s
  step testing s = test_wait s
  step handling s = call_handler s
  step looking s = test_handler s
  step waking s = wake s
  step (notifying id) s = notify_one id s
  step (entering id) s = enter worker id s
  step (responding id) s = respond id s
  step (leaving id) s = leave id s
  step (counting count) s = set_count count s
  step (waiting count) s = call_wait count s

  -- What a run from one state to another shows, the last step last.
  pub data Runs (s : Pool A) : List (Label A) → Pool A → Type ℓ where
    start : Runs s [] s
    more :
        (labels : List (Label A)) (t u : Pool A) (e : Event A) (l : Label A)
        → Runs s labels t
        → step e t ≡ some (l, u)
        → Runs s (labels ++ (l ∷ [])) u
