-- ===== src/Processor.antt =====
-- libprocessor/processor.cpp: the state of `processor_ex`, of its loop threads and of its callers.
pub mod Steps
pub mod Count
pub mod Flow
pub mod Loop
pub mod Whole
pub mod Live
pub mod Callers
use belt_pp.Base.{
  ℕ, ◌+◌, ◌-◌, ◌%◌, ◌^◌, ◌≡◌, Bool, true, false, ◌&&◌, ◌||◌, not, List, [], ◌∷◌, ◌++◌, Option, none,
  some, map, ltb, leb, ◌==◌, if◌then◌else◌, length, get_elem?, set, is_empty,
}

-- `pending_policy`.
pub data Policy : Type 0 where
  allow_new prevent_new empty_queue : Policy

-- Where a thread of `loop_ex` is: about to look at the queue, blocked in `m_cv_run_exit__loop`,
-- inside the worker with what it will still send, or returned.
pub data Thread {ℓ} (A : Type ℓ) : Type ℓ where
  awake asleep stopped : Thread A
  busy : List A → Thread A

-- A call that waits on a condition variable: not there, about to test, or blocked.
pub data Caller : Type 0 where
  absent blocked : Caller
  tests : Caller

pub record Pool {ℓ} (A : Type ℓ) : Type ℓ where
  pub on_demand_wakeup : ℕ
  pub policy : Policy
  pub thread_count : ℕ
  pub busy_count : ℕ
  pub task_count : ℕ
  pub threads : List (Thread A)
  pub input_queue : List A
  pub output_queue : List A
  -- Calls of `m_cv_run_exit__loop.notify_one` that are still to come.
  pub notices : ℕ
  -- A call of `wait`, and the number of tasks it asks for.
  pub waiter : Caller
  pub wanted : ℕ
  -- A call of the event handler's `wait`.
  pub handler : Caller

-- What a step does that is seen from outside.
pub data Label {ℓ} (A : Type ℓ) : Type ℓ where
  silent ended waited event on_demand : Label A
  sent began made : A → Label A
  received : List A → Label A

abbrev pub Next {ℓ} : Type ℓ → Type ℓ
Next A = Option (Label A × Pool A)

-- The constructor, without its call of `setCoreCount`.
abbrev pub initial {ℓ} : {A : Type ℓ} → ℕ → Pool A
initial count = record {
  on_demand_wakeup = 0;
  policy = allow_new;
  thread_count = count;
  busy_count = 0;
  task_count = 0;
  threads = [];
  input_queue = [];
  output_queue = [];
  notices = 0;
  waiter = absent;
  wanted = 0;
  handler = absent;
}

abbrev pub is_new : Policy → Bool
is_new allow_new = true
is_new _ = false

abbrev pub is_emptying : Policy → Bool
is_emptying empty_queue = true
is_emptying _ = false

-- A notification reaches a caller that is blocked.
abbrev pub notified : Caller → Caller
notified blocked = tests
notified absent = absent
notified tests = tests

abbrev pub is_testing : Caller → Bool
is_testing tests = true
is_testing _ = false

abbrev pub is_absent : Caller → Bool
is_absent absent = true
is_absent _ = false

abbrev pub rouse {ℓ} : {A : Type ℓ} → Thread A → Thread A
rouse asleep = awake
rouse awake = awake
rouse stopped = stopped
rouse (busy left) = busy left

abbrev pub is_asleep {ℓ} : {A : Type ℓ} → Thread A → Bool
is_asleep asleep = true
is_asleep _ = false

abbrev pub asleep_at {ℓ} : {A : Type ℓ} → Option (Thread A) → Bool
asleep_at none = false
asleep_at (some thread) = is_asleep thread

-- Whether a thread is blocked in `m_cv_run_exit__loop`.
abbrev pub any_asleep {ℓ} : {A : Type ℓ} → List (Thread A) → Bool
any_asleep [] = false
any_asleep (thread ∷ threads) = is_asleep thread || any_asleep threads

-- The threads without the last, if that has returned.
abbrev pub joined {ℓ} : {A : Type ℓ} → List (Thread A) → Option (List (Thread A))
joined [] = none
joined (stopped ∷ []) = some []
joined (thread ∷ []) = none
joined (thread ∷ next ∷ threads) = elim (joined (next ∷ threads)) [
  | none ↦ none
  | some left ↦ some (thread ∷ left)
]

-- Whether a thread is about to look at the queue.
abbrev pub awake_at {ℓ} : {A : Type ℓ} → Option (Thread A) → Bool
awake_at (some awake) = true
awake_at _ = false

-- What a thread will still send, if it is inside the worker.
abbrev pub busy_at {ℓ} : {A : Type ℓ} → Option (Thread A) → Option (List A)
busy_at (some (busy left)) = some left
busy_at _ = none
