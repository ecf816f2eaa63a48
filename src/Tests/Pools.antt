-- ===== src/Tests/Pools.antt =====
-- libprocessor/processor.cpp: a pool of one thread, one package and one result.
use belt_pp.Base.{weigh, ℕ, ◌*◌, ◌≡◌, refl, arith, List, [], ◌∷◌, some, length}
use belt_pp.Processor.{
  awake, busy, absent, tests, Pool, Label, silent, sent, began, made, ended, waited, initial,
}
use belt_pp.Processor.Steps.{
  spawn, send, enter, respond, leave, call_wait, test_wait, step, sending, spawning, entering,
  responding, leaving, waiting, Runs, start, more,
}
use belt_pp.Processor.Count.{yield, sent_by, began_by, made_by, ended_by, gather, count}
use belt_pp.Processor.Whole.{Account, Runs-Account, test_wait_lem}
use belt_pp.Processor.Live.{Settles, Runs-Settles}
use belt_pp.Processor.Callers.{Calm, Runs-Calm}

abbrev twice : ℕ → List ℕ
twice n = 2 * n ∷ []

-- The thread starts, and the package 7 is sent.
abbrev s1 : Pool ℕ
s1 = record (initial 1) { threads = awake ∷ [] }

abbrev s2 : Pool ℕ
s2 = record s1 { input_queue = 7 ∷ []; task_count = 1; notices = 1 }

-- The thread takes it, sends 14, and leaves the worker.
abbrev s3 : Pool ℕ
s3 = record s2 { input_queue = []; busy_count = 1; threads = busy (14 ∷ []) ∷ [] }

abbrev s4 : Pool ℕ
s4 = record s3 { output_queue = 14 ∷ []; threads = busy [] ∷ [] }

abbrev s5 : Pool ℕ
s5 = record s4 { busy_count = 0; threads = awake ∷ [] }

-- A caller waits for one task.
abbrev s6 : Pool ℕ
s6 = record s5 { waiter = tests; wanted = 1 }

abbrev s7 : Pool ℕ
s7 = record s6 { waiter = absent; task_count = 0 }

abbrev shown : List (Label ℕ)
shown = silent ∷ sent 7 ∷ began 7 ∷ made 14 ∷ ended ∷ silent ∷ []

run_sent : Runs twice (initial 1) (silent ∷ sent 7 ∷ []) s2
unfolding step spawn send
run_sent =
    more _ s1 s2 (sending 7) (sent 7) (more [] (initial 1) s1 spawning silent start refl) refl

run : Runs twice (initial 1) shown s6
unfolding step enter respond leave call_wait
run =
    more _ s5 s6 (waiting 1) silent
      (more _ s4 s5 (leaving 0) ended
        (more _ s3 s4 (responding 0) (made 14) (more _ s2 s3 (entering 0) (began 7) run_sent refl)
          refl)
        refl)
      refl

returns : test_wait s6 ≡ some (waited, s7)
unfolding test_wait
returns = refl

Runs-Account_example : Account twice shown s6
Runs-Account_example = Runs-Account twice 1 shown s6 run

test_wait_lem_example :
    (gather sent_by shown ≡ gather began_by shown)
    × (count ended_by shown ≡ length (gather sent_by shown))
    × ((f : ℕ → ℕ) → weigh f (gather made_by shown) ≡ yield twice f (gather sent_by shown))
test_wait_lem_example = test_wait_lem twice 1 shown s6 s7 run returns

Runs-Settles_example : Settles twice s2
Runs-Settles_example = Runs-Settles twice 1 (silent ∷ sent 7 ∷ []) s2 run_sent (omega arith)

Runs-Calm_example : Calm s6
Runs-Calm_example = Runs-Calm twice 1 shown s6 run
