-- ===== src/Processor/Callers.antt =====
-- libprocessor/processor.cpp: a call that waits is not left blocked when what it waits for is there.
use belt_pp.Base.{
  ℕ, ◌+◌, ◌≡◌, ◌≢◌, refl, subst, Bool, true, false, ◌&&◌, not, List, [], ◌∷◌, ◌++◌, Option, some,
  none, ltb, leb, ◌==◌, if◌then◌else◌, length, get_elem?, set, is_empty, is_empty-last, arith,
}
use belt_pp.Processor.{
  is_new, is_emptying, Thread, asleep, stopped, busy, Caller, absent, tests, blocked, Pool, Label,
  silent, ended, made, began, Next, initial, joined, any_asleep, asleep_at, awake_at, busy_at,
  is_absent, is_testing, notified,
}
use belt_pp.Processor.Steps.{
  idle, leave_busy, send, notify_one, receive, set_count, spawn, notify_all, join, call_wait,
  test_wait, call_handler, test_handler, wake, enter, respond, leave, step, Event, sending,
  receiving, notifying_all, spawning, joining, testing, handling, looking, waking, notifying,
  entering, responding, leaving, counting, waiting, Runs, start, more,
}
use belt_pp.Processor.Flow.{Post, Post-if}

notified_lem : (c : Caller) → notified c ≢ blocked
notified_lem absent e = cc
notified_lem blocked e = cc
notified_lem tests e = cc

module _ {ℓ} {A : Type ℓ} where
  -- A caller is blocked only while its test fails.
  pub record Calm (s : Pool A) : Type ℓ where
    pub waiting_for : s.waiter ≡ blocked → (idle s && leb s.wanted s.task_count) ≡ false
    pub looking_for :
        s.handler ≡ blocked → (is_empty s.output_queue ≡ true) × (s.on_demand_wakeup ≡ 0)

  abbrev Calms : Pool A → Label A → Pool A → Type ℓ
  Calms s l u = Calm s → Calm u

  send-Calm : (pack : A) (s : Pool A) → Post (Calms s) (send pack s)
  unfolding send
  send-Calm pack s =
      Post-if (Calms s) (is_new s.policy) _ _
        (λ e c. record {
          waiting_for = λ b. let full = is_empty-last s.input_queue pack in ground arith;
          looking_for = c.looking_for;
        })
        (λ e c. c)

  same-Calm :
      (s : Pool A) (threads : List (Thread A)) (notices k : ℕ)
      → Calm s
      → Calm (record s { threads = threads; notices = notices; thread_count = k })
  same-Calm s threads notices k c = record {
    waiting_for = c.waiting_for;
    looking_for = c.looking_for;
  }

  notify_one-Calm : (id : ℕ) (s : Pool A) → Post (Calms s) (notify_one id s)
  unfolding notify_one
  notify_one-Calm id s =
      Post-if (Calms s) (s.notices == 0) _ _ (λ e. tt)
        (λ e.
          Post-if (Calms s) (any_asleep s.threads) _ _
            (λ f.
              Post-if (Calms s) (asleep_at (get_elem? s.threads id)) _ _ (λ g. same-Calm s _ _ _)
                (λ g. tt))
            (λ f. same-Calm s _ _ _))

  receive-Calm : (s : Pool A) → Post (Calms s) (receive s)
  unfolding receive
  receive-Calm s c = record {
    waiting_for = c.waiting_for;
    looking_for = λ b. (refl, (c.looking_for b).1);
  }

  join-Calm : (s : Pool A) → Post (Calms s) (join s)
  unfolding join
  join-Calm s =
      Post-if (Calms s) (ltb s.thread_count (length s.threads)) _ _ (λ e. go (joined s.threads))
        (λ e. tt)
    where
      go :
          (o : Option (List (Thread A)))
          → Post (Calms s) (elim o as (λ _. Next A) [
            | none ↦ none
            | some left ↦ some (silent, record s { threads = left })
          ])
      go none = tt
      go (some left) = same-Calm s _ _ _

  call_wait-Calm : (n : ℕ) (s : Pool A) → Post (Calms s) (call_wait n s)
  unfolding call_wait
  call_wait-Calm n s =
      Post-if (Calms s) (is_absent s.waiter) _ _
        (λ e c. record { waiting_for = λ b. absurd (cc); looking_for = c.looking_for }) (λ e. tt)

  test_wait-Calm : (s : Pool A) → Post (Calms s) (test_wait s)
  unfolding test_wait
  test_wait-Calm s =
      Post-if (Calms s) (is_testing s.waiter) _ _
        (λ e.
          Post-if (Calms s) (idle s && leb s.wanted s.task_count) _ _
            (λ f c. record { waiting_for = λ b. absurd (cc); looking_for = c.looking_for })
            (λ f c. record { waiting_for = λ b. f; looking_for = c.looking_for }))
        (λ e. tt)

  call_handler-Calm : (s : Pool A) → Post (Calms s) (call_handler s)
  unfolding call_handler
  call_handler-Calm s =
      Post-if (Calms s) (is_absent s.handler) _ _
        (λ e c. record { waiting_for = c.waiting_for; looking_for = λ b. absurd (cc) }) (λ e. tt)

  test_handler-Calm : (s : Pool A) → Post (Calms s) (test_handler s)
  unfolding test_handler
  test_handler-Calm s =
      Post-if (Calms s) (is_testing s.handler) _ _
        (λ e.
          Post-if (Calms s) (not (is_empty s.output_queue)) _ _
            (λ f c. record { waiting_for = c.waiting_for; looking_for = λ b. absurd (cc) })
            (λ f.
              Post-if (Calms s) (not (s.on_demand_wakeup == 0)) _ _
                (λ g c. record { waiting_for = c.waiting_for; looking_for = λ b. absurd (cc) })
                (λ g c. record {
                  waiting_for = c.waiting_for;
                  looking_for = λ b. (ground arith, ground arith);
                })))
        (λ e. tt)

  wake-Calm : (s : Pool A) → Post (Calms s) (wake s)
  unfolding wake
  wake-Calm s c = record {
    waiting_for = c.waiting_for;
    looking_for = λ b. absurd (notified_lem s.handler b);
  }

module _ {ℓ} {A : Type ℓ} (worker : A → List A) where
  enter-Calm : (id : ℕ) (s : Pool A) → Post (Calms s) (enter worker id s)
  unfolding enter
  enter-Calm id s =
      Post-if (Calms s) (awake_at (get_elem? s.threads id)) _ _ (λ e. go s.input_queue) (λ e. tt)
    where
      go :
          (q : List A)
          → Post (Calms s) (elim q as (λ _. Next A) [
            | [] ↦
                if ltb s.thread_count (id + 1)
                then some (silent, record s { threads = set s.threads id stopped })
                else some (silent, record s { threads = set s.threads id asleep })
            | pack ∷ rest ↦ some (
              began pack,
              record s {
                input_queue = rest;
                busy_count = s.busy_count + 1;
                threads =
                    set s.threads id (busy (if is_emptying s.policy then [] else worker pack));
              },
            )
          ])
      go [] =
          Post-if (Calms s) (ltb s.thread_count (id + 1)) _ _ (λ f. same-Calm s _ _ _)
            (λ f. same-Calm s _ _ _)
      go (pack ∷ rest) =
          λ c. record { waiting_for = λ b. ground arith; looking_for = c.looking_for }

  respond-Calm : (id : ℕ) (s : Pool A) → Post (Calms s) (respond id s)
  unfolding respond
  respond-Calm id s = go (busy_at (get_elem? s.threads id))
    where
      go :
          (o : Option (List A))
          → Post (Calms s) (elim o as (λ _. Next A) [
            | none ↦ none
            | some [] ↦ none
            | some (result ∷ left) ↦ some (
              made result,
              record s {
                output_queue = s.output_queue ++ (result ∷ []);
                threads = set s.threads id (busy left);
                handler = notified s.handler;
              },
            )
          ])
      go none = tt
      go (some []) = tt
      go (some (result ∷ left)) = λ c. record {
        waiting_for = c.waiting_for;
        looking_for = λ b. absurd (notified_lem s.handler b);
      }

  leave-Calm : (id : ℕ) (s : Pool A) → Post (Calms s) (leave id s)
  unfolding leave
  leave-Calm id s = go (busy_at (get_elem? s.threads id))
    where
      done :
          (b : Bool)
          → idle (leave_busy id s) ≡ b
          → Calm s
          → Calm (
              if b
              then record (leave_busy id s) { waiter = notified s.waiter }
              else leave_busy id s)
      done true e c = record {
        waiting_for = λ b. absurd (notified_lem s.waiter b);
        looking_for = c.looking_for;
      }
      done false e c = record { waiting_for = λ b. ground arith; looking_for = c.looking_for }

      go :
          (o : Option (List A))
          → Post (Calms s) (elim o as (λ _. Next A) [
            | none ↦ none
            | some (result ∷ left) ↦ none
            | some [] ↦ some (
              ended,
              if idle (leave_busy id s)
                  then record (leave_busy id s) { waiter = notified s.waiter }
                  else leave_busy id s,
            )
          ])
      go none = tt
      go (some (result ∷ left)) = tt
      go (some []) = done (idle (leave_busy id s)) refl

  step-Calm : (e : Event A) (s : Pool A) → Post (Calms s) (step worker e s)
  unfolding step set_count spawn notify_all
  step-Calm (sending pack) s = send-Calm pack s
  step-Calm receiving s = receive-Calm s
  step-Calm notifying_all s =
      Post-if (Calms s) (ltb s.thread_count (length s.threads)) _ _ (λ e. same-Calm s _ _ _)
        (λ e. tt)
  step-Calm spawning s =
      Post-if (Calms s) (ltb (length s.threads) s.thread_count) _ _ (λ e. same-Calm s _ _ _)
        (λ e. tt)
  step-Calm joining s = join-Calm s
  step-Calm testing s = test_wait-Calm s
  step-Calm handling s = call_handler-Calm s
  step-Calm looking s = test_handler-Calm s
  step-Calm waking s = wake-Calm s
  step-Calm (notifying id) s = notify_one-Calm id s
  step-Calm (entering id) s = enter-Calm id s
  step-Calm (responding id) s = respond-Calm id s
  step-Calm (leaving id) s = leave-Calm id s
  step-Calm (counting count) s = same-Calm s _ _ _
  step-Calm (waiting count) s = call_wait-Calm count s

  -- In every state that a run comes to, `wait` is blocked only while a package waits, a thread is in
  -- the worker or too few tasks were sent, and the event handler only while there is no result and
  -- no call of `wake` left.
  pub Runs-Calm :
      (n : ℕ) (labels : List (Label A)) (s : Pool A) → Runs worker (initial n) labels s → Calm s
  Runs-Calm n [] s start = record { waiting_for = λ b. absurd (cc); looking_for = λ b. absurd (cc) }
  Runs-Calm n _ s (more labels t u e l runs moves) =
      subst (Post (Calms t)) moves (step-Calm e t) (Runs-Calm n labels t runs)
