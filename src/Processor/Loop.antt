-- ===== src/Processor/Loop.antt =====
-- libprocessor/processor.cpp: what one step of `loop_ex` or of its worker does, and any step.
use belt_pp.Base.{
  weigh, ℕ, ◌+◌, ◌-◌, ◌≡◌, refl, ap, subst, ◌∙◌, Bool, true, false, List, [], ◌∷◌, ◌++◌, append-nil,
  Option, none, some, ltb, if◌then◌else◌, get_elem?, set, is_empty, arith,
}
use belt_pp.Processor.{
  is_emptying, Thread, awake, asleep, stopped, busy, Caller, Pool, Label, silent, ended, made,
  began, Next, awake_at, busy_at, notified,
}
use belt_pp.Processor.Steps.{
  idle, leave_busy, enter, respond, leave, step, Event, sending, receiving, notifying_all, spawning,
  joining, testing, handling, looking, waking, notifying, entering, responding, leaving, counting,
  waiting,
}
use belt_pp.Processor.Count.{awake_one, asleep_one, busy_one, load, over-set}
use belt_pp.Processor.Flow.{
  Post, Post-if, Effect, threads_change, send-Post, receive-Post, notify_one-Post, set_count-Post,
  spawn-Post, notify_all-Post, join-Post, call_wait-Post, test_wait-Post, call_handler-Post,
  test_handler-Post, wake-Post,
}

module _ {ℓ} {A : Type ℓ} where
  pub awake_at_lem : (o : Option (Thread A)) → awake_at o ≡ true → o ≡ some awake
  awake_at_lem none e = absurd (cc)
  awake_at_lem (some asleep) e = absurd (cc)
  awake_at_lem (some awake) e = refl
  awake_at_lem (some stopped) e = absurd (cc)
  awake_at_lem (some (busy left)) e = absurd (cc)

  pub busy_at_lem :
      (o : Option (Thread A)) (left : List A) → busy_at o ≡ some left → o ≡ some (busy left)
  busy_at_lem none left e = absurd (cc)
  busy_at_lem (some asleep) left e = absurd (cc)
  busy_at_lem (some awake) left e = absurd (cc)
  busy_at_lem (some stopped) left e = absurd (cc)
  busy_at_lem (some (busy l)) left e =
      ap (λ o. elim o as (λ _. Option (Thread A)) [ none ↦ none | some x ↦ some (busy x) ]) e

module _ {ℓ} {A : Type ℓ} (worker : A → List A) where
  -- A thread that finds no package blocks, or returns.
  rests :
      (s : Pool A) (id : ℕ) (new : Thread A)
      → get_elem? s.threads id ≡ some awake
      → is_empty s.input_queue ≡ true
      → busy_one new ≡ 0
      → ((f : A → ℕ) → load f new ≡ 0)
      → Effect worker s silent (record s { threads = set s.threads id new })
  rests s id new e none_left b l =
      threads_change worker s (set s.threads id new) s.notices
        (omega (arith, over-set busy_one s.threads id awake new e))
        (λ f. omega (arith, over-set (load f) s.threads id awake new e, l f)) (λ a i j. absurd (cc))

  -- A thread takes a package.
  takes :
      (s : Pool A) (id : ℕ) (pack : A) (rest : List A)
      → get_elem? s.threads id ≡ some awake
      → s.input_queue ≡ pack ∷ rest
      → Effect worker s (began pack) (record s {
        input_queue = rest;
        busy_count = s.busy_count + 1;
        threads = set s.threads id (busy (if is_emptying s.policy then [] else worker pack));
      })
  takes s id pack rest e front =
      let left = if is_emptying s.policy then [] else worker pack in
      record {
        policy = refl;
        input = append-nil s.input_queue ∙ front;
        output = append-nil s.output_queue;
        busy_threads = λ h. omega (arith, h, over-set busy_one s.threads id awake (busy left) e);
        tally = omega (arith, over-set busy_one s.threads id awake (busy left) e);
        yields = λ p f.
            let all : weigh f left ≡ weigh f (worker pack) = rw p refl in
            omega (arith, over-set (load f) s.threads id awake (busy left) e, all);
        alert = λ a i j. omega (arith, over-set busy_one s.threads id awake (busy left) e);
      }

  enter-Post : (id : ℕ) (s : Pool A) → Post (Effect worker s) (enter worker id s)
  unfolding enter
  enter-Post id s =
      Post-if (Effect worker s) (awake_at (get_elem? s.threads id)) _ _
        (λ e. go s.input_queue refl (awake_at_lem (get_elem? s.threads id) e)) (λ e. tt)
    where
      go :
          (q : List A)
          → s.input_queue ≡ q
          → get_elem? s.threads id ≡ some awake
          → Post (Effect worker s) (elim q as (λ _. Next A) [
            | [] ↦
                if ltb s.thread_count (id + 1)
                then some (silent, record s { threads = set s.threads id stopped })
                else some (silent, record s { threads = set s.threads id asleep })
            | pack ∷ rest ↦ some (
              began pack,
              record s {
                input_queue = rest;
                busy_count = s.busy_count + 1;
                threads =
                    set s.threads id (busy (if is_emptying s.policy then [] else worker pack));
              },
            )
          ])
      go [] q e =
          Post-if (Effect worker s) (ltb s.thread_count (id + 1)) _ _
            (λ f. rests s id stopped e (ap is_empty q) refl (λ w. refl))
            (λ f. rests s id asleep e (ap is_empty q) refl (λ w. refl))
      go (pack ∷ rest) q e = takes s id pack rest e q

  responds :
      (s : Pool A) (id : ℕ) (result : A) (left : List A)
      → get_elem? s.threads id ≡ some (busy (result ∷ left))
      → Effect worker s (made result) (record s {
        output_queue = s.output_queue ++ (result ∷ []);
        threads = set s.threads id (busy left);
        handler = notified s.handler;
      })
  responds s id result left e =
      let old = busy (result ∷ left) in
      let new = busy left in
      record {
        policy = refl;
        input = append-nil s.input_queue;
        output = refl;
        busy_threads = λ h. omega (arith, h, over-set busy_one s.threads id old new e);
        tally = omega (arith, over-set busy_one s.threads id old new e);
        yields = λ p f. omega (arith, over-set (load f) s.threads id old new e);
        alert = λ a i j. omega (
          arith,
          a i (omega (arith, over-set asleep_one s.threads id old new e)),
          over-set awake_one s.threads id old new e,
          over-set busy_one s.threads id old new e,
        );
      }

  respond-Post : (id : ℕ) (s : Pool A) → Post (Effect worker s) (respond id s)
  unfolding respond
  respond-Post id s = go (busy_at (get_elem? s.threads id)) refl
    where
      go :
          (o : Option (List A))
          → busy_at (get_elem? s.threads id) ≡ o
          → Post (Effect worker s) (elim o as (λ _. Next A) [
            | none ↦ none
            | some [] ↦ none
            | some (result ∷ left) ↦ some (
              made result,
              record s {
                output_queue = s.output_queue ++ (result ∷ []);
                threads = set s.threads id (busy left);
                handler = notified s.handler;
              },
            )
          ])
      go none e = tt
      go (some []) e = tt
      go (some (result ∷ left)) e =
          responds s id result left (busy_at_lem (get_elem? s.threads id) (result ∷ left) e)

  leaves :
      (s : Pool A) (id : ℕ) (waiter : Caller)
      → get_elem? s.threads id ≡ some (busy [])
      → Effect worker s ended (record s {
        busy_count = s.busy_count - 1;
        threads = set s.threads id awake;
        waiter = waiter;
      })
  leaves s id waiter e = record {
    policy = refl;
    input = append-nil s.input_queue;
    output = append-nil s.output_queue;
    busy_threads = λ h. omega (arith, h, over-set busy_one s.threads id (busy []) awake e);
    tally = omega (arith, over-set busy_one s.threads id (busy []) awake e);
    yields = λ p f. omega (arith, over-set (load f) s.threads id (busy []) awake e);
    alert = λ a i j. omega (arith, over-set awake_one s.threads id (busy []) awake e);
  }

  either :
      (s : Pool A) (b : Bool) (l : Label A) (x y : Pool A)
      → Effect worker s l x
      → Effect worker s l y
      → Effect worker s l (if b then x else y)
  either s true l x y f g = f
  either s false l x y f g = g

  leave-Post : (id : ℕ) (s : Pool A) → Post (Effect worker s) (leave id s)
  unfolding leave
  leave-Post id s = go (busy_at (get_elem? s.threads id)) refl
    where
      go :
          (o : Option (List A))
          → busy_at (get_elem? s.threads id) ≡ o
          → Post (Effect worker s) (elim o as (λ _. Next A) [
            | none ↦ none
            | some (result ∷ left) ↦ none
            | some [] ↦ some (
              ended,
              if idle (leave_busy id s)
                  then record (leave_busy id s) { waiter = notified s.waiter }
                  else leave_busy id s,
            )
          ])
      go none e = tt
      go (some (result ∷ left)) e = tt
      go (some []) e =
          let at = busy_at_lem (get_elem? s.threads id) [] e in
          either s (idle (leave_busy id s)) ended _ _ (leaves s id (notified s.waiter) at)
            (leaves s id s.waiter at)

  step-Post : (e : Event A) (s : Pool A) → Post (Effect worker s) (step worker e s)
  unfolding step
  step-Post (sending pack) s = send-Post worker pack s
  step-Post receiving s = receive-Post worker s
  step-Post notifying_all s = notify_all-Post worker s
  step-Post spawning s = spawn-Post worker s
  step-Post joining s = join-Post worker s
  step-Post testing s = test_wait-Post worker s
  step-Post handling s = call_handler-Post worker s
  step-Post looking s = test_handler-Post worker s
  step-Post waking s = wake-Post worker s
  step-Post (notifying id) s = notify_one-Post worker id s
  step-Post (entering id) s = enter-Post id s
  step-Post (responding id) s = respond-Post id s
  step-Post (leaving id) s = leave-Post id s
  step-Post (counting count) s = set_count-Post worker count s
  step-Post (waiting count) s = call_wait-Post worker count s

  pub step-Effect :
      (e : Event A) (t u : Pool A) (l : Label A)
      → step worker e t ≡ some (l, u)
      → Effect worker t l u
  step-Effect e t u l runs = subst (Post (Effect worker t)) runs (step-Post e t)
