-- ===== src/Processor/Flow.antt =====
-- libprocessor/processor.cpp: what one step of a caller does to the queues and the threads.
use belt_pp.Base.{
  weigh, ℕ, ◌+◌, ◌-◌, ◌<◌, ◌≡◌, refl, sym, ◌∙◌, Bool, true, false, ◌&&◌, not, List, [], ◌∷◌, ◌++◌,
  append-nil, Option, none, some, map, ltb, leb, ◌==◌, if◌then◌else◌, length, get_elem?, set,
  is_empty, arith,
}
use belt_pp.Processor.{
  is_new, is_emptying, Thread, awake, asleep, stopped, busy, Caller, Pool, Label, silent, waited,
  event, on_demand, Next, rouse, joined, any_asleep, asleep_at, is_absent, is_testing,
}
use belt_pp.Processor.Steps.{
  idle, send, notify_one, receive, set_count, spawn, notify_all, join, call_wait, test_wait,
  call_handler, test_handler, wake,
}
use belt_pp.Processor.Count.{
  over, awake_one, asleep_one, busy_one, load, yield, over-set, over-append, over-map, over-joined,
  none_asleep, any_asleep_lem, sent_by, began_by, made_by, received_by, ended_by,
}

module _ {ℓ} {A : Type ℓ} where
  -- When there is a package and a thread is blocked, another thread is not, or is about to be woken.
  abbrev pub Alert : Pool A → Type 0
  Alert s =
      is_empty s.input_queue ≡ false
      → 0 < over asleep_one s.threads
      → 0 < over awake_one s.threads + over busy_one s.threads + s.notices

  abbrev pub Post : (Label A → Pool A → Type ℓ) → Next A → Type ℓ
  Post P none = Unit {ℓ}
  Post P (some (l, u)) = P l u

  pub Post-if :
      (P : Label A → Pool A → Type ℓ) (b : Bool) (x y : Next A)
      → (b ≡ true → Post P x)
      → (b ≡ false → Post P y)
      → Post P (if b then x else y)
  Post-if P true x y f g = f refl
  Post-if P false x y f g = g refl

  -- A label that takes no packet in or out.
  abbrev pub IsQuiet : Label A → Type ℓ
  IsQuiet l =
      (sent_by l ≡ [])
      × (began_by l ≡ [])
      × (made_by l ≡ [])
      × (received_by l ≡ [])
      × (ended_by l ≡ 0)

  asleep_at_lem : (o : Option (Thread A)) → asleep_at o ≡ true → o ≡ some asleep
  asleep_at_lem none e = absurd (cc)
  asleep_at_lem (some asleep) e = refl
  asleep_at_lem (some awake) e = absurd (cc)
  asleep_at_lem (some stopped) e = absurd (cc)
  asleep_at_lem (some (busy left)) e = absurd (cc)

  rouse-busy : (t : Thread A) → busy_one (rouse t) ≡ busy_one t
  rouse-busy awake = refl
  rouse-busy asleep = refl
  rouse-busy stopped = refl
  rouse-busy (busy left) = refl

  rouse-load : (f : A → ℕ) (t : Thread A) → load f (rouse t) ≡ load f t
  rouse-load f awake = refl
  rouse-load f asleep = refl
  rouse-load f stopped = refl
  rouse-load f (busy left) = refl

module _ {ℓ} {A : Type ℓ} (worker : A → List A) where
  pub record Effect (t : Pool A) (l : Label A) (u : Pool A) : Type ℓ where
    pub policy : u.policy ≡ t.policy
    -- The queues keep the order of what goes in and out.
    pub input : t.input_queue ++ sent_by l ≡ began_by l ++ u.input_queue
    pub output : t.output_queue ++ made_by l ≡ received_by l ++ u.output_queue
    pub busy_threads :
        t.busy_count ≡ over busy_one t.threads → u.busy_count ≡ over busy_one u.threads
    -- A thread leaves the worker once for each package.
    pub tally : over busy_one u.threads + ended_by l ≡ over busy_one t.threads + length (began_by l)
    -- The worker's packets are those that it sends, and those that it still will.
    pub yields :
        is_emptying t.policy ≡ false
        → (f : A → ℕ)
        → over (load f) u.threads + weigh f (made_by l)
          ≡ over (load f) t.threads + yield worker f (began_by l)
    pub alert : Alert t → Alert u

  -- A step that changes only callers and what they look at.
  pub quiet :
      (t : Pool A) (l : Label A) (d c k w : ℕ) (waiter handler : Caller)
      → IsQuiet l
      → Effect t l (record t {
        on_demand_wakeup = d;
        thread_count = k;
        task_count = c;
        waiter = waiter;
        wanted = w;
        handler = handler;
      })
  quiet t l d c k w waiter handler (s, b, m, r, e) = record {
    policy = refl;
    input = rw (s, b) (append-nil t.input_queue);
    output = rw (m, r) (append-nil t.output_queue);
    busy_threads = λ h. h;
    tally = rw (b, e) (omega arith);
    yields = λ p f. rw (b, m) (omega arith);
    alert = λ h. h;
  }

  -- A step that changes the threads, and no queue.
  pub threads_change :
      (t : Pool A) (threads : List (Thread A)) (notices : ℕ)
      → over busy_one threads ≡ over busy_one t.threads
      → ((f : A → ℕ) → over (load f) threads ≡ over (load f) t.threads)
      → (Alert t → Alert (record t { threads = threads; notices = notices }))
      → Effect t silent (record t { threads = threads; notices = notices })
  threads_change t threads notices b l a = record {
    policy = refl;
    input = append-nil t.input_queue;
    output = append-nil t.output_queue;
    busy_threads = λ h. h ∙ sym b;
    tally = omega (arith, b);
    yields = λ p f. omega (arith, l f);
    alert = a;
  }

  pub send-Post : (pack : A) (s : Pool A) → Post (Effect s) (send pack s)
  unfolding send
  send-Post pack s =
      Post-if (Effect s) (is_new s.policy) _ _
        (λ e. record {
          policy = refl;
          input = refl;
          output = append-nil s.output_queue;
          busy_threads = λ h. h;
          tally = omega arith;
          yields = λ p f. omega arith;
          alert = λ h i j. omega arith;
        })
        (λ e.
          quiet s silent s.on_demand_wakeup s.task_count s.thread_count s.wanted s.waiter s.handler
            (refl, refl, refl, refl, refl))

  pub receive-Post : (s : Pool A) → Post (Effect s) (receive s)
  unfolding receive
  receive-Post s = record {
    policy = refl;
    input = append-nil s.input_queue;
    output = refl;
    busy_threads = λ h. h;
    tally = omega arith;
    yields = λ p f. omega arith;
    alert = λ h. h;
  }

  -- A thread that is blocked wakes up.
  woken :
      (s : Pool A) (id : ℕ)
      → get_elem? s.threads id ≡ some asleep
      → Effect s silent (record s { notices = s.notices - 1; threads = set s.threads id awake })
  woken s id e =
      threads_change s (set s.threads id awake) (s.notices - 1)
        (omega (arith, over-set busy_one s.threads id asleep awake e))
        (λ f. omega (arith, over-set (load f) s.threads id asleep awake e))
        (λ a i j. omega (arith, over-set awake_one s.threads id asleep awake e))

  pub notify_one-Post : (id : ℕ) (s : Pool A) → Post (Effect s) (notify_one id s)
  unfolding notify_one
  notify_one-Post id s =
      Post-if (Effect s) (s.notices == 0) _ _ (λ e. tt)
        (λ e.
          Post-if (Effect s) (any_asleep s.threads) _ _
            (λ f.
              Post-if (Effect s) (asleep_at (get_elem? s.threads id)) _ _
                (λ g. woken s id (asleep_at_lem (get_elem? s.threads id) g)) (λ g. tt))
            (λ f.
              threads_change s s.threads (s.notices - 1) refl (λ w. refl)
                (λ a i j. absurd (omega (arith, any_asleep_lem s.threads f)))))

  pub set_count-Post : (n : ℕ) (s : Pool A) → Post (Effect s) (set_count n s)
  unfolding set_count
  set_count-Post n s =
      quiet s silent s.on_demand_wakeup s.task_count n s.wanted s.waiter s.handler
        (refl, refl, refl, refl, refl)

  pub spawn-Post : (s : Pool A) → Post (Effect s) (spawn s)
  unfolding spawn
  spawn-Post s =
      Post-if (Effect s) (ltb (length s.threads) s.thread_count) _ _
        (λ e.
          threads_change s (s.threads ++ (awake ∷ [])) s.notices
            (omega (arith, over-append busy_one s.threads awake))
            (λ f. omega (arith, over-append (load f) s.threads awake))
            (λ a i j. omega (arith, over-append awake_one s.threads awake)))
        (λ e. tt)

  pub notify_all-Post : (s : Pool A) → Post (Effect s) (notify_all s)
  unfolding notify_all
  notify_all-Post s =
      Post-if (Effect s) (ltb s.thread_count (length s.threads)) _ _
        (λ e.
          threads_change s (map rouse s.threads) s.notices (over-map busy_one s.threads rouse-busy)
            (λ f. over-map (load f) s.threads (rouse-load f))
            (λ a i j. absurd (omega (arith, none_asleep s.threads))))
        (λ e. tt)

  pub join-Post : (s : Pool A) → Post (Effect s) (join s)
  unfolding join
  join-Post s =
      Post-if (Effect s) (ltb s.thread_count (length s.threads)) _ _
        (λ e. go (joined s.threads) refl) (λ e. tt)
    where
      go :
          (o : Option (List (Thread A)))
          → joined s.threads ≡ o
          → Post (Effect s) (elim o as (λ _. Next A) [
            | none ↦ none
            | some left ↦ some (silent, record s { threads = left })
          ])
      go none e = tt
      go (some left) e =
          threads_change s left s.notices (over-joined busy_one s.threads left e refl)
            (λ f. over-joined (load f) s.threads left e refl)
            (λ a i j. omega (
              arith,
              a i (omega (arith, over-joined asleep_one s.threads left e refl)),
              over-joined asleep_one s.threads left e refl,
              over-joined awake_one s.threads left e refl,
              over-joined busy_one s.threads left e refl,
            ))

  pub call_wait-Post : (n : ℕ) (s : Pool A) → Post (Effect s) (call_wait n s)
  unfolding call_wait
  call_wait-Post n s =
      Post-if (Effect s) (is_absent s.waiter) _ _
        (λ e. quiet s silent _ _ _ _ _ _ (refl, refl, refl, refl, refl)) (λ e. tt)

  pub test_wait-Post : (s : Pool A) → Post (Effect s) (test_wait s)
  unfolding test_wait
  test_wait-Post s =
      Post-if (Effect s) (is_testing s.waiter) _ _
        (λ e.
          Post-if (Effect s) (idle s && leb s.wanted s.task_count) _ _
            (λ f. quiet s waited _ _ _ _ _ _ (refl, refl, refl, refl, refl))
            (λ f. quiet s silent _ _ _ _ _ _ (refl, refl, refl, refl, refl)))
        (λ e. tt)

  pub call_handler-Post : (s : Pool A) → Post (Effect s) (call_handler s)
  unfolding call_handler
  call_handler-Post s =
      Post-if (Effect s) (is_absent s.handler) _ _
        (λ e. quiet s silent _ _ _ _ _ _ (refl, refl, refl, refl, refl)) (λ e. tt)

  pub test_handler-Post : (s : Pool A) → Post (Effect s) (test_handler s)
  unfolding test_handler
  test_handler-Post s =
      Post-if (Effect s) (is_testing s.handler) _ _
        (λ e.
          Post-if (Effect s) (not (is_empty s.output_queue)) _ _
            (λ f. quiet s event _ _ _ _ _ _ (refl, refl, refl, refl, refl))
            (λ f.
              Post-if (Effect s) (not (s.on_demand_wakeup == 0)) _ _
                (λ g. quiet s on_demand _ _ _ _ _ _ (refl, refl, refl, refl, refl))
                (λ g. quiet s silent _ _ _ _ _ _ (refl, refl, refl, refl, refl))))
        (λ e. tt)

  pub wake-Post : (s : Pool A) → Post (Effect s) (wake s)
  unfolding wake
  wake-Post s = quiet s silent _ _ _ _ _ _ (refl, refl, refl, refl, refl)
