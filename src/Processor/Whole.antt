-- ===== src/Processor/Whole.antt =====
-- libprocessor/processor.cpp: no packet is lost, however the threads and the callers interleave.
use belt_pp.Base.{
  weigh, weigh-append, Bool-cases, inl, inr, ℕ, ◌+◌, ◌≡◌, refl, sym, ap, ◌∙◌, true, ◌&&◌, List, [],
  ◌∷◌, ◌++◌, append_assoc, append-nil, some, leb, length, length-append, is_empty, arith,
}
use belt_pp.Processor.{
  allow_new, is_emptying, Thread, awake, asleep, stopped, busy, Pool, Label, waited, initial,
  is_testing,
}
use belt_pp.Processor.Steps.{idle, test_wait, Runs, start, more}
use belt_pp.Processor.Count.{
  over, busy_one, load, yield, sent_by, began_by, made_by, received_by, ended_by, gather, count,
  gather-append, count-append, yield-append,
}
use belt_pp.Processor.Flow.{Alert, Effect}
use belt_pp.Processor.Loop.{step-Effect}

-- Two queues one behind the other.
passes_on {ℓ} :
    {A : Type ℓ} (went came q q' out new : List A)
    → went ≡ came ++ q
    → q ++ new ≡ out ++ q'
    → went ++ new ≡ (came ++ out) ++ q'
passes_on went came q q' out new e f =
    ap (λ l. l ++ new) e
    ∙ append_assoc came q new
    ∙ ap (λ l. came ++ l) f
    ∙ sym (append_assoc came out q')

module _ {ℓ} {A : Type ℓ} (worker : A → List A) where
  -- What holds of a run so far, and of the state that it leads to.
  pub record Account (labels : List (Label A)) (s : Pool A) : Type ℓ where
    pub policy : s.policy ≡ allow_new
    -- Packages begin in the order in which they were sent, and those that did not begin wait.
    pub input : gather sent_by labels ≡ gather began_by labels ++ s.input_queue
    -- Results are received in the order in which they were made, and the others wait.
    pub output : gather made_by labels ≡ gather received_by labels ++ s.output_queue
    pub busy_threads : s.busy_count ≡ over busy_one s.threads
    pub tally : over busy_one s.threads + count ended_by labels ≡ length (gather began_by labels)
    -- For every weight of packets: what the worker sends for the packages that began is what it has
    -- sent and what it will.
    pub yields :
        (f : A → ℕ)
        → over (load f) s.threads + weigh f (gather made_by labels)
          ≡ yield worker f (gather began_by labels)
    pub alert : Alert s

  first-Account : (n : ℕ) → Account [] (initial n)
  first-Account n = record {
    policy = refl;
    input = refl;
    output = refl;
    busy_threads = refl;
    tally = refl;
    yields = λ f. refl;
    alert = λ i j. absurd (omega arith);
  }

  next-Account :
      (labels : List (Label A)) (t u : Pool A) (l : Label A)
      → Account labels t
      → Effect worker t l u
      → Account (labels ++ (l ∷ [])) u
  next-Account labels t u l a e = record {
    policy = e.policy ∙ a.policy;
    input =
        last sent_by
        ∙ passes_on _ _ t.input_queue u.input_queue (began_by l) (sent_by l) a.input e.input
        ∙ ap (λ xs. xs ++ u.input_queue) (sym (last began_by));
    output =
        last made_by
        ∙ passes_on _ _ t.output_queue u.output_queue (received_by l) (made_by l) a.output e.output
        ∙ ap (λ xs. xs ++ u.output_queue) (sym (last received_by));
    busy_threads = e.busy_threads a.busy_threads;
    tally =
        let n = count-append ended_by labels (l ∷ []) in
        let m = ap length (last began_by) ∙ length-append (gather began_by labels) (began_by l) in
        omega (arith, n, m, a.tally, e.tally);
    yields = λ f.
        let m = ap (weigh f) (last made_by) ∙ weigh-append f (gather made_by labels) (made_by l) in
        let b =
          ap (yield worker f) (last began_by)
          ∙ yield-append worker f (gather began_by labels) (began_by l) in
        let p = ap is_emptying a.policy in omega (arith, m, b, a.yields f, e.yields p f);
    alert = e.alert a.alert;
  }
    where
      last : (g : Label A → List A) → gather g (labels ++ (l ∷ [])) ≡ gather g labels ++ g l
      last g = gather-append g labels (l ∷ []) ∙ ap (λ xs. gather g labels ++ xs) (append-nil (g l))

  -- Whatever the worker and however the threads, the callers and the notifications interleave: the
  -- packages that were sent are those that began, in the same order, and those that wait; the results
  -- are those received, in the same order, and those that wait; the busy count is the number of
  -- threads in the worker, each of which has one package that began and did not end; for every weight
  -- of packets, the worker has sent what it is to send for the packages that began, but for what
  -- those threads still hold; and when a package waits while a thread is blocked, another thread is
  -- not blocked or a notification is to come.
  pub Runs-Account :
      (n : ℕ) (labels : List (Label A)) (s : Pool A)
      → Runs worker (initial n) labels s
      → Account labels s
  Runs-Account n [] s start = first-Account n
  Runs-Account n _ s (more labels t u e l runs moves) =
      next-Account labels t u l (Runs-Account n labels t runs) (step-Effect worker e t u l moves)

  waited-idle : (s u : Pool A) → test_wait s ≡ some (waited, u) → idle s ≡ true
  unfolding test_wait
  waited-idle s u e = elim (Bool-cases (is_testing s.waiter)) [
    | inr f ↦ absurd (let h = rw f at e in cc)
    | inl f ↦ elim (Bool-cases (idle s && leb s.wanted s.task_count)) [
      | inl g ↦ ground arith
      | inr g ↦ absurd (let h = rw (f, g) at e in cc)
    ]
  ]

  -- Without a thread in the worker nothing is left to be sent.
  nothing_held :
      (f : A → ℕ) (threads : List (Thread A))
      → over busy_one threads ≡ 0
      → over (load f) threads ≡ 0
  nothing_held f [] e = refl
  nothing_held f (busy left ∷ threads) e = absurd (omega arith)
  nothing_held f (awake ∷ threads) e = omega (arith, nothing_held f threads (omega arith))
  nothing_held f (asleep ∷ threads) e = omega (arith, nothing_held f threads (omega arith))
  nothing_held f (stopped ∷ threads) e = omega (arith, nothing_held f threads (omega arith))

  no_packs : (q : List A) → is_empty q ≡ true → q ≡ []
  no_packs [] e = refl
  no_packs (x ∷ q) e = absurd (cc)

  -- When `wait` returns, all packages sent so far have begun, in this order, the worker has come
  -- back as often as packages were sent, and it has sent, for every weight of packets, exactly what
  -- it sends for them.
  pub test_wait_lem :
      (n : ℕ) (labels : List (Label A)) (s u : Pool A)
      → Runs worker (initial n) labels s
      → test_wait s ≡ some (waited, u)
      → (gather sent_by labels ≡ gather began_by labels)
        × (count ended_by labels ≡ length (gather sent_by labels))
        × ((f : A → ℕ) → weigh f (gather made_by labels) ≡ yield worker f (gather sent_by labels))
  test_wait_lem n labels s u runs returns =
      let a = Runs-Account n labels s runs in
      let done = waited-idle s u returns in
      let blank : is_empty s.input_queue ≡ true = ground arith in
      let none_busy : s.busy_count ≡ 0 = ground arith in
      let all =
        a.input
        ∙ ap (λ q. gather began_by labels ++ q) (no_packs s.input_queue blank)
        ∙ append-nil (gather began_by labels) in
      let none_inside : over busy_one s.threads ≡ 0 = omega (arith, a.busy_threads) in
      (
        all,
        omega (arith, a.tally, ap length all),
        λ f.
            omega
              (arith, a.yields f, ap (yield worker f) all, nothing_held f s.threads none_inside),
      )
