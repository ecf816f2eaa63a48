-- ===== src/Processor/Live.antt =====
-- libprocessor/processor.cpp: the threads come to the end of what was sent.
use belt_pp.Base.{
  ℕ, zero, suc, ◌+◌, ◌-◌, ◌<◌, ◌≤◌, ◌≡◌, refl, ap, ap₂, ◌∙◌, inl, inr, Bool, true, false, List, [],
  ◌∷◌, ◌++◌, some, none, ◌==◌, length, length-set, get_elem?, set, is_empty, arith, Bool-cases,
  dec_lt,
}
use belt_pp.Processor.{
  allow_new, Thread, awake, asleep, stopped, busy, Pool, Label, silent, ended, began, made, initial,
  notified, any_asleep,
}
use belt_pp.Processor.Steps.{
  idle, leave_busy, notify_one, enter, respond, leave, Event, notifying, entering, responding,
  leaving, step, Runs,
}
use belt_pp.Processor.Count.{
  over, awake_one, asleep_one, busy_one, over-set, sent_by, gather, any_asleep_lem,
}
use belt_pp.Processor.Flow.{Alert, Effect}
use belt_pp.Processor.Loop.{step-Effect}
use belt_pp.Processor.Whole.{Runs-Account}

module _ {ℓ} {A : Type ℓ} where
  abbrev pub alive_one : Thread A → ℕ
  alive_one stopped = 0
  alive_one _ = 1

  abbrev held : Thread A → ℕ
  held (busy left) = 1 + length left
  held _ = 0

  find-over :
      (g : Thread A → ℕ) (threads : List (Thread A))
      → 0 < over g threads
      → (id : ℕ) × (t : Thread A) × (get_elem? threads id ≡ some t) × (0 < g t)
  find-over g [] h = absurd (omega arith)
  find-over g (t ∷ threads) h = elim (dec_lt 0 (g t)) [
    | yes here ↦ (0, t, refl, here)
    | no other ↦ let (id, found, e, p) = find-over g threads (omega arith) in (suc id, found, e, p)
  ]

  over-at :
      (g : Thread A → ℕ) (threads : List (Thread A)) (id : ℕ) (t : Thread A)
      → get_elem? threads id ≡ some t
      → g t ≤ over g threads
  over-at g [] id t e = absurd (cc)
  over-at g (x ∷ threads) zero t e =
      let same = ap (λ o. elim o as (λ _. ℕ) [ none ↦ 0 | some y ↦ g y ]) e in omega arith
  over-at g (x ∷ threads) (suc id) t e = omega (arith, over-at g threads id t e)

  -- A thread that has not returned stays, whatever it turns to but `stopped`.
  alive-set :
      (threads : List (Thread A)) (id : ℕ) (old new : Thread A)
      → get_elem? threads id ≡ some old
      → alive_one old ≡ 1
      → alive_one new ≡ 1
      → 0 < over alive_one (set threads id new)
  alive-set threads id old new e o n =
      omega (arith, over-set alive_one threads id old new e, over-at alive_one threads id old e)

  over-alive :
      (threads : List (Thread A))
      → over alive_one threads
        ≡ over awake_one threads + over asleep_one threads + over busy_one threads
  over-alive [] = refl
  over-alive (awake ∷ threads) = omega (arith, over-alive threads)
  over-alive (asleep ∷ threads) = omega (arith, over-alive threads)
  over-alive (stopped ∷ threads) = omega (arith, over-alive threads)
  over-alive (busy left ∷ threads) = omega (arith, over-alive threads)

  find-asleep :
      (threads : List (Thread A))
      → 0 < over asleep_one threads
      → (id : ℕ) × (get_elem? threads id ≡ some asleep)
  find-asleep threads h = go (find-over asleep_one threads h)
    where
      go :
          (id : ℕ) × (t : Thread A) × (get_elem? threads id ≡ some t) × (0 < asleep_one t)
          → (id : ℕ) × (get_elem? threads id ≡ some asleep)
      go (id, asleep, e, p) = (id, e)
      go (id, awake, e, p) = absurd (omega arith)
      go (id, stopped, e, p) = absurd (omega arith)
      go (id, busy left, e, p) = absurd (omega arith)

  find-awake :
      (threads : List (Thread A))
      → 0 < over awake_one threads
      → (id : ℕ) × (get_elem? threads id ≡ some awake)
  find-awake threads h = go (find-over awake_one threads h)
    where
      go :
          (id : ℕ) × (t : Thread A) × (get_elem? threads id ≡ some t) × (0 < awake_one t)
          → (id : ℕ) × (get_elem? threads id ≡ some awake)
      go (id, awake, e, p) = (id, e)
      go (id, asleep, e, p) = absurd (omega arith)
      go (id, stopped, e, p) = absurd (omega arith)
      go (id, busy left, e, p) = absurd (omega arith)

  find-busy :
      (threads : List (Thread A))
      → 0 < over busy_one threads
      → (id : ℕ) × (left : List A) × (get_elem? threads id ≡ some (busy left))
  find-busy threads h = go (find-over busy_one threads h)
    where
      go :
          (id : ℕ) × (t : Thread A) × (get_elem? threads id ≡ some t) × (0 < busy_one t)
          → (id : ℕ) × (left : List A) × (get_elem? threads id ≡ some (busy left))
      go (id, busy left, e, p) = (id, left, e)
      go (id, asleep, e, p) = absurd (omega arith)
      go (id, stopped, e, p) = absurd (omega arith)
      go (id, awake, e, p) = absurd (omega arith)

  some_asleep :
      (threads : List (Thread A)) → 0 < over asleep_one threads → any_asleep threads ≡ true
  some_asleep threads h = elim (Bool-cases (any_asleep threads)) [
    | inl e ↦ e
    | inr e ↦ absurd (omega (arith, any_asleep_lem threads e))
  ]

-- The steps of the threads, and the notifications that `send` has made.
abbrev pub is_own {ℓ} : {A : Type ℓ} → Event A → Bool
is_own (notifying id) = true
is_own (entering id) = true
is_own (responding id) = true
is_own (leaving id) = true
is_own _ = false

module _ {ℓ} {A : Type ℓ} (worker : A → List A) where
  -- The steps to come for the packages that wait.
  abbrev queued : List A → ℕ
  queued [] = 0
  queued (x ∷ xs) = 2 + length (worker x) + queued xs

  abbrev to_come : Pool A → ℕ
  to_come s = over held s.threads + queued s.input_queue + s.notices

  -- A step of a thread, or a notification, that brings the end nearer.
  abbrev Nearer : Pool A → Type ℓ
  Nearer s =
      (e : Event A) × (l : Label A) × (u : Pool A) × (is_own e ≡ true)
      × (step worker e s ≡ some (l, u))
      × (sent_by l ≡ [])
      × (to_come u < to_come s)
      × (0 < over alive_one u.threads)
      × (length u.threads ≡ length s.threads)

  busy-Nearer :
      (s : Pool A) (id : ℕ) (left : List A) → get_elem? s.threads id ≡ some (busy left) → Nearer s
  unfolding step leave respond
  busy-Nearer s id [] e =
      let h = over-set held s.threads id (busy []) awake e in
      let alive = alive-set s.threads id (busy []) awake e refl refl in
      elim (Bool-cases (idle (leave_busy id s))) [
        | inl d ↦ (
          leaving id,
          ended,
          record (leave_busy id s) { waiter = notified s.waiter },
          refl,
          rw (leave, e, d) refl,
          refl,
          omega arith,
          alive,
          length-set s.threads id awake,
        )
        | inr d ↦ (
          leaving id,
          ended,
          leave_busy id s,
          refl,
          rw (leave, e, d) refl,
          refl,
          omega arith,
          alive,
          length-set s.threads id awake,
        )
      ]
  busy-Nearer s id (result ∷ left) e =
      let old = busy (result ∷ left) in
      let h = over-set held s.threads id old (busy left) e in
      (
        responding id,
        made result,
        record s {
          output_queue = s.output_queue ++ (result ∷ []);
          threads = set s.threads id (busy left);
          handler = notified s.handler;
        },
        refl,
        rw (respond, e) refl,
        refl,
        omega arith,
        alive-set s.threads id old (busy left) e refl refl,
        length-set s.threads id (busy left),
      )

  awake-Nearer :
      (s : Pool A) (id : ℕ) (pack : A) (rest : List A)
      → s.policy ≡ allow_new
      → s.input_queue ≡ pack ∷ rest
      → get_elem? s.threads id ≡ some awake
      → Nearer s
  unfolding step enter
  awake-Nearer s id pack rest p q e =
      let new = busy (worker pack) in
      let h = over-set held s.threads id awake new e in
      let wait = ap queued q in
      (
        entering id,
        began pack,
        record s {
          input_queue = rest;
          busy_count = s.busy_count + 1;
          threads = set s.threads id new;
        },
        refl,
        rw (e, q, p) refl,
        refl,
        omega arith,
        alive-set s.threads id awake new e refl refl,
        length-set s.threads id new,
      )

  asleep-Nearer :
      (s : Pool A) (id : ℕ)
      → 0 < s.notices
      → 0 < over asleep_one s.threads
      → get_elem? s.threads id ≡ some asleep
      → Nearer s
  unfolding step notify_one
  asleep-Nearer s id n a e =
      let h = over-set held s.threads id asleep awake e in
      let pending : (s.notices == 0) ≡ false = ground arith in
      (
        notifying id,
        silent,
        record s { notices = s.notices - 1; threads = set s.threads id awake },
        refl,
        rw (pending, some_asleep s.threads a, e) refl,
        refl,
        omega arith,
        alive-set s.threads id asleep awake e refl refl,
        length-set s.threads id awake,
      )

  record Standing (s : Pool A) : Type ℓ where
    pub policy : s.policy ≡ allow_new
    pub busy_threads : s.busy_count ≡ over busy_one s.threads
    pub alert : Alert s

  next-Standing : (t u : Pool A) (l : Label A) → Standing t → Effect worker t l u → Standing u
  next-Standing t u l a e = record {
    policy = e.policy ∙ a.policy;
    busy_threads = e.busy_threads a.busy_threads;
    alert = e.alert a.alert;
  }

  nearer : (s : Pool A) → Standing s → 0 < over alive_one s.threads → idle s ≡ false → Nearer s
  nearer s a alive not_idle = elim (dec_lt 0 (over busy_one s.threads)) [
    | yes some_busy ↦ let (id, left, e) = find-busy s.threads some_busy in busy-Nearer s id left e
    | no none_busy ↦
        let zero_busy : s.busy_count ≡ 0 = omega (arith, a.busy_threads) in
        let waiting : is_empty s.input_queue ≡ false = ground arith in
        let (pack, rest, q) = first s.input_queue waiting in
        elim (dec_lt 0 (over awake_one s.threads)) [
          | yes some_awake ↦
              let (id, e) = find-awake s.threads some_awake in
              awake-Nearer s id pack rest a.policy q e
          | no none_awake ↦
              let sleeping : 0 < over asleep_one s.threads = omega (arith, over-alive s.threads) in
              let (id, e) = find-asleep s.threads sleeping in
              asleep-Nearer s id (omega (arith, a.alert waiting sleeping)) sleeping e
        ]
  ]
    where
      first : (q : List A) → is_empty q ≡ false → (x : A) × (rest : List A) × (q ≡ x ∷ rest)
      first [] e = absurd (cc)
      first (x ∷ q) e = (x, q, refl)

  -- A run in which nothing is sent or called: threads go on, and notifications that were made wake
  -- threads.
  pub data Works : Pool A → List (Label A) → Pool A → Type ℓ where
    rests : (s : Pool A) → Works s [] s
    works :
        (s t u : Pool A) (labels : List (Label A)) (e : Event A) (l : Label A)
        → is_own e ≡ true
        → step worker e s ≡ some (l, t)
        → Works t labels u
        → Works s (l ∷ labels) u

  abbrev pub Settles : Pool A → Type ℓ
  Settles s =
      (labels : List (Label A)) × (u : Pool A) × Works s labels u
      × (idle u ≡ true)
      × (gather sent_by labels ≡ [])
      × (length u.threads ≡ length s.threads)

  settles :
      (fuel : ℕ) (s : Pool A)
      → to_come s < fuel
      → Standing s
      → 0 < over alive_one s.threads
      → Settles s
  settles zero s small a alive = absurd (omega arith)
  settles (suc fuel) s small a alive = elim (Bool-cases (idle s)) [
    | inl done ↦ ([], s, rests s, done, refl, refl)
    | inr not_idle ↦
        let (e, l, t, own, moves, none_sent, less, alive', size) = nearer s a alive not_idle in
        let (labels, u, runs, done, quiet, size') =
          settles fuel t (omega arith) (next-Standing s t l a (step-Effect worker e s t l moves))
            alive' in
        (
          l ∷ labels,
          u,
          works s t u labels e l own moves runs,
          done,
          ap₂ (λ xs ys. xs ++ ys) none_sent quiet,
          size' ∙ size,
        )
  ]

  -- From every state that a run comes to, if a thread has not returned, steps of the threads and the
  -- notifications that `send` has made, without any call of a caller and with no more and no fewer
  -- threads, lead to where no package waits and no thread is in the worker.
  pub Runs-Settles :
      (n : ℕ) (labels : List (Label A)) (s : Pool A)
      → Runs worker (initial n) labels s
      → 0 < over alive_one s.threads
      → Settles s
  Runs-Settles n labels s runs alive =
      let a = Runs-Account worker n labels s runs in
      settles (suc (to_come s)) s (omega arith)
        (record { policy = a.policy; busy_threads = a.busy_threads; alert = a.alert }) alive
