-- ===== src/Processor/Count.antt =====
-- libprocessor/processor.cpp: what is counted over the threads, and read off a run.
use belt_pp.Base.{
  weigh, ℕ, zero, suc, ◌+◌, ◌≡◌, refl, sym, ap, ◌∙◌, false, List, [], ◌∷◌, ◌++◌, append_assoc,
  Option, none, some, map, get_elem?, set, arith,
}
use belt_pp.Processor.{
  Thread, awake, asleep, stopped, busy, Label, ended, sent, began, made, received, rouse, joined,
  any_asleep,
}

module _ {ℓ} {A : Type ℓ} where
  -- The sum of a number over the threads.
  abbrev pub over : (Thread A → ℕ) → List (Thread A) → ℕ
  over g [] = 0
  over g (thread ∷ threads) = g thread + over g threads

  abbrev pub awake_one : Thread A → ℕ
  awake_one awake = 1
  awake_one _ = 0

  abbrev pub asleep_one : Thread A → ℕ
  asleep_one asleep = 1
  asleep_one _ = 0

  abbrev pub busy_one : Thread A → ℕ
  busy_one (busy left) = 1
  busy_one _ = 0

  -- What a thread will still send.
  abbrev pub load : (A → ℕ) → Thread A → ℕ
  load f (busy left) = weigh f left
  load f _ = 0

  -- The weight of all that a worker sends for packets.
  abbrev pub yield : (A → List A) → (A → ℕ) → List A → ℕ
  yield worker f [] = 0
  yield worker f (x ∷ xs) = weigh f (worker x) + yield worker f xs

  pub over-set :
      (g : Thread A → ℕ) (threads : List (Thread A)) (id : ℕ) (old new : Thread A)
      → get_elem? threads id ≡ some old
      → over g (set threads id new) + g old ≡ over g threads + g new
  over-set g [] id old new e = cc
  over-set g (thread ∷ threads) zero old new e =
      let same = ap (λ o. elim o as (λ _. ℕ) [ none ↦ 0 | some t ↦ g t ]) e in omega arith
  over-set g (thread ∷ threads) (suc id) old new e = omega (arith, over-set g threads id old new e)

  pub over-append :
      (g : Thread A → ℕ) (threads : List (Thread A)) (new : Thread A)
      → over g (threads ++ (new ∷ [])) ≡ over g threads + g new
  over-append g [] new = omega arith
  over-append g (thread ∷ threads) new = omega (arith, over-append g threads new)

  pub over-map :
      (g : Thread A → ℕ) (threads : List (Thread A))
      → ((t : Thread A) → g (rouse t) ≡ g t)
      → over g (map rouse threads) ≡ over g threads
  over-map g [] same = refl
  over-map g (thread ∷ threads) same = omega (arith, over-map g threads same, same thread)

  pub none_asleep : (threads : List (Thread A)) → over asleep_one (map rouse threads) ≡ 0
  none_asleep [] = refl
  none_asleep (awake ∷ threads) = omega (arith, none_asleep threads)
  none_asleep (asleep ∷ threads) = omega (arith, none_asleep threads)
  none_asleep (stopped ∷ threads) = omega (arith, none_asleep threads)
  none_asleep (busy left ∷ threads) = omega (arith, none_asleep threads)

  pub any_asleep_lem :
      (threads : List (Thread A)) → any_asleep threads ≡ false → over asleep_one threads ≡ 0
  any_asleep_lem [] e = refl
  any_asleep_lem (awake ∷ threads) e = omega (arith, any_asleep_lem threads e)
  any_asleep_lem (asleep ∷ threads) e = absurd (cc)
  any_asleep_lem (stopped ∷ threads) e = omega (arith, any_asleep_lem threads e)
  any_asleep_lem (busy left ∷ threads) e = omega (arith, any_asleep_lem threads e)

  -- What a step contributes.
  abbrev pub sent_by : Label A → List A
  sent_by (sent x) = x ∷ []
  sent_by _ = []

  abbrev pub began_by : Label A → List A
  began_by (began x) = x ∷ []
  began_by _ = []

  abbrev pub made_by : Label A → List A
  made_by (made x) = x ∷ []
  made_by _ = []

  abbrev pub received_by : Label A → List A
  received_by (received xs) = xs
  received_by _ = []

  abbrev pub ended_by : Label A → ℕ
  ended_by ended = 1
  ended_by _ = 0

  abbrev pub gather : (Label A → List A) → List (Label A) → List A
  gather g [] = []
  gather g (l ∷ ls) = g l ++ gather g ls

  abbrev pub count : (Label A → ℕ) → List (Label A) → ℕ
  count g [] = 0
  count g (l ∷ ls) = g l + count g ls

  pub gather-append :
      (g : Label A → List A) (ls ms : List (Label A))
      → gather g (ls ++ ms) ≡ gather g ls ++ gather g ms
  gather-append g [] ms = refl
  gather-append g (l ∷ ls) ms =
      ap (λ xs. g l ++ xs) (gather-append g ls ms)
      ∙ sym (append_assoc (g l) (gather g ls) (gather g ms))

  pub count-append :
      (g : Label A → ℕ) (ls ms : List (Label A)) → count g (ls ++ ms) ≡ count g ls + count g ms
  count-append g [] ms = omega arith
  count-append g (l ∷ ls) ms = omega (arith, count-append g ls ms)

  pub yield-append :
      (worker : A → List A) (f : A → ℕ) (xs ys : List A)
      → yield worker f (xs ++ ys) ≡ yield worker f xs + yield worker f ys
  yield-append worker f [] ys = omega arith
  yield-append worker f (x ∷ xs) ys = omega (arith, yield-append worker f xs ys)

-- Joining leaves out a thread that counts for nothing.
pub over-joined {ℓ} :
    {A : Type ℓ} (g : Thread A → ℕ) (threads left : List (Thread A))
    → joined threads ≡ some left
    → g stopped ≡ 0
    → over g left ≡ over g threads
over-joined g [] left e z = cc
over-joined g (stopped ∷ []) [] e z = omega arith
over-joined g (stopped ∷ []) (t ∷ left) e z = cc
over-joined g (awake ∷ []) left e z = cc
over-joined g (asleep ∷ []) left e z = cc
over-joined g (busy b ∷ []) left e z = cc
over-joined {A = A} g (t ∷ next ∷ threads) left e z =
    go (joined (next ∷ threads)) e (λ l f. over-joined g (next ∷ threads) l f z)
  where
    go :
        (o : Option (List (Thread A)))
        → elim o as (λ _. Option (List (Thread A))) [ none ↦ none | some l ↦ some (t ∷ l) ]
          ≡ some left
        → ((l : List (Thread A)) → o ≡ some l → over g l ≡ over g (next ∷ threads))
        → over g left ≡ over g (t ∷ next ∷ threads)
    go none h ih = cc
    go (some l) h ih =
        let same = ap (λ o. elim o as (λ _. ℕ) [ none ↦ 0 | some m ↦ over g m ]) h in
        omega (arith, ih l refl)
