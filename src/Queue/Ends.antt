-- ===== src/Queue/Ends.antt =====
-- `front`, `pop`, and the writing half of `push`, on a valid queue.
use native.Mathlib.Nat.{
  div-add-mod, add-mul-mod_self_left, mod-lt, mod-eq_of_lt, add-mod_right, mod-add-mod,
  mod-eq-sub-mod,
}
use belt_pp.Base.{
  ℕ, suc, ◌+◌, ◌-◌, ◌*◌, ◌/◌, ◌%◌, ◌^◌, ◌≤◌, ◌<◌, ◌≡◌, refl, sym, ◌∙◌, ap, ap₂, inl, inr, ◌≢◌,
  arith, List, [], ◌∷◌, ◌++◌, length, get_or, set, Result, ok, get_elem?-eq-get_or, get_or-set_self,
  get_or-set_ne, length-set, dec_lt, if◌then◌else◌, leb,
}
use belt_pp.Base.Words.{size_mod, add_size}
use belt_pp.Queue.{Queue, capacity, begin_index, end_index, front, pop, append}
use belt_pp.Queue.Pow2.{IsPow2, pow-le}
use belt_pp.Queue.Modular.{mod-ne}
use belt_pp.Queue.Contents.{IsValid, span, span-ext, span-suc, span_pos, slot, contents}

-- `++loops` past the range of `size_t` moves the index by one capacity all the same.
wrap-mul : (x c s : ℕ) → (s + x % size_mod * c) % size_mod ≡ (s + x * c) % size_mod
wrap-mul x c s =
    let whole : size_mod * (x / size_mod) + x % size_mod ≡ x = div-add-mod x size_mod in
    let spread : s + x * c ≡ s + x % size_mod * c + size_mod * (x / size_mod * c) =
      ap (λ t. s + t * c) (sym whole) ∙ omega arith in
    sym (
      ap (λ t. t % size_mod) spread
      ∙ add-mul-mod_self_left (s + x % size_mod * c) size_mod (x / size_mod * c))

module _ {ℓ} {A : Type ℓ} where
  -- A queue with an element has a capacity, and no wrap-around inside it.
  pub held :
      {q : Queue A}
      → IsValid q
      → 0 < q.size
      → IsPow2 (capacity q) × (q.start < capacity q) × (capacity q ≤ 2 ^ 63)
  held {q} v some_held = elim v.shape [
    | inl (none_held, _) ↦ absurd (let f = v.fits in omega arith)
    | inr ((e, small, eq), inside) ↦ ((e, small, eq), inside, rw eq (pow-le e small))
  ]

  pub held_capacity : {q : Queue A} → IsValid q → capacity q ≤ 2 ^ 63
  held_capacity {q} v = elim v.shape [
    | inl (none_held, _) ↦ omega arith
    | inr ((e, small, eq), inside) ↦ rw eq (pow-le e small)
  ]

module _ {ℓ} {A : Type ℓ} (blank : A) where
  pub front_lem : {q : Queue A} → IsValid q → 0 < q.size → front q ≡ ok (slot blank q.buf q.start)
  unfolding front
  front_lem {q} v h =
      let (_, inside, _) = held v h in
      ground (arith, get_elem?-eq-get_or q.buf q.start blank, mod-eq_of_lt inside)

  -- What `pop` does to a queue with an element.
  abbrev pub Pops : Queue A → Result (Queue A) → Type ℓ
  Pops q r =
      (q' : Queue A) × (r ≡ ok q')
      × IsValid q'
      × (contents blank q ≡ slot blank q.buf q.start ∷ contents blank q')
      × (begin_index q' ≡ add_size (begin_index q) 1)
      × (end_index q' ≡ end_index q)
      × (capacity q' ≡ capacity q)

  pop_inside : {q : Queue A} → IsValid q → 0 < q.size → q.start + 1 < capacity q → Pops q (pop q)
  unfolding pop
  pop_inside {q} v h room =
      let (pow, inside, small) = held v h in
      let step : add_size q.start 1 ≡ suc q.start = omega arith in
      let fits = v.fits in
      (
        record q { start = suc q.start; size = q.size - 1 },
        ground arith,
        record { shape = inr (pow, omega arith); fits = omega arith; word = v.word },
        span_pos (slot blank q.buf) q.start q.size h,
        grind arith,
        ap (λ t. t % size_mod) (omega arith),
        refl,
      )

  pop_round : {q : Queue A} → IsValid q → 0 < q.size → q.start + 1 ≡ capacity q → Pops q (pop q)
  unfolding pop
  pop_round {q} v h last =
      let (pow, inside, small) = held v h in
      let fits = v.fits in
      let around : (i : ℕ) → (suc q.start + i) % capacity q ≡ (0 + i) % capacity q = λ i.
        ap (λ t. t % capacity q) (let e : suc q.start + i ≡ 0 + i + capacity q = omega arith in e)
        ∙ add-mod_right (0 + i) (capacity q) in
      (
        record q { start = 0; size = q.size - 1; loops = add_size q.loops 1 },
        ground arith,
        record { shape = inr (pow, omega arith); fits = omega arith; word = omega arith },
        span_pos (slot blank q.buf) q.start q.size h
            ∙ ap (◌∷◌ (slot blank q.buf q.start)) (
                span-ext (slot blank q.buf) (slot blank q.buf) (suc q.start) 0 (q.size - 1)
                  (λ i _. ap (λ t. get_or q.buf t blank) (around i))),
        wrap-mul (q.loops + 1) (capacity q) 0
            ∙ ap (λ t. t % size_mod) (omega arith)
            ∙ sym (mod-add-mod (q.start + q.loops * capacity q) size_mod 1),
        wrap-mul (q.loops + 1) (capacity q) (q.size - 1 + 0) ∙ ap (λ t. t % size_mod) (omega arith),
        refl,
      )

  -- `pop` removes the oldest element, moves the first index on by one, leaves the end index and
  -- the capacity, and keeps the invariant.
  pub pop_lem : {q : Queue A} → IsValid q → 0 < q.size → Pops q (pop q)
  pop_lem {q} v h =
      let (_, inside, _) = held v h in
      elim (dec_lt (q.start + 1) (capacity q)) [
        | yes room ↦ pop_inside v h room
        | no last ↦ pop_round v h (omega arith)
      ]

  -- What writing one element behind the last does.
  abbrev pub Appends : Queue A → A → Result (Queue A) → Type ℓ
  Appends q a r =
      (q' : Queue A) × (r ≡ ok q')
      × IsValid q'
      × (contents blank q' ≡ contents blank q ++ (a ∷ []))
      × (begin_index q' ≡ begin_index q)
      × (end_index q' ≡ add_size (end_index q) 1)
      × (capacity q' ≡ capacity q)

  free_slot :
      {q : Queue A}
      → IsValid q
      → q.size < capacity q
      → (if leb (capacity q) (add_size q.start q.size)
          then add_size q.start q.size - capacity q
          else add_size q.start q.size)
        ≡ (q.start + q.size) % capacity q
  free_slot {q} v room = elim v.shape [
    | inl (none_held, _) ↦ absurd (omega arith)
    | inr ((e, small, eq), inside) ↦
        let below = pow-le e small in
        ground (
          arith,
          mod-eq_of_lt {n = q.start + q.size} {m = capacity q},
          mod-eq-sub-mod {n = q.start + q.size} {m = capacity q},
          mod-eq_of_lt {n = q.start + q.size - capacity q} {m = capacity q},
        )
  ]

  -- Reading a position of a vector in which one slot was written.
  pub slot-set_self :
      (buf : List A) (p : ℕ) (a : A)
      → 0 < length buf
      → slot blank (set buf (p % length buf) a) p ≡ a
  slot-set_self buf p a h =
      ap (λ n. get_or (set buf (p % length buf) a) (p % n) blank)
        (length-set buf (p % length buf) a)
      ∙ get_or-set_self buf (p % length buf) a blank (mod-lt p h)

  pub slot-set_ne :
      (buf : List A) (i p : ℕ) (a : A)
      → i ≢ p % length buf
      → slot blank (set buf i a) p ≡ slot blank buf p
  slot-set_ne buf i p a h =
      ap (λ n. get_or (set buf i a) (p % n) blank) (length-set buf i a)
      ∙ get_or-set_ne buf i (p % length buf) a blank h

  -- The new element goes behind the others.
  span-set :
      (buf : List A) (b n : ℕ) (a : A)
      → n < length buf
      → span (slot blank (set buf ((b + n) % length buf) a)) b (suc n)
        ≡ span (slot blank buf) b n ++ (a ∷ [])
  span-set buf b n a room =
      let after = set buf ((b + n) % length buf) a in
      span-suc (slot blank after) b n
      ∙ ap₂ (λ xs x. xs ++ (x ∷ []))
          (span-ext (slot blank after) (slot blank buf) b b n (λ k lt.
            slot-set_ne buf ((b + n) % length buf) (b + k) a
              (λ same. mod-ne (length buf) (b + k) (b + n) (omega arith) (omega arith) (sym same))))
          (slot-set_self buf (b + n) a (omega arith))

  -- `push` with room behind the last element adds the new one there, and keeps the invariant.
  pub append_lem :
      {q : Queue A} (a : A) → IsValid q → q.size < capacity q → Appends q a (append q a)
  unfolding append
  append_lem {q} a v room =
      let i = (q.start + q.size) % capacity q in
      let inside : i < capacity q = mod-lt (q.start + q.size) (omega arith) in
      let same = length-set q.buf i a in
      let small = (held_capacity v) in
      (
        record q { size = suc q.size; buf = set q.buf i a },
        rw (free_slot v room) (ground arith),
        record { shape = rw same (v.shape); fits = rw same (omega arith); word = v.word },
        span-set q.buf q.start q.size a room,
        rw same,
        rw same (
            sym (
              mod-add-mod (q.size + q.start + q.loops * capacity q) size_mod 1
              ∙ ap (λ t. t % size_mod) (omega arith))),
        same,
      )
