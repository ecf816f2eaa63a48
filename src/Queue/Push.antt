-- ===== src/Queue/Push.antt =====
-- `reserve` and `push` as a whole, and where they fail.
use belt_pp.Base.{
  ℕ, ◌+◌, ◌^◌, ◌≤◌, ◌<◌, ◌≡◌, refl, sym, ◌∙◌, ap, ap₂, ◌≢◌, ◌==◌, inl, inr, arith, List, [], ◌∷◌,
  ◌++◌, length, subst, Fault, Result, ok, err, terminate, if◌then◌else◌, false, Bool-cases,
  ℕ_discrete, ==_iff, replicate, length-replicate,
}
use belt_pp.Base.Words.{add_size, sub_size}
use belt_pp.Queue.{
  Queue, capacity, begin_index, end_index, at, put, relocate, construct, reserve, push, grow,
}
use belt_pp.Queue.Pow2.{capacity2pow_pos, grow_lem}
use belt_pp.Queue.Contents.{IsValid, slot, span, span-ext, contents}
use belt_pp.Queue.Ends.{held_capacity, append_lem}
use belt_pp.Queue.Indices.{end_lem, at_lem, put_outside}
use belt_pp.Queue.Reserve.{before_end, relocate_fails, construct_lem, relocate-Moved}

module _ {ℓ} {A : Type ℓ} where
  -- The index behind the last element has wrapped to 0 exactly when the vector is full.
  abbrev pub WrapsFull : Queue A → Type 0
  WrapsFull q = (0 < q.size) × (q.size ≡ capacity q) × (end_index q ≡ 0)

  from_end : {q : Queue A} → IsValid q → sub_size (end_index q) q.size ≡ begin_index q
  from_end {q} v =
      let small = held_capacity v in let fits = v.fits in let e = end_lem q in omega arith

  starting_size :
      (q : Queue A) (min_size : ℕ)
      → 0 < min_size
      → min_size ≤ 2 ^ 62
      → q.size ≤ 2 ^ 62
      → (n : ℕ) × (grow 65 (if q.size == 0 then min_size else q.size) min_size ≡ ok n)
        × (q.size < n)
        × (n ≤ 2 ^ 63)
  starting_size q min_size pos small held = elim (Bool-cases (q.size == 0)) [
    | inl none_held ↦
        let (n, run, above, _, fits) =
          grow_lem 64 min_size min_size pos small small (omega arith) in
        (n, rw none_held run, ground arith, fits)
    | inr some_held ↦
        let (n, run, above, _, fits) =
          grow_lem 64 q.size min_size (ground arith) held small (ground arith) in
        (n, rw some_held run, above, fits)
  ]

module _ {ℓ} {A : Type ℓ} (blank : A) where
  -- What making room does: the elements and their indices stay.
  abbrev pub MakesRoom : Queue A → Result (Queue A) → Type ℓ
  MakesRoom q r =
      (q' : Queue A) × (r ≡ ok q')
      × IsValid q'
      × (contents blank q' ≡ contents blank q)
      × (begin_index q' ≡ begin_index q)
      × (end_index q' ≡ end_index q)
      × (q'.size < capacity q')

  reserve_room :
      {q : Queue A} (min_size : ℕ) → q.size ≢ capacity q → reserve blank min_size q ≡ ok q
  unfolding reserve
  reserve_room {q} min_size room =
      let test : (q.size == capacity q) ≡ false = ground arith in rw test

  -- A new vector that holds what the old one held, under the same indices.
  relocated :
      (q new : Queue A) (buf : List A)
      → IsValid new
      → new.size ≡ q.size
      → begin_index new ≡ begin_index q
      → length buf ≡ capacity new
      → q.size < capacity new
      → ((k : ℕ) → k < q.size → slot blank buf (new.start + k) ≡ slot blank q.buf (q.start + k))
      → MakesRoom q (ok (record new { buf = buf }))
  relocated q new buf valid same_size same_begin len room moved = (
    record new { buf = buf },
    refl,
    record { shape = rw len valid.shape; fits = rw len valid.fits; word = valid.word },
    ap (span (slot blank buf) new.start) same_size
        ∙ span-ext (slot blank buf) (slot blank q.buf) new.start q.start q.size moved,
    rw len same_begin,
    end_lem (record new { buf = buf })
        ∙ ap₂ add_size (rw len same_begin) same_size
        ∙ sym (end_lem q),
    rw len (omega arith),
  )

  reserve_run :
      (q new : Queue A) (min_size n : ℕ) (r : Result (Queue A))
      → q.size ≡ capacity q
      → grow 65 (if q.size == 0 then min_size else q.size) min_size ≡ ok n
      → construct blank n (end_index q) q.size ≡ ok new
      → relocate (q.size + 1) q (begin_index q) (end_index q) new ≡ r
      → reserve blank min_size q ≡ r
  unfolding reserve
  reserve_run q new min_size n r full grown built run = rw ((==_iff _ _).1 full, grown, built) run

  reserve_full :
      {q : Queue A} (min_size : ℕ)
      → IsValid q
      → q.size ≡ capacity q
      → 0 < min_size
      → min_size ≤ 2 ^ 62
      → q.size ≤ 2 ^ 62
      → ¬ WrapsFull q
      → MakesRoom q (reserve blank min_size q)
  reserve_full {q} min_size v full pos small held no_wrap =
      let (n, grown, above, fits) = starting_size q min_size pos small (omega arith) in
      let unwrapped : end_index q ≡ 0 → q.size ≡ 0 = λ z. elim (ℕ_discrete q.size 0) [
        | yes none_held ↦ none_held
        | no some_held ↦ absurd (no_wrap (omega arith, full, z))
      ] in
      let (new, built, valid, same_size, room, from) =
        construct_lem blank n (end_index q) q.size (omega arith) fits (omega arith) (omega arith)
          unwrapped in
      let same_begin = from ∙ from_end v in
      let (buf, run, len, moved, _) =
        relocate-Moved blank (q.size + 1) q.size 0 q new v valid same_size same_begin (omega arith)
          (omega arith) in
      let first : begin_index q ≡ add_size (begin_index q) 0 = omega arith in
      let loop = ap (λ i. relocate (q.size + 1) q i (end_index q) new) first ∙ run in
      subst (MakesRoom q) (sym (reserve_run q new min_size n _ full grown built loop)) (
        relocated q new buf valid same_size same_begin len (omega arith)
          (λ k below. moved k below (omega arith)))

  -- `reserve` makes room, and keeps the elements, their order and both indices.
  pub reserve_lem :
      {q : Queue A} (min_size : ℕ)
      → IsValid q
      → 0 < min_size
      → min_size ≤ 2 ^ 62
      → q.size ≤ 2 ^ 62
      → ¬ WrapsFull q
      → MakesRoom q (reserve blank min_size q)
  reserve_lem {q} min_size v pos small held no_wrap = elim (ℕ_discrete q.size (capacity q)) [
    | yes full ↦ reserve_full min_size v full pos small held no_wrap
    | no room ↦
        (q, reserve_room min_size room, v, refl, refl, refl, let fits = v.fits in omega arith)
  ]

  -- What `push` does.
  abbrev pub Pushes : Queue A → A → Result (Queue A) → Type ℓ
  Pushes q a r =
      (q' : Queue A) × (r ≡ ok q')
      × IsValid q'
      × (contents blank q' ≡ contents blank q ++ (a ∷ []))
      × (begin_index q' ≡ begin_index q)
      × (end_index q' ≡ add_size (end_index q) 1)

  -- `push` adds its argument behind the last element, whether or not the vector has to grow; the
  -- elements that were there keep their order and their indices, and the invariant is kept.
  pub push_lem :
      {q : Queue A} (a : A)
      → IsValid q
      → q.size ≤ 2 ^ 62
      → ¬ WrapsFull q
      → Pushes q a (push blank q a)
  unfolding push
  push_lem {q} a v held no_wrap =
      let (mid, made, valid, same, first, last, room) =
        reserve_lem 64 v (omega arith) (omega arith) held no_wrap in
      let (q', run, valid', added, first', last', _) = append_lem blank a valid room in
      (
        q',
        rw made run,
        valid',
        added ∙ ap (λ xs. xs ++ (a ∷ [])) same,
        first' ∙ first,
        last' ∙ ap (λ e. add_size e 1) last,
      )

  -- With its end index 0 the new queue starts at index 0, and the old first index is not in it.
  put_unset :
      (n size : ℕ) (a : A)
      → 0 < size
      → size ≤ 2 ^ 62
      → size ≤ n
      → n ≤ 2 ^ 63
      → (new : Queue A) × (construct blank n 0 size ≡ ok new)
        × (put new (sub_size 0 size) a ≡ err terminate)
  unfolding construct
  put_unset n size a pos small room fits =
      let (c, rounded, pow, above, _) = capacity2pow_pos n (omega arith) fits in
      let new : Queue A = record { start = 0; size = size; loops = 0; buf = replicate c blank } in
      let len = length-replicate c blank in
      let v : IsValid new = record {
        shape = inr (rw len (pow, omega arith));
        fits = rw len (omega arith);
        word = omega arith;
      } in
      (
        new,
        rw rounded (ground arith),
        put_outside blank (sub_size 0 size) a v (omega arith) (omega arith),
      )

  push_fails :
      (q : Queue A) (a : A) (f : Fault) → reserve blank 64 q ≡ err f → push blank q a ≡ err f
  unfolding push
  push_fails q a f e = rw e

  -- A full vector whose end index has wrapped to exactly 0: the constructor takes the index for
  -- unset, and the loop reads the new queue under an index that is not valid there.
  pub push_wraps :
      {q : Queue A} (a : A)
      → IsValid q
      → q.size ≤ 2 ^ 62
      → WrapsFull q
      → push blank q a ≡ err terminate
  push_wraps {q} a v held (some_held, full, zero_end) =
      let (n, grown, above, fits) = starting_size q 64 (omega arith) (omega arith) (omega arith) in
      let oldest = slot blank q.buf (q.start + 0) in
      let (new, built, bad) =
        put_unset n q.size oldest some_held (omega arith) (omega arith) fits in
      let first : add_size (begin_index q) 0 ≡ begin_index q = omega arith in
      let at_first : sub_size 0 q.size ≡ begin_index q =
        ap (λ e. sub_size e q.size) (sym zero_end) ∙ from_end v in
      let loop : relocate (q.size + 1) q (begin_index q) (end_index q) new ≡ err terminate =
        ap (λ f. relocate f q (begin_index q) (end_index q) new) (omega arith)
        ∙ relocate_fails q.size q new _ _ oldest terminate
            (ap (λ i. i == end_index q) (sym first) ∙ before_end q 0 v some_held)
            (ap (at q) (sym first) ∙ at_lem blank 0 v some_held)
            (ap (λ i. put new i oldest) (sym at_first) ∙ bad) in
      push_fails q a terminate (
        reserve_run q new 64 n _ full grown (ap (λ e. construct blank n e q.size) zero_end ∙ built)
          loop)
