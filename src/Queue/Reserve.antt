-- ===== src/Queue/Reserve.antt =====
-- `reserve`: the constructor that it calls, the loop that moves the elements, and their indices.
use native.Mathlib.Nat.{
  mod-lt, mod-eq_of_lt, mod-add-mod, mod-add-div', zero-mod, zero-div, mod-le, mul-div_cancel,
}
use belt_pp.Base.{
  ℕ, zero, suc, ◌+◌, ◌*◌, ◌/◌, ◌%◌, ◌^◌, ◌≤◌, ◌<◌, ◌≡◌, refl, sym, ◌∙◌, ap, ℕ_discrete, inr, ◌==◌,
  arith, List, length, set, Result, ok, err, Fault, if◌then◌else◌, true, false, ◌&&◌, replicate,
  ==_iff, length-replicate, not, length-set,
}
use belt_pp.Base.Words.{size_mod, add_size, sub_size}
use belt_pp.Queue.{Queue, capacity, begin_index, end_index, at, put, relocate, construct}
use belt_pp.Queue.Pow2.{capacity2pow_pos}
use belt_pp.Queue.Modular.{mod-ne}
use belt_pp.Queue.Contents.{IsValid, slot}
use belt_pp.Queue.Ends.{held_capacity, slot-set_self, slot-set_ne}
use belt_pp.Queue.Indices.{at_lem, put_lem, end_lem}

module _ {ℓ} {A : Type ℓ} where
  IsValid-write :
      {q : Queue A} (i : ℕ) (a : A) → IsValid q → IsValid (record q { buf = set q.buf i a })
  IsValid-write {q} i a v = record {
    shape = rw (length-set q.buf i a) v.shape;
    fits = rw (length-set q.buf i a) v.fits;
    word = v.word;
  }

  at_end :
      (old : Queue A) (j : ℕ)
      → j ≡ old.size
      → (add_size (begin_index old) j == end_index old) ≡ true
  at_end old j e = (==_iff _ _).1 (ap (add_size (begin_index old)) e ∙ sym (end_lem old))

  pub before_end :
      (old : Queue A) (j : ℕ)
      → IsValid old
      → j < old.size
      → (add_size (begin_index old) j == end_index old) ≡ false
  before_end old j v lt =
      let e = end_lem old in let small = held_capacity v in let fits = v.fits in ground arith

  relocate_step :
      (fuel : ℕ) (old new new' : Queue A) (index end : ℕ) (a : A)
      → (index == end) ≡ false
      → at old index ≡ ok a
      → put new index a ≡ ok new'
      → relocate (suc fuel) old index end new ≡ relocate fuel old (add_size index 1) end new'
  unfolding relocate
  relocate_step fuel old new new' index end a more read write = rw (more, read, write)

  pub relocate_fails :
      (fuel : ℕ) (old new : Queue A) (index end : ℕ) (a : A) (f : Fault)
      → (index == end) ≡ false
      → at old index ≡ ok a
      → put new index a ≡ err f
      → relocate (suc fuel) old index end new ≡ err f
  unfolding relocate
  relocate_fails fuel old new index end a f more read write = rw (more, read, write)

  relocate_stop :
      (fuel : ℕ) (old new : Queue A) (index end : ℕ)
      → (index == end) ≡ true
      → relocate (suc fuel) old index end new ≡ ok new
  unfolding relocate
  relocate_stop fuel old new index end done = rw done

-- Where the constructor starts: both members are 0 where it skips their computation.
start_lem :
    (c end size : ℕ)
    → 0 < c
    → (end ≡ 0 → size ≡ 0)
    → (if not (c == 0) && not (end == 0) then sub_size end size % c else 0) ≡ sub_size end size % c
start_lem c end size pos wrapped = elim (ℕ_discrete end 0) [
  | yes z ↦
      let none_held : sub_size end size ≡ 0 = (let e = wrapped z in omega arith) in
      rw (none_held, zero-mod) (ground arith)
  | no nz ↦ ground arith
]

loops_lem :
    (c end size : ℕ)
    → 0 < c
    → end < size_mod
    → size ≤ 2 ^ 63
    → (end ≡ 0 → size ≡ 0)
    → (if not (c == 0) && not (end == 0)
        then sub_size (sub_size end (sub_size end size % c)) size / c
        else 0)
      ≡ sub_size end size / c
loops_lem c end size pos word small wrapped = elim (ℕ_discrete end 0) [
  | yes z ↦
      let none_held : sub_size end size ≡ 0 = (let e = wrapped z in omega arith) in
      rw (none_held, zero-div) (ground arith)
  | no nz ↦
      let b = sub_size end size in
      let within : b % c ≤ b = mod-le b c in
      let whole : b % c + b / c * c ≡ b = mod-add-div' b c in
      let left : sub_size (sub_size end (b % c)) size ≡ b / c * c = omega arith in
      rw left (rw (mul-div_cancel (b / c) pos) (ground arith))
]

module _ {ℓ} {A : Type ℓ} (blank : A) where
  -- What the moving loop leaves of the new queue when `j` elements have been moved before it.
  abbrev pub Moved : Queue A → ℕ → Queue A → Result (Queue A) → Type ℓ
  Moved old j cur r =
      (buf : List A) × (r ≡ ok (record cur { buf = buf }))
      × (length buf ≡ capacity cur)
      × ((k : ℕ)
          → k < old.size
          → j ≤ k
          → slot blank buf (cur.start + k) ≡ slot blank old.buf (old.start + k))
      × ((k : ℕ)
          → k < j
          → j ≤ old.size
          → slot blank buf (cur.start + k) ≡ slot blank cur.buf (cur.start + k))

  pub relocate-Moved :
      (fuel m j : ℕ) (old cur : Queue A)
      → IsValid old
      → IsValid cur
      → cur.size ≡ old.size
      → begin_index cur ≡ begin_index old
      → j + m ≡ old.size
      → m < fuel
      → Moved old j cur (relocate fuel old (add_size (begin_index old) j) (end_index old) cur)
  relocate-Moved zero m j old cur vo vc same_size same_begin count enough = absurd (omega arith)
  relocate-Moved (suc fuel) zero j old cur vo vc same_size same_begin count enough = (
    cur.buf,
    relocate_stop fuel old cur _ _ (at_end old j (omega arith)),
    refl,
    λ k lt le. absurd (omega arith),
    λ k lt le. refl,
  )
  relocate-Moved (suc fuel) (suc m) j old cur vo vc same_size same_begin count enough =
      let lt : j < old.size = omega arith in
      let a = slot blank old.buf (old.start + j) in
      let p = (cur.start + j) % capacity cur in
      let next = record cur { buf = set cur.buf p a } in
      let grown = length-set cur.buf p a in
      let write : put cur (add_size (begin_index old) j) a ≡ ok next =
        ap (λ b. put cur (add_size b j) a) (sym same_begin)
        ∙ put_lem blank j a vc (rw same_size lt) in
      let following : add_size (add_size (begin_index old) j) 1
          ≡ add_size (begin_index old) (suc j) =
        mod-add-mod (begin_index old + j) size_mod 1 ∙ ap (λ t. t % size_mod) (omega arith) in
      let (buf, run, len, moved, kept) =
        relocate-Moved fuel m (suc j) old next vo (IsValid-write p a vc) same_size
          (rw grown same_begin) (omega arith) (omega arith) in
      (
        buf,
        relocate_step fuel old cur next _ _ a (before_end old j vo lt) (at_lem blank j vo lt) write
            ∙ ap (λ i. relocate fuel old i (end_index old) next) following
            ∙ run,
        len ∙ grown,
        λ k below from. elim (ℕ_discrete k j) [
          | yes here ↦
              ap (λ t. slot blank buf (cur.start + t)) here
              ∙ kept j (omega arith) (omega arith)
              ∙ slot-set_self blank cur.buf (cur.start + j) a (omega arith)
              ∙ ap (λ t. slot blank old.buf (old.start + t)) (sym here)
          | no other ↦ moved k below (omega arith)
        ],
        λ k below inside.
            kept k (omega arith) (omega arith)
            ∙ slot-set_ne blank cur.buf p (cur.start + k) a (λ same.
              mod-ne (capacity cur) (cur.start + k) (cur.start + j) (omega arith) (omega arith)
                (sym same)),
      )

  pub construct_lem :
      (n end size : ℕ)
      → 0 < n
      → n ≤ 2 ^ 63
      → size ≤ n
      → end < size_mod
      → (end ≡ 0 → size ≡ 0)
      → (new : Queue A) × (construct blank n end size ≡ ok new)
        × IsValid new
        × (new.size ≡ size)
        × (n ≤ capacity new)
        × (begin_index new ≡ sub_size end size)
  unfolding construct
  construct_lem n end size pos small room word wrapped =
      let (c, rounded, pow, above, _) = capacity2pow_pos n pos small in
      let b = sub_size end size in
      let size_le : size ≤ c = omega arith in
      let b_le : b < size_mod = omega arith in
      let whole : b % c + b / c * c ≡ b = mod-add-div' b c in
      let first : (if not (c == 0) && not (end == 0) then b % c else 0) ≡ b % c =
        start_lem c end size (omega arith) wrapped in
      let rounds : (if not (c == 0) && not (end == 0)
            then sub_size (sub_size end (b % c)) size / c
            else 0)
          ≡ b / c =
        loops_lem c end size (omega arith) word (omega arith) wrapped in
      (
        record { start = b % c; size = size; loops = b / c; buf = replicate c blank },
        rw (rounded, first, rounds) (ground arith),
        record {
          shape = inr (rw (length-replicate c blank) (pow, mod-lt b (omega arith)));
          fits = rw (length-replicate c blank) size_le;
          word = omega arith;
        },
        refl,
        rw (length-replicate c blank) above,
        rw (length-replicate c blank, whole) (mod-eq_of_lt b_le),
      )
