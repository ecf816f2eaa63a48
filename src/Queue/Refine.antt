-- ===== src/Queue/Refine.antt =====
-- The ring buffer behaves as the sequence of `Model`.
use mathlib.Core.List.{tail}
use belt_pp.Base.{
  ℕ, zero, suc, ◌+◌, ◌-◌, ◌^◌, ◌≤◌, ◌<◌, ◌≡◌, refl, sym, ◌∙◌, ap, arith, List, [], ◌∷◌, ◌++◌,
  Option, none, some, length, length-append, get_elem?, Result, ok, err, terminate, leb, true,
  false, dec_le, dec_lt,
}
use belt_pp.Base.Words.{size_mod, add_size}
use belt_pp.Queue.{Queue, begin_index, at, pop, push}
use belt_pp.Queue.Contents.{IsValid, slot, length-span, get_elem?-span, contents}
use belt_pp.Queue.Ends.{pop_lem}
use belt_pp.Queue.Indices.{end_lem, at_lem, at_outside}
use belt_pp.Queue.Push.{push_lem, WrapsFull}
use belt_pp.Queue.Model
use belt_pp.Queue.Model.{Op, put_back, drop_front, read, Reply, done, value, failed, lookup_from}

module _ {ℓ} {A : Type ℓ} where
  pop_empty : (q : Queue A) → q.size ≡ 0 → pop q ≡ err terminate
  unfolding pop
  pop_empty q none_held = rw none_held

  pub get_elem?_beyond : (xs : List A) (i : ℕ) → length xs ≤ i → get_elem? xs i ≡ none
  get_elem?_beyond [] i h = refl
  get_elem?_beyond (x ∷ xs) zero h = absurd (omega arith)
  get_elem?_beyond (x ∷ xs) (suc i) h = get_elem?_beyond xs i (omega arith)

module _ {ℓ} {A : Type ℓ} (blank : A) where
  -- A client's calls in order, with what each of them answers.
  unfoldable pub run : Queue A → List (Op A) → List (Reply A)
  run q [] = []
  run q (put_back a ∷ ops) =
      let rest = λ (q' : Queue A). run q' ops in
      elim (push blank q a) [ ok q' ↦ done ∷ rest q' | err f ↦ failed f ∷ [] ]
  run q (drop_front ∷ ops) =
      let rest = λ (q' : Queue A). run q' ops in
      elim (pop q) [ ok q' ↦ done ∷ rest q' | err f ↦ failed f ∷ [] ]
  run q (read i ∷ ops) =
      let rest = run q ops in elim (at q i) [ ok a ↦ value a ∷ rest | err f ↦ failed f ∷ [] ]

  run-nil : (q : Queue A) → run q [] ≡ []
  unfolding run
  run-nil q = refl

  run-push :
      (q q' : Queue A) (a : A) (ops : List (Op A))
      → push blank q a ≡ ok q'
      → run q (put_back a ∷ ops) ≡ done ∷ run q' ops
  unfolding run
  run-push q q' a ops e = rw (e, run)

  run-pop :
      (q : Queue A) (ops : List (Op A)) (r : Result (Queue A))
      → pop q ≡ r
      → run q (drop_front ∷ ops) ≡ elim r [ ok q' ↦ done ∷ run q' ops | err f ↦ failed f ∷ [] ]
  unfolding run
  run-pop q ops (ok q') e = rw (e, run)
  run-pop q ops (err f) e = rw (e, run)

  run-read :
      (q : Queue A) (i : ℕ) (ops : List (Op A)) (o : Option A)
      → at q i ≡ elim o [ some a ↦ ok a | none ↦ err terminate ]
      → run q (read i ∷ ops)
        ≡ elim o [ some a ↦ value a ∷ run q ops | none ↦ failed terminate ∷ [] ]
  unfolding run
  run-read q i ops (some a) e = rw (e, run)
  run-read q i ops none e = rw (e, run)

  -- The queue holds `items`, the oldest under the index `base`.
  pub record Holds (q : Queue A) (base : ℕ) (items : List A) : Type ℓ where
    pub valid : IsValid q
    pub from : begin_index q ≡ base
    pub same : contents blank q ≡ items

  pub size_lem :
      {q : Queue A} {base : ℕ} {items : List A} → Holds q base items → q.size ≡ length items
  size_lem {q} h = sym (length-span (slot blank q.buf) q.start q.size) ∙ ap length h.same

  pub at_inside :
      {q : Queue A} {base : ℕ} {items : List A} (i : ℕ)
      → Holds q base items
      → base + length items < 2 ^ 62
      → base ≤ i
      → i - base < length items
      → at q i ≡ elim (get_elem? items (i - base)) [ some a ↦ ok a | none ↦ err terminate ]
  at_inside {q} {base} {items} i h small above below =
      let k = i - base in
      let from = h.from in
      let e : i ≡ add_size (begin_index q) k = omega arith in
      let inside : k < q.size = rw (size_lem h) below in
      let found : get_elem? items k ≡ some (slot blank q.buf (q.start + k)) =
        ap (λ xs. get_elem? xs k) (sym h.same)
        ∙ get_elem?-span (slot blank q.buf) q.start q.size k inside in
      rw found (ap (at q) e ∙ at_lem blank k h.valid inside)

  pub at-Holds :
      {q : Queue A} {base : ℕ} {items : List A} (i : ℕ)
      → Holds q base items
      → base + length items < 2 ^ 62
      → i < size_mod
      → at q i ≡ elim (lookup_from base items i) [ some a ↦ ok a | none ↦ err terminate ]
  unfolding lookup_from
  at-Holds {q} {base} {items} i h small word = elim (dec_le base i) [
    | no below ↦
        let from = h.from in
        let size = size_lem h in
        let test : leb base i ≡ false = ground arith in
        rw test (at_outside blank i h.valid word (omega arith))
    | yes above ↦
        let test : leb base i ≡ true = ground arith in
        rw test (elim (dec_lt (i - base) (length items)) [
          | yes inside ↦ at_inside i h small above inside
          | no outside ↦
              let from = h.from in
              let size = size_lem h in
              rw (get_elem?_beyond items (i - base) (omega arith))
                (at_outside blank i h.valid word (omega arith))
        ])
  ]

  pub no_wrap :
      {q : Queue A} {base : ℕ} {items : List A}
      → Holds q base items
      → base + length items < 2 ^ 62
      → ¬ WrapsFull q
  no_wrap {q} h small (some_held, _, zero_end) =
      let from = h.from in let size = size_lem h in let e = end_lem q in omega arith

  -- Every index that the client reads is a `size_t`.
  abbrev pub ReadsWords : List (Op A) → Type 0
  ReadsWords [] = Unit {0}
  ReadsWords (put_back a ∷ ops) = ReadsWords ops
  ReadsWords (drop_front ∷ ops) = ReadsWords ops
  ReadsWords (read i ∷ ops) = (i < size_mod) × ReadsWords ops

  -- As long as fewer than 2 ^ 62 elements are pushed, no sequence of pushes, pops and reads by
  -- index tells a queue from the sequence that it holds: every call answers alike, the calls that
  -- end the program included.
  pub run_refines :
      (ops : List (Op A)) {q : Queue A} (base : ℕ) (items : List A)
      → Holds q base items
      → base + length items + length ops < 2 ^ 62
      → ReadsWords ops
      → run q ops ≡ Model.run base items ops
  unfolding Model.run
  run_refines [] {q} base items h small words = run-nil q
  run_refines (put_back a ∷ ops) {q} base items h small words =
      let size = size_lem h in
      let (q', pushed, valid, added, first, _) =
        push_lem blank a h.valid (omega arith) (no_wrap h (omega arith)) in
      let h' : Holds q' base (items ++ (a ∷ [])) = record {
        valid = valid;
        from = first ∙ h.from;
        same = added ∙ ap (λ xs. xs ++ (a ∷ [])) h.same;
      } in
      run-push q q' a ops pushed
      ∙ ap (◌∷◌ done) (
          run_refines ops base (items ++ (a ∷ [])) h' (omega (arith, length-append items (a ∷ [])))
            words)
  run_refines (drop_front ∷ ops) {q} base [] h small words =
      run-pop q ops _ (pop_empty q (size_lem h))
  run_refines (drop_front ∷ ops) {q} base (x ∷ items) h small words =
      let size = size_lem h in
      let (q', popped, valid, split, first, _, _) =
        pop_lem blank h.valid (let p : 0 < q.size = omega arith in p) in
      let tail_same : contents blank q' ≡ items = ap tail (sym split ∙ h.same) in
      let from = h.from in
      let h' : Holds q' (suc base) items = record {
        valid = valid;
        from = first ∙ omega arith;
        same = tail_same;
      } in
      run-pop q ops _ popped
      ∙ ap (◌∷◌ done) (run_refines ops (suc base) items h' (omega arith) words)
  run_refines (read i ∷ ops) {q} base items h small words =
      run-read q i ops (lookup_from base items i) (at-Holds i h (omega arith) words.0)
      ∙ ap
          (λ (rest : List (Reply A)).
            let r : List (Reply A) = elim (lookup_from base items i) [
              | some a ↦ value a ∷ rest
              | none ↦ failed terminate ∷ []
            ] in
            r)
          (run_refines ops base items h (omega arith) words.1)
