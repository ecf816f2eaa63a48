-- ===== src/Sockets/Slots/Grow.antt =====
-- Adding an element behind the last, with a new queue for it when the last is full.
use mathlib.Core.Option.{or_else}
use belt_pp.Base.{
  ℕ, suc, ◌+◌, ◌-◌, ◌^◌, ◌≤◌, ◌<◌, ◌≡◌, refl, sym, ap, ◌∙◌, arith, List, [], ◌∷◌, ◌++◌, Option,
  none, some, length, length-append, get_elem?, leb, ◌==◌, true, false, if◌then◌else◌, ok, dec_le,
  dec_lt, ℕ_discrete, get_elem?-append_left, get_elem?-append_last,
}
use belt_pp.Base.Words.{mul_size}
use belt_pp.Queue.{Queue, capacity, full, push, end_index, construct}
use belt_pp.Queue.Model.{lookup_from}
use belt_pp.Queue.Refine.{size_lem, get_elem?_beyond}
use belt_pp.Queue.Laws.{end-Holds, push-Holds, construct-Holds}
use belt_pp.Sockets.Slots.{next_id, first_queue, widen, make_room, push_last}
use belt_pp.Sockets.Slots.Held.{Segment, ends, look, top, Held, or_else_assoc}

module _ {ℓ} {A : Type ℓ} where
  -- The last queue is not full.
  abbrev pub HasRoom : List (Queue A) → Type 0
  HasRoom [] = ⊥
  HasRoom (q ∷ []) = q.size < capacity q
  HasRoom (q ∷ (r ∷ qs)) = HasRoom (r ∷ qs)

  or_else_right : (o : Option A) → o ≡ or_else o none
  unfolding or_else
  or_else_right none = refl
  or_else_right (some a) = refl

  HasRoom-cons : (q : Queue A) (qs : List (Queue A)) → HasRoom qs → HasRoom (q ∷ qs)
  HasRoom-cons q [] h = absurd h
  HasRoom-cons q (r ∷ qs) h = h

  pub lookup-nil : (base j : ℕ) → lookup_from {A = A} base [] j ≡ none
  unfolding lookup_from
  lookup-nil base j = elim (dec_le base j) [
    | no below ↦ let t : leb base j ≡ false = ground arith in rw t refl
    | yes above ↦ let t : leb base j ≡ true = ground arith in rw t refl
  ]

  pub lookup-last :
      (base : ℕ) (items : List A) (a : A) (j : ℕ)
      → lookup_from base (items ++ (a ∷ [])) j
        ≡ or_else (lookup_from base items j) (if j == base + length items then some a else none)
  unfolding lookup_from or_else
  lookup-last base items a j = elim (dec_le base j) [
    | no below ↦
        let t : leb base j ≡ false = ground arith in
        let s : (j == base + length items) ≡ false = ground arith in rw (t, s) refl
    | yes above ↦
        let t : leb base j ≡ true = ground arith in
        rw t (elim (dec_lt (j - base) (length items)) [
          | yes inside ↦
              let s : (j == base + length items) ≡ false = ground arith in
              let e = get_elem?-append_left items (a ∷ []) (j - base) inside in
              rw (s, e) (or_else_right (get_elem? items (j - base)))
          | no outside ↦
              rw (get_elem?_beyond items (j - base) (omega arith))
                (elim (ℕ_discrete (j - base) (length items)) [
                  | yes e ↦
                      let s : (j == base + length items) ≡ true = ground arith in
                      rw (s, e) (get_elem?-append_last items a)
                  | no ne ↦
                      let s : (j == base + length items) ≡ false = ground arith in
                      rw s (
                        get_elem?_beyond (items ++ (a ∷ [])) (j - base)
                          (omega (arith, length-append items (a ∷ []))))
                ])
        ])
  ]

module _ {ℓ} {A : Type ℓ} (blank : A) where
  pub next_id-Held :
      (lo : ℕ) (qs : List (Queue A)) (ss : List (Segment A))
      → Held blank lo qs ss
      → HasRoom qs
      → top lo ss < 2 ^ 62
      → next_id qs ≡ top lo ss
  unfolding next_id
  next_id-Held lo [] ss h room small = absurd room
  next_id-Held lo (q ∷ qs) [] h room small = absurd h.1
  next_id-Held lo (q ∷ []) (s ∷ []) (holds, _, _, _) room small = end-Holds blank holds small
  next_id-Held lo (q ∷ []) (s ∷ (t ∷ ss)) h room small = absurd h.3.1
  next_id-Held lo (q ∷ (r ∷ qs)) (s ∷ ss) (_, _, _, rest) room small =
      next_id-Held (ends s) (r ∷ qs) ss rest room small

  -- The same elements, in a list with room.
  pub record Widened (lo : ℕ) (ss : List (Segment A)) (qs' : List (Queue A)) : Type ℓ where
    pub segments : List (Segment A)
    pub held : Held blank lo qs' segments
    pub same_top : top lo segments ≡ top lo ss
    pub same_look : (j : ℕ) → look segments j ≡ look ss j
    pub has_room : HasRoom qs'

  widen_roomy : (q : Queue A) → full q ≡ false → widen blank (q ∷ []) ≡ ok (q ∷ [])
  unfolding widen
  widen_roomy q e = rw e

  widen_filled :
      (q r : Queue A)
      → full q ≡ true
      → construct blank (mul_size q.size 2) (end_index q) 0 ≡ ok r
      → widen blank (q ∷ []) ≡ ok (q ∷ (r ∷ []))
  unfolding widen
  widen_filled q r e made = rw (e, made)

  widen_later :
      (q r : Queue A) (qs rest : List (Queue A))
      → widen blank (r ∷ qs) ≡ ok rest
      → widen blank (q ∷ (r ∷ qs)) ≡ ok (q ∷ rest)
  unfolding widen
  widen_later q r qs rest e = rw (e, widen)

  widen_one :
      (lo : ℕ) (q : Queue A) (s : Segment A)
      → Held blank lo (q ∷ []) (s ∷ [])
      → ends s < 2 ^ 61
      → (qs' : List (Queue A)) × (widen blank (q ∷ []) ≡ ok qs') × Widened lo (s ∷ []) qs'
  unfolding full or_else
  widen_one lo q s (holds, above, room, _) small =
      let size = size_lem blank holds in
      elim (ℕ_discrete q.size (capacity q)) [
        | no some_left ↦
            let v = holds.valid in
            let fits = v.fits in
            (
              q ∷ [],
              widen_roomy q (ground arith),
              record {
                segments = s ∷ [];
                held = (holds, above, room, tt);
                same_top = refl;
                same_look = λ j. refl;
                has_room = omega arith;
              },
            )
        | yes none_left ↦
            let last = end-Holds blank holds (omega arith) in
            let (r, made, fresh, some_room) =
              construct-Holds blank (mul_size q.size 2) (end_index q) (omega arith) (omega arith)
                (omega arith) in
            (
              q ∷ (r ∷ []),
              widen_filled q r (ground arith) made,
              record {
                segments = s ∷ (record { base = end_index q; items = [] } ∷ []);
                held = (holds, above, room, (fresh, omega arith, some_room, tt));
                same_top = omega arith;
                same_look = λ j.
                    ap (λ o. or_else (lookup_from s.base s.items j) (or_else o none))
                      (lookup-nil (end_index q) j);
                has_room = let size' = size_lem blank fresh in omega arith;
              },
            )
      ]

  widen-Widened :
      (lo : ℕ) (q : Queue A) (qs : List (Queue A)) (ss : List (Segment A))
      → Held blank lo (q ∷ qs) ss
      → top lo ss < 2 ^ 61
      → (qs' : List (Queue A)) × (widen blank (q ∷ qs) ≡ ok qs') × Widened lo ss qs'
  unfolding or_else
  widen-Widened lo q qs [] h small = absurd h.1
  widen-Widened lo q [] (s ∷ []) h small = widen_one lo q s h small
  widen-Widened lo q [] (s ∷ (t ∷ ss)) h small = absurd h.3.1
  widen-Widened lo q (r ∷ qs) (s ∷ ss) (holds, above, room, rest) small =
      let (rest', run, w) = widen-Widened (ends s) r qs ss rest small in
      (
        q ∷ rest',
        widen_later q r qs rest' run,
        record {
          segments = s ∷ w.segments;
          held = (holds, above, room, w.held);
          same_top = w.same_top;
          same_look = λ j. ap (or_else (lookup_from s.base s.items j)) (w.same_look j);
          has_room = HasRoom-cons q rest' w.has_room;
        },
      )

  pub make_room-Widened :
      (capacity : ℕ) (qs : List (Queue A)) (ss : List (Segment A))
      → 0 < capacity
      → capacity ≤ 2 ^ 63
      → Held blank 0 qs ss
      → top 0 ss < 2 ^ 61
      → (qs' : List (Queue A)) × (make_room blank capacity qs ≡ ok qs') × Widened 0 ss qs'
  unfolding make_room first_queue or_else
  make_room-Widened capacity [] [] pos fits h small =
      let (q, made, fresh, room) = construct-Holds blank capacity 0 pos fits (omega arith) in
      let s : Segment A = record { base = 0; items = [] } in
      let (qs', run, w) = widen_one 0 q s (fresh, omega arith, room, tt) (omega arith) in
      (
        qs',
        rw made run,
        record {
          segments = w.segments;
          held = w.held;
          same_top = w.same_top;
          same_look = λ j. w.same_look j ∙ ap (λ o. or_else o none) (lookup-nil 0 j);
          has_room = w.has_room;
        },
      )
  make_room-Widened capacity [] (s ∷ ss) pos fits h small = absurd h.1
  make_room-Widened capacity (q ∷ qs) ss pos fits h small = widen-Widened 0 q qs ss h small

  -- One more element, under the id that was the next.
  pub record Pushed (lo : ℕ) (ss : List (Segment A)) (a : A) (qs' : List (Queue A)) : Type ℓ where
    pub segments : List (Segment A)
    pub held : Held blank lo qs' segments
    pub next_top : top lo segments ≡ suc (top lo ss)
    pub added :
        (j : ℕ) → look segments j ≡ or_else (look ss j) (if j == top lo ss then some a else none)

  push_one :
      (q q' : Queue A) (a : A) → push blank q a ≡ ok q' → push_last blank a (q ∷ []) ≡ ok (q' ∷ [])
  unfolding push_last
  push_one q q' a e = rw e

  push_later :
      (q r : Queue A) (qs rest : List (Queue A)) (a : A)
      → push_last blank a (r ∷ qs) ≡ ok rest
      → push_last blank a (q ∷ (r ∷ qs)) ≡ ok (q ∷ rest)
  unfolding push_last
  push_later q r qs rest a e = rw (e, push_last)

  pub push_last-Pushed :
      (lo : ℕ) (qs : List (Queue A)) (ss : List (Segment A)) (a : A)
      → Held blank lo qs ss
      → HasRoom qs
      → (qs' : List (Queue A)) × (push_last blank a qs ≡ ok qs') × Pushed lo ss a qs'
  unfolding or_else
  push_last-Pushed lo [] ss a h room = absurd room
  push_last-Pushed lo (q ∷ qs) [] a h room = absurd h.1
  push_last-Pushed lo (q ∷ []) (s ∷ []) a (holds, above, pos, _) room =
      let (q', pushed, holds', same) = push-Holds blank a holds room in
      (
        q' ∷ [],
        push_one q q' a pushed,
        record {
          segments = record { base = s.base; items = s.items ++ (a ∷ []) } ∷ [];
          held = (holds', above, omega arith, tt);
          next_top = omega (arith, length-append s.items (a ∷ []));
          added = λ j.
              ap (λ o. or_else o none) (lookup-last s.base s.items a j)
              ∙ sym (or_else_right _)
              ∙ ap (λ o. or_else o (if j == ends s then some a else none))
                  (or_else_right (lookup_from s.base s.items j));
        },
      )
  push_last-Pushed lo (q ∷ []) (s ∷ (t ∷ ss)) a h room = absurd h.3.1
  push_last-Pushed lo (q ∷ (r ∷ qs)) (s ∷ ss) a (holds, above, pos, rest) room =
      let (rest', run, p) = push_last-Pushed (ends s) (r ∷ qs) ss a rest room in
      (
        q ∷ rest',
        push_later q r qs rest' a run,
        record {
          segments = s ∷ p.segments;
          held = (holds, above, pos, p.held);
          next_top = p.next_top;
          added = λ j.
              ap (or_else (lookup_from s.base s.items j)) (p.added j)
              ∙ or_else_assoc (lookup_from s.base s.items j) (look ss j)
                  (if j == top (ends s) ss then some a else none);
        },
      )
