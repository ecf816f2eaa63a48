-- ===== src/Sockets/Slots/Drain.antt =====
-- Popping the closed elements at the front of a queue, and putting the queue back into its list.
use belt_pp.Base.{
  ℕ, zero, suc, ◌+◌, ◌-◌, ◌^◌, ◌≤◌, ◌<◌, ◌≡◌, ◌≢◌, refl, ap, subst, ◌∙◌, arith, List, [], ◌∷◌,
  Option, none, some, length, leb, Bool, true, false, if◌then◌else◌, ok, dec_le, ℕ_discrete,
}
use belt_pp.Queue.{Queue, capacity, empty, front, pop}
use belt_pp.Queue.Model.{lookup_from}
use belt_pp.Queue.Refine.{Holds, size_lem}
use belt_pp.Queue.Laws.{empty-Holds, front-Holds, pop-Holds}
use belt_pp.Sockets.Slots.{drain, drain_from}
use belt_pp.Sockets.Slots.Held.{lookup_below}

-- The element unless it is closed.
abbrev pub open_of {ℓ} : {A : Type ℓ} → (A → Bool) → Option A → Option A
open_of closed none = none
open_of closed (some a) = if closed a then none else some a

module _ {ℓ} {A : Type ℓ} (blank : A) (closed : A → Bool) where
  lookup_shift :
      (base : ℕ) (x : A) (items : List A) (j : ℕ)
      → j ≢ base
      → lookup_from (suc base) items j ≡ lookup_from base (x ∷ items) j
  unfolding lookup_from
  lookup_shift base x items j ne = elim (dec_le base j) [
    | no below ↦
        let t : leb base j ≡ false = ground arith in
        let t' : leb (suc base) j ≡ false = ground arith in rw (t, t') refl
    | yes above ↦
        let t : leb base j ≡ true = ground arith in
        let t' : leb (suc base) j ≡ true = ground arith in
        let e : j - base ≡ suc (j - suc base) = omega arith in rw (t, t', e) refl
  ]

  lookup_first : (base : ℕ) (x : A) (items : List A) → lookup_from base (x ∷ items) base ≡ some x
  unfolding lookup_from
  lookup_first base x items =
      let t : leb base base ≡ true = ground arith in
      let e : base - base ≡ 0 = omega arith in rw (t, e) refl

  -- The same open elements under the same ids.
  pub record Drained (q : Queue A) (base : ℕ) (items : List A) (q' : Queue A) : Type ℓ where
    pub base' : ℕ
    pub items' : List A
    pub holds : Holds blank q' base' items'
    pub onward : base ≤ base'
    pub same_end : base' + length items' ≡ base + length items
    pub same_room : capacity q' ≡ capacity q
    pub same_open :
        (j : ℕ)
        → open_of closed (lookup_from base' items' j) ≡ open_of closed (lookup_from base items j)
    pub fewer : (j : ℕ) → lookup_from base items j ≡ none → lookup_from base' items' j ≡ none

  drain_empty : (fuel : ℕ) (q : Queue A) → empty q ≡ true → drain_from closed (suc fuel) q ≡ ok q
  unfolding drain_from
  drain_empty fuel q e = rw e

  drain_stop :
      (fuel : ℕ) (q : Queue A) (x : A)
      → empty q ≡ false
      → front q ≡ ok x
      → closed x ≡ false
      → drain_from closed (suc fuel) q ≡ ok q
  unfolding drain_from
  drain_stop fuel q x e f c = rw (e, f, c)

  drain_more :
      (fuel : ℕ) (q q' : Queue A) (x : A)
      → empty q ≡ false
      → front q ≡ ok x
      → closed x ≡ true
      → pop q ≡ ok q'
      → drain_from closed (suc fuel) q ≡ drain_from closed fuel q'
  unfolding drain_from
  drain_more fuel q q' x e f c p = rw (e, f, c, p)

  unmoved :
      {q : Queue A} {base : ℕ} {items : List A} → Holds blank q base items → Drained q base items q
  unmoved {q} {base} {items} h = record {
    base' = base;
    items' = items;
    holds = h;
    onward = omega arith;
    same_end = refl;
    same_room = refl;
    same_open = λ j. refl;
    fewer = λ j e. e;
  }

  drain_from-Drained :
      (fuel : ℕ) (items : List A) {q : Queue A} (base : ℕ)
      → Holds blank q base items
      → base + length items < 2 ^ 62
      → length items < fuel
      → (q' : Queue A) × (drain_from closed fuel q ≡ ok q') × Drained q base items q'
  drain_from-Drained zero items base h small enough = absurd (omega arith)
  drain_from-Drained (suc fuel) [] {q} base h small enough =
      (q, drain_empty fuel q (empty-Holds blank h), unmoved h)
  drain_from-Drained (suc fuel) (x ∷ items) {q} base h small enough =
      let (p, popped, holds, room) = pop-Holds blank h small in
      go (closed x) refl p popped room
        (drain_from-Drained fuel items (suc base) holds (omega arith) (omega arith))
    where
      go :
          (t : Bool)
          → closed x ≡ t
          → (p : Queue A) → pop q ≡ ok p
          → capacity p ≡ capacity q
          → (q' : Queue A) × (drain_from closed fuel p ≡ ok q') × Drained p (suc base) items q'
          → (q' : Queue A) × (drain_from closed (suc fuel) q ≡ ok q')
            × Drained q base (x ∷ items) q'
      go false c p popped room next =
          (q, drain_stop fuel q x (empty-Holds blank h) (front-Holds blank h) c, unmoved h)
      go true c p popped room (q', run, d) = (
        q',
        drain_more fuel q p x (empty-Holds blank h) (front-Holds blank h) c popped ∙ run,
        record {
          base' = d.base';
          items' = d.items';
          holds = d.holds;
          onward = let step = d.onward in omega arith;
          same_end = let step = d.same_end in omega arith;
          same_room = d.same_room ∙ room;
          same_open = λ j. d.same_open j ∙ elim (ℕ_discrete j base) [
            | yes e ↦
                rw (e, lookup_first base x items, c)
                  (ap (open_of closed) (lookup_below (suc base) items base (omega arith)))
            | no ne ↦ ap (open_of closed) (lookup_shift base x items j ne)
          ];
          fewer = λ j missing. elim (ℕ_discrete j base) [
            | yes e ↦ absurd (
                let there : lookup_from base (x ∷ items) base ≡ some x =
                  lookup_first base x items in
                let m = subst (λ k. lookup_from base (x ∷ items) k ≡ none) e missing in cc)
            | no ne ↦ d.fewer j (lookup_shift base x items j ne ∙ missing)
          ];
        },
      )

  pub drain-Drained :
      {q : Queue A} (base : ℕ) (items : List A)
      → Holds blank q base items
      → base + length items < 2 ^ 62
      → (q' : Queue A) × (drain closed q ≡ ok q') × Drained q base items q'
  unfolding drain
  drain-Drained {q} base items h small =
      let size = size_lem blank h in
      drain_from-Drained (suc q.size) items base h small (omega arith)
