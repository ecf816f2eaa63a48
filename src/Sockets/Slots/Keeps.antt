-- ===== src/Sockets/Slots/Keeps.antt =====
-- The list of queues as a table: the next id, and the element under each id.
use mathlib.Core.Option.{or_else}
use belt_pp.Base.{
  ℕ, suc, ◌^◌, ◌≤◌, ◌<◌, ◌≡◌, refl, sym, ap, ◌∙◌, arith, List, [], Option, none, some, ◌==◌, true,
  false, if◌then◌else◌, ok, ℕ_discrete,
}
use belt_pp.Queue.{Queue, capacity}
use belt_pp.Sockets.Slots.{make_room, push_last, next_id}
use belt_pp.Sockets.Slots.Held.{Segment, look, top, Held, look_above}
use belt_pp.Sockets.Slots.Grow.{HasRoom, next_id-Held, make_room-Widened, push_last-Pushed}

module _ {ℓ} {A : Type ℓ} where
  -- The table with another entry under one id.
  abbrev pub write : (ℕ → Option A) → ℕ → Option A → ℕ → Option A
  write f i o j = if j == i then o else f j

  write_add :
      (f : ℕ → Option A) (i : ℕ) (a : A) (j : ℕ)
      → f i ≡ none
      → or_else (f j) (if j == i then some a else none) ≡ write f i (some a) j
  unfolding or_else
  write_add f i a j free = elim (ℕ_discrete j i) [
    | yes e ↦ let t : (i == i) ≡ true = ground arith in rw (e, t, free) refl
    | no ne ↦ let t : (j == i) ≡ false = ground arith in rw t (go (f j))
  ]
    where
      go : (o : Option A) → or_else o none ≡ o
      go none = refl
      go (some b) = refl

module _ {ℓ} {A : Type ℓ} (blank : A) where
  -- `n` is the next id and `f` the element under each id.
  pub record Keeps (qs : List (Queue A)) (n : ℕ) (f : ℕ → Option A) : Type ℓ where
    pub segments : List (Segment A)
    pub held : Held blank 0 qs segments
    pub same_top : top 0 segments ≡ n
    pub same_look : (j : ℕ) → look segments j ≡ f j

  pub Keeps-nil : Keeps [] 0 (λ j. none)
  Keeps-nil = record { segments = []; held = tt; same_top = refl; same_look = λ j. refl }

  pub Keeps-beyond :
      {qs : List (Queue A)} {n : ℕ} {f : ℕ → Option A} (j : ℕ) → Keeps qs n f → n ≤ j → f j ≡ none
  Keeps-beyond {qs} j k beyond =
      let t = k.same_top in
      sym (k.same_look j) ∙ look_above blank 0 qs k.segments j k.held (omega arith)

  module _ {qs : List (Queue A)} {n : ℕ} {f : ℕ → Option A} where
    pub make_room-Keeps :
        (capacity : ℕ)
        → 0 < capacity
        → capacity ≤ 2 ^ 63
        → Keeps qs n f
        → n < 2 ^ 61
        → (qs' : List (Queue A)) × (make_room blank capacity qs ≡ ok qs')
          × Keeps qs' n f
          × HasRoom qs'
          × (next_id qs' ≡ n)
    make_room-Keeps capacity pos fits k small =
        let t = k.same_top in
        let (qs', run, w) =
          make_room-Widened blank capacity qs k.segments pos fits k.held (omega arith) in
        let t' = w.same_top in
        (
          qs',
          run,
          record {
            segments = w.segments;
            held = w.held;
            same_top = t' ∙ t;
            same_look = λ j. w.same_look j ∙ k.same_look j;
          },
          w.has_room,
          next_id-Held blank 0 qs' w.segments w.held w.has_room (omega arith) ∙ t' ∙ t,
        )

    pub push_last-Keeps :
        (a : A)
        → Keeps qs n f
        → HasRoom qs
        → (qs' : List (Queue A)) × (push_last blank a qs ≡ ok qs')
          × Keeps qs' (suc n) (write f n (some a))
    push_last-Keeps a k room =
        let t = k.same_top in
        let (qs', run, p) = push_last-Pushed blank 0 qs k.segments a k.held room in
        (
          qs',
          run,
          record {
            segments = p.segments;
            held = p.held;
            same_top = p.next_top ∙ ap suc t;
            same_look = λ j.
                p.added j
                ∙ ap (λ o. or_else o (if j == top 0 k.segments then some a else none))
                    (k.same_look j)
                ∙ ap (λ m. or_else (f j) (if j == m then some a else none)) t
                ∙ write_add f n a j (Keeps-beyond n k (omega arith));
          },
        )
