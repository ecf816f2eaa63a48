-- ===== src/Sockets/Slots/Split.antt =====
-- The table at an iterator: an element is found, written in place, and its queue drained or erased.
use mathlib.Core.Option.{or_else}
use belt_pp.Base.{
  ℕ, ◌+◌, ◌-◌, ◌^◌, ◌≤◌, ◌<◌, ◌≡◌, refl, sym, ap, subst, ◌∙◌, arith, List, [], ◌∷◌, ◌++◌, Option,
  none, some, is_empty, set, leb, ◌==◌, Bool, true, false, not, ◌&&◌, if◌then◌else◌, ok, err,
  terminate, ℕ_discrete, get_elem?-set_self, get_elem?-set_ne, lt-get_elem?, length-set, dec_le,
}
use belt_pp.Base.Words.{size_mod}
use belt_pp.Queue.{Queue, capacity, empty, at, put}
use belt_pp.Queue.Model.{lookup_from}
use belt_pp.Queue.Refine.{Holds, at-Holds}
use belt_pp.Queue.Laws.{put-Holds, empty-Holds}
use belt_pp.Sockets.Slots.{Cursor, rebuild, erase_empty, drain, seek}
use belt_pp.Sockets.Slots.Held.{
  Segment, ends, look, top, Held, Held-le_top, Held-append, Held-lower, top-append, look-append,
  lookup_inside, look_below, look_above,
}
use belt_pp.Sockets.Slots.Seek.{Asks, seek_hit, seek_miss}
use belt_pp.Sockets.Slots.Drain.{open_of, drain-Drained}
use belt_pp.Sockets.Slots.Keeps.{Keeps, write}
use belt_pp.Sockets.Slots.Grow.{lookup-nil}

module _ {ℓ} {A : Type ℓ} where
  lookup-set :
      (base : ℕ) (items : List A) (i : ℕ) (a b : A) (j : ℕ)
      → lookup_from base items i ≡ some a
      → lookup_from base (set items (i - base) b) j ≡ write (lookup_from base items) i (some b) j
  unfolding lookup_from
  lookup-set base items i a b j hit =
      let (above, inside, here) = lookup_inside base items i a hit in
      elim (ℕ_discrete j i) [
        | yes e ↦
            let t : (i == i) ≡ true = ground arith in
            let u : leb base i ≡ true = ground arith in
            rw (e, t, u)
              (get_elem?-set_self items (i - base) b (lt-get_elem? items (i - base) here))
        | no ne ↦
            let t : (j == i) ≡ false = ground arith in
            rw t (elim (dec_le base j) [
              | yes up ↦
                  let u : leb base j ≡ true = ground arith in
                  rw u (get_elem?-set_ne items (i - base) (j - base) b (omega arith))
              | no down ↦ let u : leb base j ≡ false = ground arith in rw u refl
            ])
      ]

  write_middle :
      (f g h : ℕ → Option A) (i j : ℕ) (b : A)
      → f i ≡ none
      → or_else (f j) (or_else (write g i (some b) j) (h j))
        ≡ write (λ k. or_else (f k) (or_else (g k) (h k))) i (some b) j
  unfolding or_else
  write_middle f g h i j b free = elim (ℕ_discrete j i) [
    | yes e ↦ let t : (i == i) ≡ true = ground arith in rw (e, t, free) refl
    | no ne ↦ let t : (j == i) ≡ false = ground arith in rw t refl
  ]

  top-any :
      (blank : A) (lo lo' : ℕ) (r : Queue A) (rs : List (Queue A)) (ss : List (Segment A))
      → Held blank lo' (r ∷ rs) ss
      → top lo ss ≡ top lo' ss
  top-any blank lo lo' r rs [] h = absurd h.1
  top-any blank lo lo' r rs (s ∷ ss) h = refl

  erase_keep :
      (c : Cursor A) (q : Queue A) {t : Bool}
      → (empty q && not (is_empty c.after)) ≡ t
      → t ≡ false
      → erase_empty c q ≡ rebuild c q
  unfolding erase_empty
  erase_keep c q e f = rw (e, f)

  erase_gone :
      (c : Cursor A) (q : Queue A)
      → (empty q && not (is_empty c.after)) ≡ true
      → erase_empty c q ≡ c.before ++ c.after
  unfolding erase_empty
  erase_gone c q e = rw e

module _ {ℓ} {A : Type ℓ} (blank : A) where
  -- The table split at an iterator where the queue `q` stands.
  pub record Split (c : Cursor A) (q : Queue A) (n : ℕ) (f : ℕ → Option A) : Type ℓ where
    pub earlier : List (Segment A)
    pub this : Segment A
    pub later : List (Segment A)
    pub held_earlier : Held blank 0 c.before earlier
    pub holds : Holds blank q this.base this.items
    pub above : top 0 earlier ≤ this.base
    pub room : 0 < capacity q
    pub held_later : Held blank (ends this) c.after later
    pub same_top : top (ends this) later ≡ n
    pub same_look :
        (j : ℕ)
        → or_else (look earlier j) (or_else (lookup_from this.base this.items j) (look later j))
          ≡ f j

  module _ {c : Cursor A} {q : Queue A} {n : ℕ} {f : ℕ → Option A} where
    pub rebuild-Keeps : Split c q n f → Keeps blank (rebuild c q) n f
    rebuild-Keeps s = record {
      segments = s.earlier ++ (s.this ∷ s.later);
      held =
          Held-append blank 0 c.before (q ∷ c.after) s.earlier (s.this ∷ s.later) s.held_earlier
            (s.holds, s.above, s.room, s.held_later);
      same_top = top-append 0 s.earlier (s.this ∷ s.later) ∙ s.same_top;
      same_look = λ j. look-append s.earlier (s.this ∷ s.later) j ∙ s.same_look j;
    }

    erased-Keeps :
        (rs : List (Queue A))
        → c.after ≡ rs
        → (s : Split c q n f) → (items : List A) → s.this.items ≡ items
        → is_empty items ≡ true
        → is_empty rs ≡ false
        → Keeps blank (c.before ++ rs) n f
    unfolding or_else
    erased-Keeps [] e s items same void more = absurd (cc)
    erased-Keeps (r ∷ rs) e s (x ∷ items) same void more = absurd (cc)
    erased-Keeps (r ∷ rs) e s [] same void more =
        let rest = subst (λ qs. Held blank (ends s.this) qs s.later) e s.held_later in
        let above = s.above in
        let end_same : s.this.base ≡ ends s.this = rw same (omega arith) in
        record {
          segments = s.earlier ++ s.later;
          held = Held-append blank 0 c.before (r ∷ rs) s.earlier s.later s.held_earlier (
              Held-lower blank (ends s.this) (top 0 s.earlier) (r ∷ rs) s.later (omega arith) rest);
          same_top =
              top-append 0 s.earlier s.later
              ∙ top-any blank (top 0 s.earlier) (ends s.this) r rs s.later rest
              ∙ s.same_top;
          same_look = λ j.
              look-append s.earlier s.later j
              ∙ ap (λ o. or_else (look s.earlier j) (or_else o (look s.later j)))
                  (sym (ap (λ xs. lookup_from s.this.base xs j) same ∙ lookup-nil s.this.base j))
              ∙ s.same_look j;
        }

    -- The iterator's queue is put back, or leaves the list.
    pub erase_empty-Keeps : Split c q n f → Keeps blank (erase_empty c q) n f
    erase_empty-Keeps s = go (empty q) (is_empty c.after) refl refl
      where
        go : (t u : Bool) → empty q ≡ t → is_empty c.after ≡ u → Keeps blank (erase_empty c q) n f
        go false u e e' =
            subst (λ qs. Keeps blank qs n f) (sym (erase_keep c q (ground arith) refl))
              (rebuild-Keeps s)
        go true true e e' =
            subst (λ qs. Keeps blank qs n f) (sym (erase_keep c q (ground arith) refl))
              (rebuild-Keeps s)
        go true false e e' =
            subst (λ qs. Keeps blank qs n f) (sym (erase_gone c q (ground arith)))
              (erased-Keeps c.after refl s s.this.items refl (sym (empty-Holds blank s.holds) ∙ e)
                e')

  -- The loop that pops the closed elements leaves every open one under its id.
  pub drain-Split :
      (closed : A → Bool) {c : Cursor A} {q : Queue A} {n : ℕ} {f : ℕ → Option A}
      → Split c q n f
      → n < 2 ^ 61
      → (q' : Queue A) × (drain closed q ≡ ok q')
        × (f' : ℕ → Option A) × Split c q' n f'
        × ((j : ℕ) → open_of closed (f' j) ≡ open_of closed (f j))
  unfolding or_else
  drain-Split closed {c} {q} {n} {f} s small =
      let bound = Held-le_top blank (ends s.this) c.after s.later s.held_later in
      let t = s.same_top in
      let (q', run, d) =
        drain-Drained blank closed s.this.base s.this.items s.holds (omega arith) in
      let ends_same = d.same_end in
      let on = d.onward in
      let above = s.above in
      let room = s.room in
      let same_room = d.same_room in
      let f' : ℕ → Option A = λ j.
        or_else (look s.earlier j) (or_else (lookup_from d.base' d.items' j) (look s.later j)) in
      (
        q',
        run,
        f',
        record {
          earlier = s.earlier;
          this = record { base = d.base'; items = d.items' };
          later = s.later;
          held_earlier = s.held_earlier;
          holds = d.holds;
          above = omega arith;
          room = omega arith;
          held_later = subst (λ m. Held blank m c.after s.later) (sym ends_same) s.held_later;
          same_top = ap (λ m. top m s.later) ends_same ∙ t;
          same_look = λ j. refl;
        },
        λ j.
            opened (look s.earlier j) (or_else (lookup_from d.base' d.items' j) (look s.later j))
              (or_else (lookup_from s.this.base s.this.items j) (look s.later j))
              (inner j (lookup_from s.this.base s.this.items j) refl
                (lookup_from d.base' d.items' j) (d.same_open j) (d.fewer j))
            ∙ ap (open_of closed) (s.same_look j),
      )
    where
      opened :
          (o p r : Option A)
          → open_of closed p ≡ open_of closed r
          → open_of closed (or_else o p) ≡ open_of closed (or_else o r)
      opened none p r e = e
      opened (some a) p r e = refl

      inner :
          (j : ℕ) (o : Option A)
          → lookup_from s.this.base s.this.items j ≡ o
          → (o' : Option A) → open_of closed o' ≡ open_of closed o
          → (o ≡ none → o' ≡ none)
          → open_of closed (or_else o' (look s.later j))
            ≡ open_of closed (or_else o (look s.later j))
      inner j none e none same fewer = refl
      inner j none e (some b) same fewer = let gone = fewer refl in absurd (cc)
      inner j (some a) e (some b) same fewer = same
      inner j (some a) e none same fewer =
          let inside = lookup_inside s.this.base s.this.items j a e in
          ap (open_of closed)
            (look_below blank (ends s.this) c.after s.later j s.held_later inside.1)
          ∙ same

  -- A loop that searches for an id that has an element finds it, and a write through the iterator
  -- changes the element under that id alone.
  pub seek-Split :
      (i : ℕ) (a : A) {qs : List (Queue A)} {n : ℕ} {f : ℕ → Option A}
      → (pick : Option A → Bool) (test : Queue A → Bool) → Asks blank i pick test
      → pick none ≡ false
      → Keeps blank qs n f
      → n < 2 ^ 61
      → i < size_mod
      → f i ≡ some a
      → pick (some a) ≡ true
      → (c : Cursor A) × (seek test qs ≡ some c)
        × (at c.here i ≡ ok a)
        × ((b : A) → (q' : Queue A) × (put c.here i b ≡ ok q') × Split c q' n (write f i (some b)))
  seek-Split i a {qs} {n} {f} pick test asks nowhere k small word there wanted =
      let t = k.same_top in
      let (c, run, found) =
        seek_hit blank i pick test asks nowhere 0 qs k.segments a k.held (omega arith)
          (k.same_look i ∙ there) wanted in
      let (holds, above, room, rest) = found.held_rest in
      let s = found.this in
      let inside = lookup_inside s.base s.items i a found.hit in
      let top_same : top (ends s) found.later ≡ n =
        sym (top-append 0 found.earlier (s ∷ found.later)) ∙ ap (top 0) (sym found.whole) ∙ t in
      let bound = Held-le_top blank (ends s) c.after found.later rest in
      let fits : ends s < 2 ^ 62 = omega arith in
      (
        c,
        run,
        at-Holds blank i holds fits word
            ∙ ap (λ o. elim o [ some x ↦ ok x | none ↦ err terminate ]) found.hit,
        λ b.
            let (q', written, holds', same) = put-Holds blank i b a holds fits found.hit in
            (
              q',
              written,
              record {
                earlier = found.earlier;
                this = record { base = s.base; items = set s.items (i - s.base) b };
                later = found.later;
                held_earlier = found.held_earlier;
                holds = holds';
                above = above;
                room = omega arith;
                held_later =
                    subst (λ m. Held blank m c.after found.later)
                      (ap (λ m. s.base + m) (sym (length-set s.items (i - s.base) b))) rest;
                same_top =
                    ap (λ m. top (s.base + m) found.later) (length-set s.items (i - s.base) b)
                    ∙ top_same;
                same_look = λ j.
                    ap (λ o. or_else (look found.earlier j) (or_else o (look found.later j)))
                      (lookup-set s.base s.items i a b j found.hit)
                    ∙ write_middle (look found.earlier) (lookup_from s.base s.items)
                        (look found.later) i j b
                        (look_above blank 0 c.before found.earlier i found.held_earlier
                          (omega arith))
                    ∙ ap (λ o. if j == i then some b else o)
                        (sym (look-append found.earlier (s ∷ found.later) j)
                          ∙ ap (λ ss. look ss j) (sym found.whole)
                          ∙ k.same_look j);
              },
            ),
      )

  -- A loop that searches for an id without a fitting element ends.
  pub seek-none :
      (i : ℕ) {qs : List (Queue A)} {n : ℕ} {f : ℕ → Option A}
      → (pick : Option A → Bool) (test : Queue A → Bool) → Asks blank i pick test
      → pick none ≡ false
      → Keeps blank qs n f
      → n < 2 ^ 61
      → pick (f i) ≡ false
      → seek test qs ≡ none
  seek-none i {qs} pick test asks nowhere k small missed =
      let t = k.same_top in
      seek_miss blank i pick test asks nowhere 0 qs k.segments k.held (omega arith)
        (ap pick (k.same_look i) ∙ missed)
