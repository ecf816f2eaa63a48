-- ===== src/Sockets/Slots/Seek.antt =====
-- The loops that search the list for an id stop at the queue that holds it.
use mathlib.Core.Option.{or_else}
use belt_pp.Base.{
  ℕ, ◌+◌, ◌^◌, ◌<◌, ◌≡◌, refl, ap, ◌∙◌, arith, List, [], ◌∷◌, ◌++◌, Option, none, some, length,
  Bool, true, false, not, ◌&&◌, Result, ok, err, terminate,
}
use belt_pp.Base.Words.{size_mod}
use belt_pp.Queue.{Queue, valid_index}
use belt_pp.Queue.Model.{lookup_from}
use belt_pp.Queue.Refine.{Holds, at-Holds}
use belt_pp.Queue.Laws.{is_some, valid-Holds}
use belt_pp.Sockets.Slots.{Cursor, behind, seek, open_at}
use belt_pp.Sockets.Slots.Held.{
  Segment, ends, look, top, Held, lookup_inside, look_below, Held-le_top,
}

-- An element that is there and not closed.
abbrev pub is_open {ℓ} : {A : Type ℓ} → (A → Bool) → Option A → Bool
is_open closed none = false
is_open closed (some a) = not (closed a)

module _ {ℓ} {A : Type ℓ} (blank : A) where
  -- Where the list is split at the queue that has the id.
  pub record Found (lo : ℕ) (ss : List (Segment A)) (i : ℕ) (a : A) (c : Cursor A) : Type ℓ where
    pub earlier : List (Segment A)
    pub this : Segment A
    pub later : List (Segment A)
    pub whole : ss ≡ earlier ++ (this ∷ later)
    pub held_earlier : Held blank lo c.before earlier
    pub held_rest : Held blank (top lo earlier) (c.here ∷ c.after) (this ∷ later)
    pub hit : lookup_from this.base this.items i ≡ some a

  -- A test of a queue that asks for the element under an id.
  abbrev pub Asks : ℕ → (Option A → Bool) → (Queue A → Bool) → Type ℓ
  Asks i pick test =
      (q : Queue A) (base : ℕ) (items : List A)
      → Holds blank q base items
      → base + length items < 2 ^ 62
      → test q ≡ pick (lookup_from base items i)

  pub valid-Asks : (i : ℕ) → i < size_mod → Asks i is_some (λ q. valid_index q i)
  valid-Asks i word q base items h small = valid-Holds blank i h small word

  pub open-Asks :
      (closed : A → Bool) (i : ℕ) → i < size_mod → Asks i (is_open closed) (open_at closed i)
  unfolding open_at
  open-Asks closed i word q base items h small =
      rw (valid-Holds blank i h small word)
        (rw (at-Holds blank i h small word) (go (lookup_from base items i)))
    where
      go :
          (o : Option A)
          → (let r : Result A = elim o [ some a ↦ ok a | none ↦ err terminate ] in
              let t : Bool = elim r [ ok a ↦ not (closed a) | err _ ↦ false ] in
              (is_some o && t) ≡ is_open closed o)
      go none = refl
      go (some a) = refl

  module _ (i : ℕ) (pick : Option A → Bool) (test : Queue A → Bool) (asks : Asks i pick test)
      (nowhere : pick none ≡ false) where
    pub seek_there :
        (q : Queue A) (qs : List (Queue A))
        → test q ≡ true
        → seek test (q ∷ qs) ≡ some (record { before = []; here = q; after = qs })
    unfolding seek
    seek_there q qs e = rw e

    pub seek_past :
        (q : Queue A) (qs : List (Queue A))
        → test q ≡ false
        → seek test (q ∷ qs) ≡ behind q (seek test qs)
    unfolding seek
    seek_past q qs e = rw e

    seek-nil : seek test [] ≡ none
    unfolding seek
    seek-nil = refl

    pub seek_miss :
        (lo : ℕ) (qs : List (Queue A)) (ss : List (Segment A))
        → Held blank lo qs ss
        → top lo ss < 2 ^ 62
        → pick (look ss i) ≡ false
        → seek test qs ≡ none
    unfolding or_else
    seek_miss lo [] ss h small missed = seek-nil
    seek_miss lo (q ∷ qs) [] h small missed = absurd h.1
    seek_miss lo (q ∷ qs) (s ∷ ss) (holds, above, room, rest) small missed =
        let bound = Held-le_top blank (ends s) qs ss rest in
        let here = asks q s.base s.items holds (omega arith) in
        go (lookup_from s.base s.items i) refl here missed (seek_miss (ends s) qs ss rest small)
      where
        go :
            (o : Option A)
            → lookup_from s.base s.items i ≡ o
            → test q ≡ pick o
            → pick (or_else o (look ss i)) ≡ false
            → (pick (look ss i) ≡ false → seek test qs ≡ none)
            → seek test (q ∷ qs) ≡ none
        go none e here missed next = seek_past q qs (here ∙ nowhere) ∙ ap (behind q) (next missed)
        go (some a) e here missed next =
            let inside = lookup_inside s.base s.items i a e in
            let gone = look_below blank (ends s) qs ss i rest inside.1 in
            seek_past q qs (here ∙ missed) ∙ ap (behind q) (next (ap pick gone ∙ nowhere))

    pub seek_hit :
        (lo : ℕ) (qs : List (Queue A)) (ss : List (Segment A)) (a : A)
        → Held blank lo qs ss
        → top lo ss < 2 ^ 62
        → look ss i ≡ some a
        → pick (some a) ≡ true
        → (c : Cursor A) × (seek test qs ≡ some c) × Found lo ss i a c
    unfolding or_else
    seek_hit lo [] [] a h small there wanted = absurd (cc)
    seek_hit lo [] (s ∷ ss) a h small there wanted = absurd h.1
    seek_hit lo (q ∷ qs) [] a h small there wanted = absurd h.1
    seek_hit lo (q ∷ qs) (s ∷ ss) a (holds, above, room, rest) small there wanted =
        let bound = Held-le_top blank (ends s) qs ss rest in
        let here = asks q s.base s.items holds (omega arith) in
        go (lookup_from s.base s.items i) refl here there
          (λ t. seek_hit (ends s) qs ss a rest small t wanted)
      where
        go :
            (o : Option A)
            → lookup_from s.base s.items i ≡ o
            → test q ≡ pick o
            → or_else o (look ss i) ≡ some a
            → (look ss i ≡ some a
                → (c : Cursor A) × (seek test qs ≡ some c) × Found (ends s) ss i a c)
            → (c : Cursor A) × (seek test (q ∷ qs) ≡ some c) × Found lo (s ∷ ss) i a c
        go none e here there next =
            let (c, run, f) = next there in
            (
              record c { before = q ∷ c.before },
              seek_past q qs (here ∙ nowhere) ∙ ap (behind q) run,
              record {
                earlier = s ∷ f.earlier;
                this = f.this;
                later = f.later;
                whole = ap (◌∷◌ s) f.whole;
                held_earlier = (holds, above, room, f.held_earlier);
                held_rest = f.held_rest;
                hit = f.hit;
              },
            )
        go (some b) e here there next = (
          record { before = []; here = q; after = qs },
          seek_there q qs (here ∙ ap pick there ∙ wanted),
          record {
            earlier = [];
            this = s;
            later = ss;
            whole = refl;
            held_earlier = tt;
            held_rest = (holds, above, room, rest);
            hit = e ∙ there;
          },
        )
