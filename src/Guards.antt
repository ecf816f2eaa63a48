-- ===== src/Guards.antt =====
-- belt.pp/scope_helper.hpp: `on_failure` and `finally`, a program's guards in the order in which it
-- makes them. A cleanup is what its `std::function` runs; a call on a guard that was not made
-- changes nothing. A cleanup that throws in a destructor ends the program, so none does so here.
use belt_pp.Base.{
  ℕ, ◌≡◌, ◌≢◌, refl, ap, ◌∙◌, Bool, true, List, [], ◌∷◌, ◌++◌, Option, none, some, set, get_elem?,
  length, if◌then◌else◌, if_cases, length-append, ◌+◌, append-nil, get_elem?-append_left,
  get_elem?-append_last, get_elem?-set_self, get_elem?-set_ne, lt-get_elem?, arith,
}

-- `m_cleanup` of each guard, and what has run.
pub record Guards {ℓ} (C : Type ℓ) : Type ℓ where
  pub cleanups : List (Option C)
  pub ran : List C

-- A call on a guard; `move_assign` is given whether the cleanup that it runs throws.
pub data Call {ℓ} (C : Type ℓ) : Type ℓ where
  make : Option C → Call C
  move_make dismiss destroy : ℕ → Call C
  move_assign : ℕ → ℕ → Bool → Call C

abbrev listed {ℓ} : {C : Type ℓ} → Option C → List C
listed none = []
listed (some c) = c ∷ []

-- What a guard has; one that was not made has nothing.
abbrev cleanup_of {ℓ} : {C : Type ℓ} → Option (Option C) → Option C
cleanup_of none = none
cleanup_of (some c) = c

module _ {ℓ} {C : Type ℓ} where
  abbrev has : Guards C → ℕ → Option C
  has g i = cleanup_of (get_elem? g.cleanups i)

  -- The constructors.
  unfoldable pub construct_guard : Option C → Guards C → Guards C
  construct_guard c g = record g { cleanups = g.cleanups ++ (c ∷ []) }

  unfoldable pub construct_from : ℕ → Guards C → Guards C
  construct_from other g = record g { cleanups = set (g.cleanups ++ (has g other ∷ [])) other none }

  -- `dismiss`.
  unfoldable pub dismiss_guard : ℕ → Guards C → Guards C
  dismiss_guard i g = record g { cleanups = set g.cleanups i none }

  -- The destructor; a guard is not used behind it.
  unfoldable pub destroy_guard : ℕ → Guards C → Guards C
  destroy_guard i g = record { cleanups = set g.cleanups i none; ran = g.ran ++ listed (has g i) }

  -- The assignment: the cleanup runs, and that of the other takes its place, unless it throws.
  unfoldable pub assign_guard : ℕ → ℕ → Bool → Guards C → Guards C
  assign_guard i other throws g =
      let moved = set (set g.cleanups i (has g other)) other none in
      elim (get_elem? g.cleanups i) [
        | none ↦ g
        | some none ↦ record g { cleanups = moved }
        | some (some c) ↦ record {
          cleanups = if throws then g.cleanups else moved;
          ran = g.ran ++ (c ∷ []);
        }
      ]

  unfoldable pub call : Call C → Guards C → Guards C
  call (make c) g = construct_guard c g
  call (move_make other) g = construct_from other g
  call (dismiss i) g = dismiss_guard i g
  call (destroy i) g = destroy_guard i g
  call (move_assign i other throws) g = assign_guard i other throws g

  unfoldable pub calls : List (Call C) → Guards C → Guards C
  calls [] g = g
  calls (c ∷ cs) g = calls cs (call c g)

  -- A call that is not on guard `i`, and does not move from it.
  abbrev pub Spares : ℕ → Call C → Type 0
  Spares i (make c) = Unit {0}
  Spares i (move_make other) = other ≢ i
  Spares i (dismiss j) = j ≢ i
  Spares i (destroy j) = j ≢ i
  Spares i (move_assign j other throws) = (j ≢ i) × (other ≢ i)

  abbrev pub AllSpare : ℕ → List (Call C) → Type 0
  AllSpare i [] = Unit {0}
  AllSpare i (c ∷ cs) = Spares i c × AllSpare i cs

  -- Such a call leaves what the guard has.
  call-keeps :
      (i : ℕ) (v : Option C) (c : Call C) (g : Guards C)
      → get_elem? g.cleanups i ≡ some v
      → Spares i c
      → get_elem? (call c g).cleanups i ≡ some v
  unfolding call construct_guard construct_from dismiss_guard destroy_guard assign_guard
  call-keeps i v (make c) g e s =
      get_elem?-append_left g.cleanups (c ∷ []) i (lt-get_elem? g.cleanups i e) ∙ e
  call-keeps i v (move_make other) g e s =
      get_elem?-set_ne (g.cleanups ++ (has g other ∷ [])) other i none s
      ∙ get_elem?-append_left g.cleanups (has g other ∷ []) i (lt-get_elem? g.cleanups i e)
      ∙ e
  call-keeps i v (dismiss j) g e s = get_elem?-set_ne g.cleanups j i none s ∙ e
  call-keeps i v (destroy j) g e s = get_elem?-set_ne g.cleanups j i none s ∙ e
  call-keeps i v (move_assign j other throws) g e (s, t) = go (get_elem? g.cleanups j)
    where
      moved : get_elem? (set (set g.cleanups j (has g other)) other none) i ≡ some v
      moved =
          get_elem?-set_ne (set g.cleanups j (has g other)) other i none t
          ∙ get_elem?-set_ne g.cleanups j i (has g other) s
          ∙ e

      go :
          (o : Option (Option C))
          → (let after : Guards C = elim o [
            | none ↦ g
            | some none ↦ record g { cleanups = set (set g.cleanups j (has g other)) other none }
            | some (some c) ↦ record {
              cleanups =
                  if throws then g.cleanups else set (set g.cleanups j (has g other)) other none;
              ran = g.ran ++ (c ∷ []);
            }
          ] in
              get_elem? after.cleanups i ≡ some v)
      go none = e
      go (some none) = moved
      go (some (some c)) =
          if_cases (λ xs. get_elem? xs i ≡ some v) throws g.cleanups _ (λ _. e) (λ _. moved)

  calls-keep :
      (i : ℕ) (v : Option C) (cs : List (Call C)) (g : Guards C)
      → get_elem? g.cleanups i ≡ some v
      → AllSpare i cs
      → get_elem? (calls cs g).cleanups i ≡ some v
  unfolding calls
  calls-keep i v [] g e s = e
  calls-keep i v (c ∷ cs) g e (s, ss) = calls-keep i v cs (call c g) (call-keeps i v c g e s) ss

  assign_some :
      (i other : ℕ) (throws : Bool) (c : C) (g : Guards C)
      → get_elem? g.cleanups i ≡ some (some c)
      → call (move_assign i other throws) g ≡ record {
        cleanups = if throws then g.cleanups else set (set g.cleanups i (has g other)) other none;
        ran = g.ran ++ (c ∷ []);
      }
  unfolding call assign_guard
  assign_some i other throws c g e = rw (e, call, assign_guard) refl

  -- A guard is made with a cleanup, and then come any calls on other guards, which do not move from
  -- it, the cleanups that assignments run throwing or not. If the guard is destroyed then, its
  -- destructor runs its cleanup and nothing else. If it is dismissed before, its destructor runs
  -- nothing. If a new guard is made from it, its destructor runs nothing and that of the new guard
  -- runs the cleanup. If a guard is assigned to it, its cleanup runs, and runs again in its destructor
  -- when it threw in the assignment.
  pub calls_lem :
      (c : C) (cs : List (Call C)) (g : Guards C)
      → AllSpare (length g.cleanups) cs
      → let i = length g.cleanups in
        let s = calls cs (call (make (some c)) g) in
        let j = length s.cleanups in
        ((call (destroy i) s).ran ≡ s.ran ++ (c ∷ []))
        × ((call (destroy i) (call (dismiss i) s)).ran ≡ s.ran)
        × ((call (destroy i) (call (move_make i) s)).ran ≡ s.ran)
        × ((call (destroy j) (call (move_make i) s)).ran ≡ s.ran ++ (c ∷ []))
        × ((k : ℕ) (throws : Bool) → (call (move_assign i k throws) s).ran ≡ s.ran ++ (c ∷ []))
        × ((k : ℕ)
            → (call (destroy i) (call (move_assign i k true) s)).ran
              ≡ (s.ran ++ (c ∷ [])) ++ (c ∷ []))
  unfolding call construct_guard construct_from dismiss_guard destroy_guard
  calls_lem c cs g spared =
      let i = length g.cleanups in
      let s = calls cs (call (make (some c)) g) in
      let kept : get_elem? s.cleanups i ≡ some (some c) =
        calls-keep i (some c) cs (call (make (some c)) g)
          (get_elem?-append_last g.cleanups (some c)) spared in
      let mine : has s i ≡ some c = ap cleanup_of kept in
      let small = lt-get_elem? s.cleanups i kept in
      let taken = s.cleanups ++ (has s i ∷ []) in
      let size : length taken ≡ length s.cleanups + 1 = length-append s.cleanups (has s i ∷ []) in
      let dismissed : has (call (dismiss i) s) i ≡ none =
        ap cleanup_of (get_elem?-set_self s.cleanups i none small) in
      let emptied : has (call (move_make i) s) i ≡ none =
        ap cleanup_of (get_elem?-set_self taken i none (omega arith)) in
      let passed : has (call (move_make i) s) (length s.cleanups) ≡ some c =
        ap cleanup_of (
          get_elem?-set_ne taken i (length s.cleanups) none (omega arith)
          ∙ get_elem?-append_last s.cleanups (has s i))
        ∙ mine in
      (
        ap (λ o. s.ran ++ listed o) mine,
        ap (λ o. s.ran ++ listed o) dismissed ∙ append-nil s.ran,
        ap (λ o. s.ran ++ listed o) emptied ∙ append-nil s.ran,
        ap (λ o. s.ran ++ listed o) passed,
        λ k throws. ap (λ g'. g'.ran) (assign_some i k throws c s kept),
        λ k.
            let e = assign_some i k true c s kept in
            ap (λ g'. g'.ran ++ listed (has g' i)) e
            ∙ ap (λ o. (s.ran ++ (c ∷ [])) ++ listed o) mine,
      )
