-- ===== src/Queue/Laws.antt =====
-- One call on a ring buffer that holds a given sequence, for the code that keeps its data in one.
use mathlib.Core.List.{tail}
use belt_pp.Base.{
  ℕ, zero, suc, ◌+◌, ◌-◌, ◌%◌, ◌^◌, ◌≤◌, ◌<◌, ◌≡◌, refl, sym, ◌∙◌, ap, arith, List, [], ◌∷◌, ◌++◌,
  Option, none, some, length, is_empty, ◌==◌, get_elem?, set, ok, err, terminate, leb, ap₂, subst,
  if◌then◌else◌, lt-get_elem?, Bool, true, false, dec_le, dec_lt, get_elem?-lt, length-set,
}
use belt_pp.Base.Words.{size_mod, add_size}
use belt_pp.Queue.{
  Queue, capacity, begin_index, end_index, valid_index, empty, front, put, pop, reserve, push,
  construct,
}
use belt_pp.Queue.Contents.{slot, span, span-ext}
use belt_pp.Queue.Ends.{front_lem, pop_lem, append_lem, slot-set_self, slot-set_ne}
use belt_pp.Queue.Modular.{mod-ne}
use belt_pp.Queue.Indices.{end_lem, valid_index_lem, put_lem}
use belt_pp.Queue.Reserve.{construct_lem}
use belt_pp.Queue.Push.{push_lem}
use belt_pp.Queue.Refine.{Holds, size_lem, no_wrap, get_elem?_beyond}
use belt_pp.Queue.Model.{lookup_from}

module _ {ℓ} {A : Type ℓ} where
  abbrev pub is_some : Option A → Bool
  is_some none = false
  is_some (some a) = true

module _ {ℓ} {A : Type ℓ} (blank : A) where
  -- Writing one slot sets one element.
  put_span :
      (buf : List A) (b m k : ℕ) (a : A)
      → k < m
      → m ≤ length buf
      → span (slot blank (set buf ((b + k) % length buf) a)) b m
        ≡ set (span (slot blank buf) b m) k a
  put_span buf b zero k a below fits = absurd (omega arith)
  put_span buf b (suc m) zero a below fits =
      let n = length buf in
      let after = set buf ((b + 0) % n) a in
      ap₂ ◌∷◌
        (ap (slot blank after) (let p : b ≡ b + 0 = omega arith in p)
          ∙ slot-set_self blank buf (b + 0) a (omega arith))
        (span-ext (slot blank after) (slot blank buf) (suc b) (suc b) m (λ i lt.
          slot-set_ne blank buf ((b + 0) % n) (suc b + i) a
            (λ same. mod-ne n (b + 0) (suc b + i) (omega arith) (omega arith) same)))
  put_span buf b (suc m) (suc k) a below fits =
      let n = length buf in
      ap₂ ◌∷◌
        (slot-set_ne blank buf ((b + suc k) % n) b a
          (λ same. mod-ne n b (b + suc k) (omega arith) (omega arith) (sym same)))
        (ap (λ p. span (slot blank (set buf (p % n) a)) (suc b) m)
            (let p : b + suc k ≡ suc b + k = omega arith in p)
          ∙ put_span buf (suc b) m k a (omega arith) (omega arith))

module _ {ℓ} {A : Type ℓ} (blank : A) {q : Queue A} {base : ℕ} {items : List A} where
  pub end-Holds :
      Holds blank q base items → base + length items < 2 ^ 62 → end_index q ≡ base + length items
  end-Holds h small = let size = size_lem blank h in let from = h.from in end_lem q ∙ omega arith

  pub valid-Holds :
      (i : ℕ)
      → Holds blank q base items
      → base + length items < 2 ^ 62
      → i < size_mod
      → valid_index q i ≡ is_some (lookup_from base items i)
  unfolding lookup_from
  valid-Holds i h small word =
      let size = size_lem blank h in
      let from = h.from in
      elim (dec_le base i) [
        | no below ↦
            let test : leb base i ≡ false = ground arith in
            rw test (valid_index_lem i h.valid word ∙ ground arith)
        | yes above ↦
            let test : leb base i ≡ true = ground arith in
            rw test (elim (dec_lt (i - base) (length items)) [
              | yes inside ↦
                  let (x, found) = get_elem?-lt items (i - base) inside in
                  rw found (valid_index_lem i h.valid word ∙ ground arith)
              | no outside ↦
                  rw (get_elem?_beyond items (i - base) (omega arith))
                    (valid_index_lem i h.valid word ∙ ground arith)
            ])
      ]

  pub empty-Holds : Holds blank q base items → empty q ≡ is_empty items
  unfolding empty
  empty-Holds h = let size = size_lem blank h in go items size
    where
      go : (xs : List A) → q.size ≡ length xs → (q.size == 0) ≡ is_empty xs
      go [] e = ground arith
      go (x ∷ xs) e = ground arith

  -- With or without room.
  pub push_any-Holds :
      (a : A)
      → Holds blank q base items
      → base + length items < 2 ^ 62
      → (q' : Queue A) × (push blank q a ≡ ok q') × Holds blank q' base (items ++ (a ∷ []))
  push_any-Holds a h small =
      let size = size_lem blank h in
      let (q', pushed, valid, added, first, _) =
        push_lem blank a h.valid (omega arith) (no_wrap blank h small) in
      (
        q',
        pushed,
        record {
          valid = valid;
          from = first ∙ h.from;
          same = added ∙ ap (λ xs. xs ++ (a ∷ [])) h.same;
        },
      )

  pub push-Holds :
      (a : A)
      → Holds blank q base items
      → q.size < capacity q
      → (q' : Queue A) × (push blank q a ≡ ok q')
        × Holds blank q' base (items ++ (a ∷ []))
        × (capacity q' ≡ capacity q)
  unfolding push reserve
  push-Holds a h room =
      let (q', run, valid, added, first, _, same) = append_lem blank a h.valid room in
      let test : (q.size == capacity q) ≡ false = ground arith in
      (
        q',
        rw test run,
        record {
          valid = valid;
          from = first ∙ h.from;
          same = added ∙ ap (λ xs. xs ++ (a ∷ [])) h.same;
        },
        same,
      )

  pub put-Holds :
      (i : ℕ) (a old : A)
      → Holds blank q base items
      → base + length items < 2 ^ 62
      → lookup_from base items i ≡ some old
      → (q' : Queue A) × (put q i a ≡ ok q')
        × Holds blank q' base (set items (i - base) a)
        × (capacity q' ≡ capacity q)
  unfolding lookup_from
  put-Holds i a old h small found = elim (dec_le base i) [
    | no below ↦ let test : leb base i ≡ false = ground arith in absurd (cc)
    | yes above ↦
        let test : leb base i ≡ true = ground arith in
        let k = i - base in
        let here : get_elem? items k ≡ some old =
          subst (λ t. (if t then get_elem? items k else none) ≡ some old) test found in
        let inside = lt-get_elem? items k here in
        let size = size_lem blank h in
        let from = h.from in
        let e : i ≡ add_size (begin_index q) k = omega arith in
        let len = length-set q.buf ((q.start + k) % capacity q) a in
        let v = h.valid in
        let fits = v.fits in
        (
          record q { buf = set q.buf ((q.start + k) % capacity q) a },
          ap (λ j. put q j a) e ∙ put_lem blank k a v (omega arith),
          record {
            valid = record { shape = rw len (v.shape); fits = rw len fits; word = v.word };
            from = rw len from;
            same =
                put_span blank q.buf q.start q.size k a (omega arith) fits
                ∙ ap (λ xs. set xs k a) h.same;
          },
          len,
        )
  ]

module _ {ℓ} {A : Type ℓ} (blank : A) {q : Queue A} {base : ℕ} {x : A} {items : List A} where
  pub front-Holds : Holds blank q base (x ∷ items) → front q ≡ ok x
  front-Holds h =
      let size = size_lem blank h in
      let (_, _, _, split, _, _, _) =
        pop_lem blank h.valid (let p : 0 < q.size = omega arith in p) in
      front_lem blank h.valid (omega arith)
      ∙ ap (λ xs. elim xs [ [] ↦ err terminate | y ∷ ys ↦ ok y ]) (sym split ∙ h.same)

  pub pop-Holds :
      Holds blank q base (x ∷ items)
      → base + length (x ∷ items) < 2 ^ 62
      → (q' : Queue A) × (pop q ≡ ok q')
        × Holds blank q' (suc base) items
        × (capacity q' ≡ capacity q)
  pop-Holds h small =
      let size = size_lem blank h in
      let from = h.from in
      let (q', popped, valid, split, first, _, same) =
        pop_lem blank h.valid (let p : 0 < q.size = omega arith in p) in
      (
        q',
        popped,
        record { valid = valid; from = first ∙ omega arith; same = ap tail (sym split ∙ h.same) },
        same,
      )

-- The queue that the constructor makes holds nothing, and has room.
pub construct-Holds {ℓ} :
    {A : Type ℓ} (blank : A) (n end : ℕ)
    → 0 < n
    → n ≤ 2 ^ 63
    → end < 2 ^ 62
    → (q : Queue A) × (construct blank n end 0 ≡ ok q) × Holds blank q end [] × (0 < capacity q)
construct-Holds {A = A} blank n end pos small word =
    let (q, made, valid, none_held, above, first) =
      construct_lem blank n end 0 pos small (omega arith) (omega arith) (λ _. refl) in
    (
      q,
      made,
      record {
        valid = valid;
        from = first ∙ omega arith;
        same = ap (span (slot blank q.buf) q.start) none_held;
      },
      omega arith,
    )
