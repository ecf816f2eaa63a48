-- ===== src/Queue/Indices.antt =====
-- `valid_index` and `operator []`: an element is found under the index at which it was pushed, also
-- where the indices have wrapped past the range of `size_t`.
use native.Mathlib.Nat.{mod-lt, mod-add-mod, add-mul-mod_self_right}
use belt_pp.Base.{
  ℕ, ◌+◌, ◌*◌, ◌%◌, ◌^◌, ◌≤◌, ◌<◌, ◌≡◌, sym, ◌∙◌, ap, arith, set, ok, err, terminate,
  get_elem?-eq-get_or, if◌then◌else◌, leb, ltb, true, Bool, ◌&&◌, ◌||◌,
}
use belt_pp.Base.Words.{size_mod, add_size, sub_size}
use belt_pp.Queue.{Queue, capacity, begin_index, end_index, valid_index, at, put}
use belt_pp.Queue.Pow2.{IsPow2}
use belt_pp.Queue.Modular.{mod-wrap}
use belt_pp.Queue.Contents.{IsValid, slot}
use belt_pp.Queue.Ends.{held, held_capacity}

-- The test of `valid_index` on the numbers that it reads.
abbrev in_range : ℕ → ℕ → ℕ → Bool
in_range b e i = if ltb b e && (leb b i && ltb i e) then true else ltb e b && (leb b i || ltb i e)

in_range_lem :
    (b n i : ℕ)
    → b < size_mod
    → i < size_mod
    → n ≤ 2 ^ 63
    → in_range b ((b + n) % size_mod) i ≡ ltb (sub_size i b) n
in_range_lem b n i hb hi hn = ground arith

module _ {ℓ} {A : Type ℓ} where
  pub end_lem : (q : Queue A) → end_index q ≡ add_size (begin_index q) q.size
  end_lem q = sym (
      mod-add-mod (q.start + q.loops * capacity q) size_mod q.size
      ∙ ap (λ t. t % size_mod) (omega arith))

  -- An index is valid exactly when fewer than `size` steps lead to it from the first index.
  pub valid_index_lem :
      {q : Queue A} (i : ℕ)
      → IsValid q
      → i < size_mod
      → valid_index q i ≡ ltb (sub_size i (begin_index q)) q.size
  unfolding valid_index
  valid_index_lem {q} i v h =
      let small = held_capacity v in
      let fits = v.fits in
      ap (λ e. in_range (begin_index q) e i) (end_lem q)
      ∙ in_range_lem (begin_index q) q.size i (omega arith) h (omega arith)

  pub index_slot :
      (q : Queue A) (k : ℕ)
      → IsPow2 (capacity q)
      → add_size (begin_index q) k % capacity q ≡ (q.start + k) % capacity q
  index_slot q k pow =
      mod-wrap (capacity q) (begin_index q + k) pow
      ∙ sym (mod-add-mod (begin_index q) (capacity q) k)
      ∙ ap (λ t. (t + k) % capacity q)
          (mod-wrap (capacity q) (q.start + q.loops * capacity q) pow
            ∙ add-mul-mod_self_right q.start q.loops (capacity q))
      ∙ mod-add-mod q.start (capacity q) k

  valid_at :
      {q : Queue A} (k : ℕ)
      → IsValid q
      → k < q.size
      → valid_index q (add_size (begin_index q) k) ≡ true
  valid_at {q} k v h =
      let small = held_capacity v in
      let fits = v.fits in
      valid_index_lem (add_size (begin_index q) k) v (omega arith) ∙ ground arith

module _ {ℓ} {A : Type ℓ} (blank : A) where
  -- The element that is `k` places behind the oldest stands under the index `begin_index() + k`.
  pub at_lem :
      {q : Queue A} (k : ℕ)
      → IsValid q
      → k < q.size
      → at q (add_size (begin_index q) k) ≡ ok (slot blank q.buf (q.start + k))
  unfolding at
  at_lem {q} k v h =
      let (pow, inside, _) = held v (let p : 0 < q.size = omega arith in p) in
      rw (valid_at k v h, index_slot q k pow)
        (rw (
          get_elem?-eq-get_or q.buf ((q.start + k) % capacity q) blank
            (mod-lt (q.start + k) (omega arith))))

  -- Any other index ends in `std::terminate`.
  pub at_outside :
      {q : Queue A} (i : ℕ)
      → IsValid q
      → i < size_mod
      → q.size ≤ sub_size i (begin_index q)
      → at q i ≡ err terminate
  unfolding at
  at_outside {q} i v word h = rw (valid_index_lem i v word) (ground arith)

  -- Writing through `operator []` puts the value into the slot of its index.
  pub put_lem :
      {q : Queue A} (k : ℕ) (a : A)
      → IsValid q
      → k < q.size
      → put q (add_size (begin_index q) k) a
        ≡ ok (record q { buf = set q.buf ((q.start + k) % capacity q) a })
  unfolding put
  put_lem {q} k a v h =
      let (pow, inside, _) = held v (let p : 0 < q.size = omega arith in p) in
      let within : (q.start + k) % capacity q < capacity q = mod-lt (q.start + k) (omega arith) in
      rw (valid_at k v h, index_slot q k pow) (ground arith)

  pub put_outside :
      {q : Queue A} (i : ℕ) (a : A)
      → IsValid q
      → i < size_mod
      → q.size ≤ sub_size i (begin_index q)
      → put q i a ≡ err terminate
  unfolding put
  put_outside {q} i a v word h = rw (valid_index_lem i v word) (ground arith)
