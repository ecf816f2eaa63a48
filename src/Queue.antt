-- ===== src/Queue.antt =====
-- belt.pp/queue.hpp: `beltpp::queue<T>`, a growing ring buffer whose elements keep the index under
-- which they were pushed. The members are m_i_start, m_i_size, m_i_loops and m_vec_queue; the
-- vector's length is the capacity. An `assert` is no part of a release build and is left out here;
-- the modules below prove what the asserts of `reserve` and `push` say.
pub mod Pow2
pub mod Modular
pub mod Contents
pub mod Ends
pub mod Indices
pub mod Reserve
pub mod Push
pub mod Model
pub mod Refine
pub mod Laws
pub mod FreeRange
use belt_pp.Base.{
  ℕ, zero, suc, ◌+◌, ◌-◌, ◌*◌, ◌/◌, ◌%◌, Bool, true, false, ◌&&◌, ◌||◌, not, Option, none, some,
  List, length, get_elem?, set, replicate, ltb, leb, ◌==◌, if◌then◌else◌, Result, ok, err, Fault,
  terminate, runtime_error, out_of_range, no_fuel, require, or_fail, ◌>>=◌, ◌>>◌,
}
use belt_pp.Base.Words.{size_mod, add_size, sub_size, mul_size}

pub record Queue {ℓ} (A : Type ℓ) : Type ℓ where
  pub start : ℕ
  pub size : ℕ
  pub loops : ℕ
  pub buf : List A

-- `next2pow`: `while (number > p2) p2 *= 2;` from `p2`, on fuel.
unfoldable pub next2pow_from : ℕ → ℕ → ℕ → Result ℕ
next2pow_from zero number p2 = err no_fuel
next2pow_from (suc fuel) number p2 =
    let rest = next2pow_from fuel number (mul_size p2 2) in if ltb p2 number then rest else ok p2

unfoldable pub next2pow : ℕ → Result ℕ
next2pow number = next2pow_from 65 number 1

unfoldable pub capacity2pow : ℕ → Result ℕ
capacity2pow capacity = if capacity == 0 then ok 0 else next2pow capacity

-- The loop of `reserve`: `do newsize *= 2; while (newsize < min_size);`.
unfoldable pub grow : ℕ → ℕ → ℕ → Result ℕ
grow zero newsize min_size = err no_fuel
grow (suc fuel) newsize min_size =
    let doubled = mul_size newsize 2 in
    let rest = grow fuel doubled min_size in if ltb doubled min_size then rest else ok doubled

module _ {ℓ} {A : Type ℓ} where
  abbrev pub capacity : Queue A → ℕ
  capacity q = length q.buf

  abbrev pub begin_index : Queue A → ℕ
  begin_index q = (q.start + q.loops * capacity q) % size_mod

  abbrev pub end_index : Queue A → ℕ
  end_index q = (q.size + q.start + q.loops * capacity q) % size_mod

  unfoldable pub valid_index : Queue A → ℕ → Bool
  valid_index q index =
      if ltb (begin_index q) (end_index q) && (leb (begin_index q) index && ltb index (end_index q))
      then true
      else ltb (end_index q) (begin_index q)
        && (leb (begin_index q) index || ltb index (end_index q))

  unfoldable pub empty : Queue A → Bool
  empty q = q.size == 0

  unfoldable pub full : Queue A → Bool
  full q = q.size == capacity q

  unfoldable pub front : Queue A → Result A
  front q = do require (not (q.size == 0)) terminate; or_fail (get_elem? q.buf q.start) out_of_range

  -- `operator []` as a value, and as the target of an assignment.
  unfoldable pub at : Queue A → ℕ → Result A
  at q index = do
    require (valid_index q index) terminate
    or_fail (get_elem? q.buf (index % capacity q)) out_of_range

  unfoldable pub put : Queue A → ℕ → A → Result (Queue A)
  put q index a = do
    require (valid_index q index) terminate
    require (ltb (index % capacity q) (capacity q)) out_of_range
    ok (record q { buf = set q.buf (index % capacity q) a })

  unfoldable pub pop : Queue A → Result (Queue A)
  pop q =
      if q.size == 0
      then err terminate
      else if add_size q.start 1 == capacity q
      then ok (record q { start = 0; size = q.size - 1; loops = add_size q.loops 1 })
      else ok (record q { start = add_size q.start 1; size = q.size - 1 })

  -- The offset into the vector and the length that `get_free_range` hands out.
  unfoldable pub get_free_range : Queue A → Result (ℕ × ℕ)
  get_free_range q =
      if q.size == capacity q
      then err runtime_error
      else if leb (capacity q) (add_size q.start q.size)
      then (let i = add_size q.start q.size - capacity q in ok (i, sub_size q.start i))
      else (let i = add_size q.start q.size in ok (i, capacity q - i))

  -- The loop of `reserve` that moves the elements over.
  unfoldable pub relocate : ℕ → Queue A → ℕ → ℕ → Queue A → Result (Queue A)
  relocate zero old index end new = err no_fuel
  relocate (suc fuel) old index end new =
      let rest = λ (new' : Queue A). relocate fuel old (add_size index 1) end new' in
      if index == end then ok new else do a ← at old index; new' ← put new index a; rest new'

  -- The part of `push` behind `reserve`.
  unfoldable pub append : Queue A → A → Result (Queue A)
  append q a = do
    let i = add_size q.start q.size
    let i_end = if leb (capacity q) i then i - capacity q else i
    require (ltb i_end (capacity q)) out_of_range
    ok (record q { size = add_size q.size 1; buf = set q.buf i_end a })

-- `blank` is the value `T()` that fills a new vector.
module _ {ℓ} {A : Type ℓ} (blank : A) where
  -- The constructor `queue(capacity, end_index, size)`.
  unfoldable pub construct : ℕ → ℕ → ℕ → Result (Queue A)
  construct capacity end size = do
    cap ← capacity2pow capacity
    require (leb size cap) runtime_error
    let start = if not (cap == 0) && not (end == 0) then sub_size end size % cap else 0
    let loops =
        if not (cap == 0) && not (end == 0) then sub_size (sub_size end start) size / cap else 0
    ok (record { start = start; size = size; loops = loops; buf = replicate cap blank })

  unfoldable pub reserve : ℕ → Queue A → Result (Queue A)
  reserve min_size q =
      if q.size == capacity q
      then (do
        newsize ← grow 65 (if q.size == 0 then min_size else q.size) min_size
        new ← construct newsize (end_index q) q.size
        relocate (q.size + 1) q (begin_index q) (end_index q) new)
      else ok q

  unfoldable pub push : Queue A → A → Result (Queue A)
  push q a = do q' ← reserve 64 q; append q' a
