-- ===== src/Sockets/Stream/Bytes.antt =====
-- The bytes of a channel leave in the order in which they were queued, each once.
use belt_pp.Base.{
  ℕ, zero, suc, ◌+◌, ◌-◌, ◌^◌, ◌≤◌, ◌<◌, ◌≡◌, refl, sym, ap, subst, ◌∙◌, arith, List, [], ◌∷◌, ◌++◌,
  append-nil, append_assoc, length, length-append, take, drop, get_elem?, Option, some, none, ◌==◌,
  true, false, Result, ok, err, terminate, dec_lt, get_elem?-lt, inl,
}
use belt_pp.Base.Words.{add_size}
use belt_pp.Queue.{Queue, end_index, at, pop, push}
use belt_pp.Queue.Refine.{Holds, at_inside}
use belt_pp.Queue.Laws.{end-Holds, push_any-Holds, pop-Holds}
use belt_pp.Sockets.Channels.{no_bytes}
use belt_pp.Sockets.Stream.{
  push_all, chunk, pop_times, chunk_size, offered, after_send, taken_bytes,
}

push_all_step :
    (b : ℕ) (bs : List ℕ) (q q' : Queue ℕ)
    → push 0 q b ≡ ok q'
    → push_all (b ∷ bs) q ≡ push_all bs q'
unfolding push_all
push_all_step b bs q q' e = rw (push_all, e) refl

push_all-nil : (q : Queue ℕ) → push_all [] q ≡ ok q
unfolding push_all
push_all-nil q = refl

-- Every message goes behind what waits.
push_all-Holds :
    (message items : List ℕ) (q : Queue ℕ) (base : ℕ)
    → Holds 0 q base items
    → base + length items + length message < 2 ^ 62
    → (q' : Queue ℕ) × (push_all message q ≡ ok q') × Holds 0 q' base (items ++ message)
push_all-Holds [] items q base h small =
    (q, push_all-nil q, subst (Holds 0 q base) (sym (append-nil items)) h)
push_all-Holds (b ∷ bs) items q base h small =
    let (q1, pushed, h1) = push_any-Holds 0 b h (omega arith) in
    let (q2, rest, h2) =
      push_all-Holds bs (items ++ (b ∷ [])) q1 base h1
        (omega (arith, length-append items (b ∷ []))) in
    (
      q2,
      push_all_step b bs q q1 pushed ∙ rest,
      subst (Holds 0 q2 base) (append_assoc items (b ∷ []) bs) h2,
    )

drop_one :
    (items : List ℕ) (k : ℕ) (x : ℕ)
    → get_elem? items k ≡ some x
    → drop k items ≡ x ∷ drop (suc k) items
drop_one [] k x e = absurd (cc)
drop_one (y ∷ items) zero x e =
    ap (λ (o : Option ℕ). let z : ℕ = elim o [ some w ↦ w | none ↦ x ] in z ∷ items) e
drop_one (y ∷ items) (suc k) x e = drop_one items k x e

drop_end : (items : List ℕ) → drop (length items) items ≡ []
drop_end [] = refl
drop_end (x ∷ items) = drop_end items

chunk_end :
    (limit index : ℕ) (q : Queue ℕ) → (index == end_index q) ≡ true → chunk limit index q ≡ ok []
unfolding chunk
chunk_end zero index q e = refl
chunk_end (suc limit) index q e = rw e refl

chunk_more :
    (limit index b : ℕ) (q : Queue ℕ) (bs : List ℕ)
    → (index == end_index q) ≡ false
    → at q index ≡ ok b
    → chunk limit (add_size index 1) q ≡ ok bs
    → chunk (suc limit) index q ≡ ok (b ∷ bs)
unfolding chunk
chunk_more limit index b q bs e read rest = rw (e, read, rest) refl

-- The bytes offered are those that wait the longest.
chunk-Holds :
    (limit k : ℕ) (items : List ℕ) (q : Queue ℕ) (base : ℕ)
    → Holds 0 q base items
    → base + length items < 2 ^ 62
    → k ≤ length items
    → chunk limit (base + k) q ≡ ok (take limit (drop k items))
unfolding chunk
chunk-Holds zero k items q base h small inside = refl
chunk-Holds (suc limit) k items q base h small inside =
    let last = end-Holds 0 h small in
    elim (dec_lt k (length items)) [
      | no all ↦
          let e : k ≡ length items = omega arith in
          chunk_end (suc limit) (base + k) q (ground arith)
          ∙ ap (λ xs. ok (take (suc limit) xs)) (sym (ap (λ j. drop j items) e ∙ drop_end items))
      | yes more ↦
          let (x, there) = get_elem?-lt items k more in
          let same : base + k - base ≡ k = omega arith in
          let read : at q (base + k) ≡ ok x =
            at_inside 0 (base + k) h small (omega arith) (omega arith)
            ∙ ap (λ o. elim o [ some a ↦ ok a | none ↦ err terminate ])
                (ap (get_elem? items) same ∙ there) in
          let next : add_size (base + k) 1 ≡ base + suc k = omega arith in
          chunk_more limit (base + k) x q (take limit (drop (suc k) items)) (ground arith) read (
            ap (λ i. chunk limit i q) next
            ∙ chunk-Holds limit (suc k) items q base h small (omega arith))
          ∙ ap (λ xs. ok (take (suc limit) xs)) (sym (drop_one items k x there))
    ]

pop_times_step : (n : ℕ) (q q' : Queue ℕ) → pop q ≡ ok q' → pop_times (suc n) q ≡ pop_times n q'
unfolding pop_times
pop_times_step n q q' e = rw (pop_times, e) refl

pop_times-Holds :
    (n : ℕ) (items : List ℕ) (q : Queue ℕ) (base : ℕ)
    → Holds 0 q base items
    → base + length items < 2 ^ 62
    → n ≤ length items
    → (q' : Queue ℕ) × (pop_times n q ≡ ok q') × Holds 0 q' (base + n) (drop n items)
unfolding pop_times
pop_times-Holds zero items q base h small inside =
    (q, refl, subst (λ b. Holds 0 q b items) (let p : base ≡ base + 0 = omega arith in p) h)
pop_times-Holds (suc n) [] q base h small inside = absurd (omega arith)
pop_times-Holds (suc n) (x ∷ items) q base h small inside =
    let (q1, popped, h1, _) = pop-Holds 0 h small in
    let (q2, rest, h2) = pop_times-Holds n items q1 (suc base) h1 (omega arith) (omega arith) in
    (
      q2,
      pop_times_step n q q1 popped ∙ rest,
      subst (λ b. Holds 0 q2 b (drop n items))
          (let p : suc base + n ≡ base + suc n = omega arith in p) h2,
    )

-- What was queued, what the kernel took, and the queue, after messages were queued and bytes taken.
pub data Sent : List ℕ → List ℕ → Queue ℕ → Type 0 where
  none_sent : Sent [] [] no_bytes
  queued :
      {a b : List ℕ} {q q' : Queue ℕ}
      → Sent a b q
      → (message : List ℕ) → push_all message q ≡ ok q'
      → Sent (a ++ message) b q'
  took :
      {a b : List ℕ} {q q' : Queue ℕ}
      → Sent a b q
      → (bytes : List ℕ) (n : ℕ) → offered q ≡ ok bytes
      → n ≤ length bytes
      → after_send (taken_bytes n) q ≡ ok q'
      → Sent a (b ++ take n bytes) q'

-- The queue holds what was queued and not taken, and the next calls return.
pub record Flows (a b : List ℕ) (q : Queue ℕ) : Type 0 where
  pub items : List ℕ
  pub holds : Holds 0 q (length b) items
  pub whole : a ≡ b ++ items
  pub queues :
      (message : List ℕ)
      → length a + length message < 2 ^ 62
      → (q' : Queue ℕ) × (push_all message q ≡ ok q')
  pub offers : offered q ≡ ok (take chunk_size items)
  pub takes :
      (n : ℕ)
      → n ≤ length (take chunk_size items)
      → (q' : Queue ℕ) × (after_send (taken_bytes n) q ≡ ok q')

taken_first :
    (n m : ℕ) (xs : List ℕ)
    → n ≤ length (take m xs)
    → (take n (take m xs) ++ drop n xs ≡ xs) × (length (take n (take m xs)) ≡ n) × (n ≤ length xs)
taken_first zero m xs h = (refl, refl, omega arith)
taken_first (suc n) zero xs h = absurd (omega arith)
taken_first (suc n) (suc m) [] h = absurd (omega arith)
taken_first (suc n) (suc m) (x ∷ xs) h =
    let (whole, count, inside) = taken_first n m xs (omega arith) in
    (ap (◌∷◌ x) whole, ap suc count, omega arith)

ok_same : {A : Type 0} {r : Result A} {x y : A} → r ≡ ok x → r ≡ ok y → x ≡ y
ok_same {A} {r} {x} {y} e f =
    ap (λ (t : Result A). let z : A = elim t [ ok w ↦ w | err _ ↦ x ] in z) (sym e ∙ f)

offered_chunk :
    (items : List ℕ) (q : Queue ℕ) (base : ℕ)
    → Holds 0 q base items
    → base + length items < 2 ^ 62
    → offered q ≡ ok (take chunk_size items)
unfolding offered
offered_chunk items q base h small =
    ap (λ i. chunk chunk_size i q) (h.from ∙ (let p : base ≡ base + 0 = omega arith in p))
    ∙ chunk-Holds chunk_size 0 items q base h small (omega arith)

after_taken :
    (n : ℕ) (items : List ℕ) (q : Queue ℕ) (base : ℕ)
    → Holds 0 q base items
    → base + length items < 2 ^ 62
    → n ≤ length items
    → (q' : Queue ℕ) × (after_send (taken_bytes n) q ≡ ok q') × Holds 0 q' (base + n) (drop n items)
unfolding after_send
after_taken n items q base h small inside = pop_times-Holds n items q base h small inside

flowing :
    (a b items : List ℕ) (q : Queue ℕ)
    → Holds 0 q (length b) items
    → a ≡ b ++ items
    → length a < 2 ^ 62
    → Flows a b q
flowing a b items q h whole small =
    let size : length a ≡ length b + length items = ap length whole ∙ length-append b items in
    record {
      items = items;
      holds = h;
      whole = whole;
      queues = λ message room.
          let (q', run, _) = push_all-Holds message items q (length b) h (omega arith) in (q', run);
      offers = offered_chunk items q (length b) h (omega arith);
      takes = λ n inside.
          let (_, _, fits) = taken_first n chunk_size items inside in
          let (q', run, _) = after_taken n items q (length b) h (omega arith) fits in (q', run);
    }

-- Whatever messages are queued, fewer than 2 ^ 62 bytes in all, and however many of the offered
-- bytes each call takes: the bytes taken are the first of those queued, in their order, and the queue
-- holds the others; what it offers next are the first of these, at most 2 MiB, and queueing and
-- taking return.
pub Sent-Flows : (a b : List ℕ) (q : Queue ℕ) → Sent a b q → length a < 2 ^ 62 → Flows a b q
Sent-Flows a b q none_sent small =
    flowing [] [] [] no_bytes
      (record {
        valid = record { shape = inl (refl, refl); fits = omega arith; word = omega arith };
        from = refl;
        same = refl;
      })
      refl (omega arith)
Sent-Flows a b q (queued {a = a0} {b = b0} {q = q0} {q' = q1} s message run) small =
    let size = length-append a0 message in
    let i = Sent-Flows a0 b0 q0 s (omega arith) in
    let size0 : length a0 ≡ length b0 + length i.items =
      ap length i.whole ∙ length-append b0 i.items in
    let (q2, run2, h) = push_all-Holds message i.items q0 (length b0) i.holds (omega arith) in
    flowing (a0 ++ message) b0 (i.items ++ message) q1
      (subst (λ p. Holds 0 p (length b0) (i.items ++ message)) (ok_same run2 run) h)
      (ap (λ xs. xs ++ message) i.whole ∙ append_assoc b0 i.items message) small
Sent-Flows a b q (took {a = a0} {b = b0} {q = q0} {q' = q1} s bytes n offer inside run) small =
    let i = Sent-Flows a0 b0 q0 s small in
    let size0 : length a0 ≡ length b0 + length i.items =
      ap length i.whole ∙ length-append b0 i.items in
    let same : take chunk_size i.items ≡ bytes = ok_same i.offers offer in
    let inside' : n ≤ length (take chunk_size i.items) = rw same inside in
    let (whole, count, fits) = taken_first n chunk_size i.items inside' in
    let (q2, run2, h) = after_taken n i.items q0 (length b0) i.holds (omega arith) fits in
    let first : take n (take chunk_size i.items) ≡ take n bytes = ap (take n) same in
    let count' : length b0 + n ≡ length (b0 ++ take n bytes) =
      omega (arith, count, ap length first, length-append b0 (take n bytes)) in
    flowing a0 (b0 ++ take n bytes) (drop n i.items) q1
      (subst (λ p. Holds 0 p (length (b0 ++ take n bytes)) (drop n i.items)) (ok_same run2 run)
        (subst (λ m. Holds 0 q2 m (drop n i.items)) count' h))
      (i.whole
        ∙ ap (λ xs. b0 ++ xs) (sym whole ∙ ap (λ ys. ys ++ drop n i.items) first)
        ∙ sym (append_assoc b0 (take n bytes) (drop n i.items)))
      small
