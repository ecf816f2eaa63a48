-- ===== src/Parser/Insert.antt =====
-- A complete node at the end of the path becomes the first child of a new operator.
use belt_pp.Base.{
  is_empty-last, Bool, ℕ, suc, ◌+◌, ◌-◌, ◌<◌, ◌^◌, ◌≡◌, refl, sym, ap, subst, ◌∙◌, ◌⊎◌, inl, inr,
  true, false, List, [], ◌∷◌, ◌++◌, Option, none, some, length, get_elem?, set, arith, ℕ_discrete,
  get_elem?-set_self, get_elem?-set_ne, get_elem?-append_left, get_elem?-append_last,
  get_elem?-append_cases, set_last, lt-get_elem?, length-set, length-append, append_assoc, ok,
}
use belt_pp.Parser.{Operator, operator, Node, nowhere, narrow, info_complete, node_at}
use belt_pp.Parser.Place.{relink, insert}
use belt_pp.Parser.Valid.{
  node_link, Chain, OnPath, IsTree, total-append, total-set, link-set, link-set_ne, link-append,
  Chain-extend, Chain-init, path_increases, OnPath-append, OnPath-here, OnPath-split,
}
use belt_pp.Parser.Grow.{standing, is_empty-some, OperatorAt}

-- The new operator above the node at `a`.
abbrev pub above_node : ℕ → ℕ → ℕ → Operator → Node
above_node rtt peer a act = record {
  rtt = rtt;
  previous_peer = peer;
  info = operator (record act { last_child = a; children_count = narrow (act.children_count + 1) });
}

-- The other nodes of the tree are where they were, on the path or complete.
module _ (q : List ℕ) (a : ℕ) (memory : List Node) (old : Node) (e : get_elem? memory a ≡ some old)
    (done : info_complete old.info ≡ true)
    (settled : (x : ℕ) (n : Node)
      → get_elem? memory x ≡ some n
      → OnPath x (q ++ (a ∷ [])) ⊎ (info_complete n.info ≡ true)) where
  settled_above :
      (m : List Node) (new : Node) (b : ℕ)
      → length m ≡ b
      → ((x : ℕ) (n : Node)
          → get_elem? m x ≡ some n
          → OnPath x q
            ⊎ ((n' : Node) × (get_elem? memory x ≡ some n')
                × (info_complete n.info ≡ info_complete n'.info)))
      → (x : ℕ) (n : Node) → get_elem? (m ++ (new ∷ [])) x ≡ some n
      → OnPath x (q ++ (b ∷ [])) ⊎ (info_complete n.info ≡ true)
  settled_above m new b size from x n f = elim (get_elem?-append_cases m new x f) [
    | inr last ↦
        inl (subst (λ y. OnPath y (q ++ (b ∷ []))) (sym (last ∙ size)) (OnPath-here b q []))
    | inl g ↦ elim (from x n g) [
      | inl on ↦ inl (OnPath-append q (b ∷ []) on)
      | inr (n', h, same) ↦ elim (settled x n' h) [
        | inr d ↦ inr (same ∙ d)
        | inl on ↦ elim (OnPath-split q a on) [
          | inl on' ↦ inl (OnPath-append q (b ∷ []) on')
          | inr here ↦
              inr (same ∙ ap (complete_or false) (sym h ∙ ap (get_elem? memory) here ∙ e) ∙ done)
        ]
      ]
    ]
  ]
    where
      complete_or : Bool → Option Node → Bool
      complete_or b none = b
      complete_or b (some n) = info_complete n.info

-- A node whose peer was reset is complete if it was.
changed_peer :
    (memory : List Node) (a : ℕ) (old : Node) (x : ℕ) (n : Node)
    → get_elem? memory a ≡ some old
    → get_elem? (set memory a (record old { previous_peer = nowhere })) x ≡ some n
    → (n' : Node) × (get_elem? memory x ≡ some n') × (info_complete n.info ≡ info_complete n'.info)
changed_peer memory a old x n e f = elim (ℕ_discrete a x) [
  | no ne ↦ (n, sym (get_elem?-set_ne memory a x _ ne) ∙ f, refl)
  | yes same ↦
      let g =
        get_elem?-set_self memory a (record old { previous_peer = nowhere })
          (lt-get_elem? memory a e) in
      let h : some (record old { previous_peer = nowhere }) ≡ some n =
        sym g ∙ ap (get_elem? (set memory a (record old { previous_peer = nowhere }))) same ∙ f in
      (old, sym (ap (get_elem? memory) same) ∙ e, ap complete_of (sym h))
]
  where
    complete_of : Option Node → Bool
    complete_of none = false
    complete_of (some n) = info_complete n.info

pub insert_root :
    (a : ℕ) (memory : List Node) (text : List ℕ) (rtt : ℕ) (old : Node) (act : Operator)
    → IsTree (standing [] a memory text)
    → get_elem? memory a ≡ some old
    → info_complete old.info ≡ true
    → act.children_count ≡ 0
    → length memory < 2 ^ 32 - 1
    → (memory' : List Node) × (insert (standing [] a memory text) 0 rtt act
        ≡ ok (standing [] (length memory) memory' text))
      × IsTree (standing [] (length memory) memory' text)
      × (length memory' ≡ length memory + 1)
      × OperatorAt memory' (length memory)
unfolding insert relink node_at
insert_root a memory text rtt old act v e done fresh small =
    let here : narrow (length memory) ≡ length memory = omega arith in
    let old' = record old { previous_peer = nowhere } in
    let new = above_node rtt old.previous_peer a act in
    let m = set memory a old' in
    let size = length-set memory a old' in
    (
      m ++ (new ∷ []),
      rw (e, here) refl,
      record {
        path = omega (arith, length-append m (new ∷ []));
        rooted = is_empty-last m new;
        counted = λ h.
            let before = v.counted (is_empty-some memory a e) in
            omega (
              arith,
              total-append m new,
              total-set memory a old old' e,
              length-append m (new ∷ []),
            );
        settled =
            settled_above [] a memory old e done v.settled m new (length memory) size
              (λ x n f. inr (changed_peer memory a old x n e f));
      },
      omega (arith, length-append m (new ∷ [])),
      (
        rtt,
        old.previous_peer,
        _,
        ap (get_elem? (m ++ (new ∷ []))) (sym size) ∙ get_elem?-append_last m new,
      ),
    )

two_last :
    (q : List ℕ) (b a : ℕ)
    → (get_elem? (q ++ (b ∷ a ∷ [])) (length q) ≡ some b)
      × (get_elem? (q ++ (b ∷ a ∷ [])) (suc (length q)) ≡ some a)
two_last [] b a = (refl, refl)
two_last (x ∷ q) b a = two_last q b a

pub insert_inner :
    (q : List ℕ) (prev a : ℕ) (memory : List Node) (text : List ℕ) (rtt : ℕ) (old : Node)
    (act : Operator) (above_rtt above_peer : ℕ) (above : Operator)
    → IsTree (standing (q ++ (prev ∷ [])) a memory text)
    → get_elem? memory a ≡ some old
    → get_elem? memory prev
      ≡ some (record { rtt = above_rtt; previous_peer = above_peer; info = operator above })
    → info_complete old.info ≡ true
    → act.children_count ≡ 0
    → length memory < 2 ^ 32 - 1
    → (memory' : List Node) × (insert
          (standing (q ++ (prev ∷ [])) a memory text)
          (suc (length q))
          rtt
          act
        ≡ ok (standing (q ++ (prev ∷ [])) (length memory) memory' text))
      × IsTree (standing (q ++ (prev ∷ [])) (length memory) memory' text)
      × (length memory' ≡ length memory + 1)
      × OperatorAt memory' (length memory)
unfolding insert relink node_at
insert_inner q prev a memory text rtt old act above_rtt above_peer above v e e_prev done fresh
      small =
    let n = length memory in
    let here : narrow n ≡ n = omega arith in
    let q1 = q ++ (prev ∷ []) in
    let depth : suc (length q) ≡ length q1 = omega (arith, length-append q (prev ∷ [])) in
    let found_a = ap (get_elem? (q1 ++ (a ∷ []))) depth ∙ get_elem?-append_last q1 a in
    let replaced = ap (λ i. set (q1 ++ (a ∷ [])) i n) depth ∙ set_last q1 a n in
    let found_prev =
      get_elem?-append_left q1 (n ∷ []) (length q) (omega arith) ∙ get_elem?-append_last q prev in
    let whole : Chain memory (q ++ (prev ∷ a ∷ [])) =
      subst (Chain memory) (append_assoc q (prev ∷ []) (a ∷ [])) v.path in
    let lt =
      path_increases memory (q ++ (prev ∷ a ∷ [])) (length q) (suc (length q)) whole
        (two_last q prev a).0 (two_last q prev a).1 (omega arith) in
    let old' : Node = record old { previous_peer = nowhere } in
    let np : Node = record { rtt = above_rtt; previous_peer = above_peer; info = operator above } in
    let np' : Node = record {
      rtt = above_rtt;
      previous_peer = above_peer;
      info = operator (record above { last_child = n });
    } in
    let new = above_node rtt old.previous_peer a act in
    let m1 = set memory a old' in
    let kept : get_elem? m1 prev ≡ some np =
      get_elem?-set_ne memory a prev old' (λ f. omega arith) ∙ e_prev in
    let m2 = set m1 prev np' in
    let size1 = length-set memory a old' in
    let size2 = length-set m1 prev np' in
    let all = m2 ++ (new ∷ []) in
    let longer = length-append m2 (new ∷ []) in
    let in_memory = lt-get_elem? memory prev e_prev in
    (
      all,
      rw (found_a, e, here, replaced, found_prev, kept) refl,
      record {
        path = subst (Chain all) (sym (append_assoc q (prev ∷ []) (n ∷ []))) (
            Chain-extend memory all q prev n (Chain-init memory q prev a whole)
              (λ x below.
                link-append m2 x new (omega arith)
                ∙ link-set_ne m1 prev x np' (λ f. omega arith)
                ∙ link-set memory a old old' e refl x)
              (link-append m2 prev new (omega arith)
                ∙ ap node_link (get_elem?-set_self m1 prev np' (omega arith)))
              in_memory (omega arith));
        rooted = is_empty-last m2 new ∙ sym (is_empty-last q1 n);
        counted = λ h.
            let before = v.counted (is_empty-some memory a e) in
            omega (
              arith,
              total-append m2 new,
              total-set memory a old old' e,
              total-set m1 prev np np' kept,
            );
        settled = settled_above q1 a memory old e done v.settled m2 new n (omega arith) (λ x m f.
            elim (ℕ_discrete prev x) [
              | yes same ↦ inl (subst (λ y. OnPath y q1) same (OnPath-here prev q []))
              | no ne ↦
                  inr
                    (changed_peer memory a old x m e (sym (get_elem?-set_ne m1 prev x np' ne) ∙ f))
            ]);
      },
      omega arith,
      (
        rtt,
        old.previous_peer,
        _,
        ap (get_elem? all) (sym (size2 ∙ size1)) ∙ get_elem?-append_last m2 new,
      ),
    )
