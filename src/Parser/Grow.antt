-- ===== src/Parser/Grow.antt =====
-- The changes of the tree at the end of its path keep the invariant.
use belt_pp.Base.{
  is_empty-last, get_elem?-append_cases, ℕ, zero, suc, ◌+◌, ◌-◌, ◌<◌, ◌^◌, ◌≡◌, refl, sym, ap,
  subst, ◌∙◌, inl, inr, false, List, [], ◌∷◌, ◌++◌, some, length, get_elem?, set, arith, is_empty,
  ℕ_discrete, get_elem?-set_self, get_elem?-set_ne, get_elem?-append_last, lt-get_elem?, length-set,
  length-append, append_assoc, ok,
}
use belt_pp.Parser.{
  Operator, Info, operator, value, Node, Tree, narrow, info_children, node_at, property_combine,
}
use belt_pp.Parser.Place.{fix_same, point_to, append_child, started}
use belt_pp.Parser.Valid.{
  link_of, node_link, Chain, OnPath, IsTree, total-append, total-set, link-set, link-set_ne,
  link-append, Chain-same, Chain-extend, children-le-total, OnPath-append, OnPath-here,
}

-- A tree whose path ends at `a`.
abbrev pub standing : List ℕ → ℕ → List Node → List ℕ → Tree
standing q a memory text = record {
  node_address = q ++ (a ∷ []);
  memory = memory;
  expression_string = text;
}

pub is_empty-some {ℓ} :
    {A : Type ℓ} (xs : List A) (i : ℕ) {x : A} → get_elem? xs i ≡ some x → is_empty xs ≡ false
is_empty-some [] i e = cc
is_empty-some (y ∷ xs) i e = refl

pub is_empty-set {ℓ} :
    {A : Type ℓ} (xs : List A) (i : ℕ) (x : A) → is_empty (set xs i x) ≡ is_empty xs
is_empty-set [] i x = refl
is_empty-set (y ∷ xs) zero x = refl
is_empty-set (y ∷ xs) (suc i) x = refl

-- A node on the path may change in all but its last child and their number.
pub change-IsTree :
    (q : List ℕ) (a : ℕ) (memory : List Node) (text : List ℕ) (old new : Node)
    → IsTree (standing q a memory text)
    → get_elem? memory a ≡ some old
    → link_of new.info ≡ link_of old.info
    → info_children new.info ≡ info_children old.info
    → IsTree (standing q a (set memory a new) text)
change-IsTree q a memory text old new v e l c = record {
  path =
      Chain-same memory (set memory a new) (q ++ (a ∷ [])) v.path (link-set memory a old new e l)
        (length-set memory a new);
  rooted = is_empty-set memory a new ∙ v.rooted;
  counted = λ h.
      let before = v.counted (sym (is_empty-set memory a new) ∙ h) in
      omega (arith, total-set memory a old new e, length-set memory a new);
  settled = λ x n f. elim (ℕ_discrete a x) [
    | yes same ↦ inl (subst (λ y. OnPath y (q ++ (a ∷ []))) same (OnPath-here a q []))
    | no ne ↦ v.settled x n (sym (get_elem?-set_ne memory a x new ne) ∙ f)
  ];
}

abbrev pub OperatorAt : List Node → ℕ → Type 0
OperatorAt memory a =
    (rtt : ℕ) × (peer : ℕ) × (o : Operator) × (get_elem? memory a
      ≡ some (record { rtt = rtt; previous_peer = peer; info = operator o }))

pub fix_same_lem :
    (q : List ℕ) (a : ℕ) (memory : List Node) (text : List ℕ) (rtt peer : ℕ) (o act : Operator)
    → IsTree (standing q a memory text)
    → get_elem? memory a ≡ some (record { rtt = rtt; previous_peer = peer; info = operator o })
    → (memory' : List Node) × (fix_same (standing q a memory text) (length q) act
        ≡ ok (standing q a memory' text))
      × IsTree (standing q a memory' text)
      × (length memory' ≡ length memory)
      × OperatorAt memory' a
unfolding fix_same node_at
fix_same_lem q a memory text rtt peer o act v e =
    let new : Node = record {
      rtt = rtt;
      previous_peer = peer;
      info =
          operator
            (record o { right = act.right; property = property_combine o.property act.property });
    } in
    (
      set memory a new,
      rw (get_elem?-append_last q a, e) refl,
      change-IsTree q a memory text _ new v e refl refl,
      length-set memory a new,
      (rtt, peer, _, get_elem?-set_self memory a new (lt-get_elem? memory a e)),
    )

-- A token is placed with no children.
abbrev pub IsFresh : Node → Type 0
IsFresh n = info_children n.info ≡ 0

pub started-IsFresh :
    (t : Tree) (token : Node) (i : Info)
    → IsFresh token
    → info_children (started t token i).info ≡ 0
started-IsFresh t token (operator o) h = h
started-IsFresh t token (value start size) h = refl

-- A new node becomes the last child of the end of the path, and the end of the path itself.
add_child-IsTree :
    (q : List ℕ) (a : ℕ) (memory : List Node) (text : List ℕ) (old new token : Node)
    → IsTree (standing q a memory text)
    → get_elem? memory a ≡ some old
    → link_of new.info ≡ some (length memory)
    → info_children new.info ≡ info_children old.info + 1
    → IsFresh token
    → IsTree (record {
      node_address = (q ++ (a ∷ [])) ++ (length memory ∷ []);
      memory = set memory a new ++ (token ∷ []);
      expression_string = text;
    })
add_child-IsTree q a memory text old new token v e l c fresh =
    let in_memory = lt-get_elem? memory a e in
    let memory' = set memory a new in
    let size = length-set memory a new in
    let all = memory' ++ (token ∷ []) in
    let longer = length-append memory' (token ∷ []) in
    record {
      path = subst (Chain all) (sym (append_assoc q (a ∷ []) (length memory ∷ []))) (
          Chain-extend memory all q a (length memory) v.path
            (λ x lt.
              link-append memory' x token (omega arith)
              ∙ link-set_ne memory a x new (λ f. omega arith))
            (link-append memory' a token (omega arith)
              ∙ ap node_link (get_elem?-set_self memory a new in_memory)
              ∙ l)
            in_memory (omega arith));
      rooted = is_empty-last memory' token ∙ sym (is_empty-last (q ++ (a ∷ [])) (length memory));
      counted = λ h.
          let before = v.counted (is_empty-some memory a e) in
          omega (arith, total-append memory' token, total-set memory a old new e);
      settled = λ x n f. elim (get_elem?-append_cases memory' token x f) [
        | inr last ↦ inl (
            subst (λ y. OnPath y ((q ++ (a ∷ [])) ++ (length memory ∷ []))) (sym (last ∙ size))
              (OnPath-here (length memory) (q ++ (a ∷ [])) []))
        | inl g ↦ elim (ℕ_discrete a x) [
          | yes same ↦ inl (
              OnPath-append (q ++ (a ∷ [])) (length memory ∷ [])
                (subst (λ y. OnPath y (q ++ (a ∷ []))) same (OnPath-here a q [])))
          | no ne ↦ elim (v.settled x n (sym (get_elem?-set_ne memory a x new ne) ∙ g)) [
            | inl on ↦ inl (OnPath-append (q ++ (a ∷ [])) (length memory ∷ []) on)
            | inr done ↦ inr done
          ]
        ]
      ];
    }

pub append_child_lem :
    (q : List ℕ) (a : ℕ) (memory : List Node) (text : List ℕ) (rtt peer : ℕ) (o : Operator)
    (token : Node)
    → IsTree (standing q a memory text)
    → get_elem? memory a ≡ some (record { rtt = rtt; previous_peer = peer; info = operator o })
    → IsFresh token
    → length memory < 2 ^ 32 - 1
    → point_to (standing q a memory text) (length q) ≡ ok (standing q a memory text)
    → (t : Tree) × (append_child (standing q a memory text) (length q) token ≡ ok t)
      × IsTree t
      × (t.expression_string ≡ text)
      × (length t.memory ≡ length memory + 1)
unfolding append_child node_at
append_child_lem q a memory text rtt peer o token v e fresh small point =
    let in_memory = lt-get_elem? memory a e in
    let n = length memory in
    let here : narrow n ≡ n = omega arith in
    let count : o.children_count < length memory =
      omega (arith, v.counted (is_empty-some memory a e), children-le-total memory a e) in
    let last : get_elem? (q ++ (a ∷ [])) (length (q ++ (a ∷ [])) - 1) ≡ some a =
      (let l : length (q ++ (a ∷ [])) - 1 ≡ length q = omega (arith, length-append q (a ∷ [])) in
        ap (get_elem? (q ++ (a ∷ []))) l ∙ get_elem?-append_last q a) in
    let new : Node = record {
      rtt = rtt;
      previous_peer = peer;
      info = operator (record o {
        last_child = n;
        children_count = narrow (o.children_count + 1);
        right = o.right - 1;
      });
    } in
    let token' : Node = record (started (standing q a memory text) token token.info) {
      previous_peer = o.last_child;
    } in
    (
      record {
        node_address = (q ++ (a ∷ [])) ++ (n ∷ []);
        memory = set memory a new ++ (token' ∷ []);
        expression_string = text;
      },
      rw (point, last, e, here) refl,
      add_child-IsTree q a memory text _ new token' v e refl (omega (arith, count))
          (started-IsFresh (standing q a memory text) token token.info fresh),
      refl,
      omega (arith, length-append (set memory a new) (token' ∷ []), length-set memory a new),
    )
