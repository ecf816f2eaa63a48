-- ===== src/Parser/Keeps.antt =====
-- `parse_helper` keeps the invariant, and never goes outside the tree.
use belt_pp.Base.{
  is_empty-last, ℕ, suc, ◌+◌, ◌-◌, ◌<◌, ◌≤◌, ◌^◌, ◌≡◌, refl, sym, ap, subst, ◌∙◌, inl, inr, Bool,
  true, false, List, [], ◌∷◌, ◌++◌, Option, none, some, length, get_elem?, take, arith, dec_lt,
  get_elem?-append_last, get_elem?-take, get_elem?-lt, length-append, append_assoc, Result, ok,
}
use belt_pp.Parser.{Operator, Info, operator, value, Node, Tree, info_complete}
use belt_pp.Parser.Place.{is_same, insert, fix_same, extend}
use belt_pp.Parser.Valid.{link_of, node_link, link, Chain, IsTree, Chain-take}
use belt_pp.Parser.Grow.{standing, OperatorAt, is_empty-some, fix_same_lem}
use belt_pp.Parser.Insert.{insert_root, insert_inner}
use belt_pp.Parser.Search.{ItemAt, CompleteFrom, complete_past, point_to_lem}

-- A tree whose path is cut behind nodes that are complete.
pub cut-IsTree :
    (t : Tree) (index : ℕ) (q : List ℕ) (a : ℕ)
    → IsTree t
    → CompleteFrom t (suc index)
    → index < length t.node_address
    → take (suc index) t.node_address ≡ q ++ (a ∷ [])
    → IsTree (standing q a t.memory t.expression_string)
cut-IsTree t index q a v done h cut =
    let (b, e) = get_elem?-lt t.node_address index h in
    record {
      path = subst (Chain t.memory) cut (Chain-take t.memory (suc index) t.node_address v.path);
      rooted = v.rooted ∙ is_empty-some t.node_address index e ∙ sym (is_empty-last q a);
      counted = v.counted;
      settled = λ x n f. elim (v.settled x n f) [
        | inr d ↦ inr d
        | inl (i, g) ↦ elim (dec_lt i (suc index)) [
          | yes lt ↦ inl (
            i,
            ap (λ l. get_elem? l i) (sym cut) ∙ get_elem?-take t.node_address (suc index) i lt ∙ g,
          )
          | no ge ↦ inr (done i x n (omega arith) (g, f))
        ]
      ];
    }

-- What a change at the index leaves.
pub record Changed (t t' : Tree) (index : ℕ) : Type 0 where
  pub valid : IsTree t'
  pub text : t'.expression_string ≡ t.expression_string
  pub grows : length t'.memory ≤ length t.memory + 1
  pub reaches : index < length t'.node_address
  pub done : CompleteFrom t' (suc index)
  pub stands : (a : ℕ) × (get_elem? t'.node_address index ≡ some a) × OperatorAt t'.memory a

-- A tree whose path ends at the index is as it should be.
ending-Changed :
    (t : Tree) (index : ℕ) (q : List ℕ) (a : ℕ) (memory : List Node)
    → IsTree (standing q a memory t.expression_string)
    → length memory ≤ length t.memory + 1
    → length q ≡ index
    → OperatorAt memory a
    → Changed t (standing q a memory t.expression_string) index
ending-Changed t index q a memory v l size at =
    let long = length-append q (a ∷ []) in
    record {
      valid = v;
      text = refl;
      grows = l;
      reaches = omega arith;
      done = complete_past (standing q a memory t.expression_string) (suc index) (omega arith);
      stands = (a, ap (get_elem? (q ++ (a ∷ []))) (sym size) ∙ get_elem?-append_last q a, at);
    }

-- The operator above the end of a path.
above_end :
    (memory : List Node) (q : List ℕ) (prev a : ℕ)
    → Chain memory (q ++ (prev ∷ a ∷ []))
    → link memory prev ≡ some a
above_end memory [] prev a (lt, e, p) = e
above_end memory (x ∷ []) prev a (lt, e, p) = above_end memory [] prev a p
above_end memory (x ∷ y ∷ q) prev a (lt, e, p) = above_end memory (y ∷ q) prev a p

link-OperatorAt : (memory : List Node) (x a : ℕ) → link memory x ≡ some a → OperatorAt memory x
link-OperatorAt memory x a e = go (get_elem? memory x) refl e
  where
    go : (o : Option Node) → get_elem? memory x ≡ o → node_link o ≡ some a → OperatorAt memory x
    go none f e = cc
    go (some n) f e = inner n.info refl e
      where
        inner : (i : Info) → n.info ≡ i → link_of i ≡ some a → OperatorAt memory x
        inner (value start size) g e = cc
        inner (operator o) g e =
            (n.rtt, n.previous_peer, o, f ∙ ap (λ i. some (record n { info = i })) g)

snoc : (x : ℕ) (q : List ℕ) → (init : List ℕ) × (last : ℕ) × (x ∷ q ≡ init ++ (last ∷ []))
snoc x [] = ([], x, refl)
snoc x (y ∷ q) = let (init, last, e) = snoc y q in (x ∷ init, last, ap (λ l. x ∷ l) e)

abbrev Inserts : List ℕ → ℕ → List Node → List ℕ → ℕ → Operator → Type 0
Inserts q a memory text rtt act =
    (memory' : List Node) × (insert (standing q a memory text) (length q) rtt act
      ≡ ok (standing q (length memory) memory' text))
    × IsTree (standing q (length memory) memory' text)
    × (length memory' ≡ length memory + 1)
    × OperatorAt memory' (length memory)

insert_lem :
    (q : List ℕ) (a : ℕ) (memory : List Node) (text : List ℕ) (rtt : ℕ) (old : Node)
    (act : Operator)
    → IsTree (standing q a memory text)
    → get_elem? memory a ≡ some old
    → info_complete old.info ≡ true
    → act.children_count ≡ 0
    → length memory < 2 ^ 32 - 1
    → Inserts q a memory text rtt act
insert_lem [] a memory text rtt old act v e done fresh small =
    insert_root a memory text rtt old act v e done fresh small
insert_lem (x ∷ q) a memory text rtt old act v e done fresh small =
    let (init, prev, split) = snoc x q in
    let v' = subst (λ l. IsTree (standing l a memory text)) split v in
    let whole = subst (Chain memory) (append_assoc init (prev ∷ []) (a ∷ [])) v'.path in
    let (above_rtt, above_peer, above, e_prev) =
      link-OperatorAt memory prev a (above_end memory init prev a whole) in
    let depth : length (init ++ (prev ∷ [])) ≡ suc (length init) =
      omega (arith, length-append init (prev ∷ [])) in
    let (memory', runs, v1, size, at) =
      insert_inner init prev a memory text rtt old act above_rtt above_peer above v' e e_prev done
        fresh small in
    subst (λ l. Inserts l a memory text rtt act) (sym split)
      (
        memory',
        ap (λ i. insert (standing (init ++ (prev ∷ [])) a memory text) i rtt act) depth ∙ runs,
        v1,
        size,
        at,
      )

pub info-OperatorAt :
    (memory : List Node) (a : ℕ) (n : Node) (i : Info)
    → get_elem? memory a ≡ some n
    → n.info ≡ i
    → info_complete i ≡ false
    → OperatorAt memory a
info-OperatorAt memory a n (value start size) e f c = cc
info-OperatorAt memory a n (operator o) e f c =
    (n.rtt, n.previous_peer, o, e ∙ ap (λ i. some (record n { info = i })) f)

pub same-OperatorAt :
    (memory : List Node) (a : ℕ) (n : Node) (rtt : ℕ) (act : Operator) (i : Info)
    → get_elem? memory a ≡ some n
    → n.info ≡ i
    → is_same (record n { info = i }) rtt act ≡ true
    → OperatorAt memory a
unfolding is_same
same-OperatorAt memory a n rtt act (value start size) e f c = cc
same-OperatorAt memory a n rtt act (operator o) e f c =
    (n.rtt, n.previous_peer, o, e ∙ ap (λ i. some (record n { info = i })) f)

-- What a placement leaves: without success, the tree as it was.
abbrev pub Places : Tree → ℕ → Result (Tree × Bool) → Type 0
Places t index r =
    (t' : Tree) × (placed : Bool) × (r ≡ ok (t', placed))
    × Changed t t' index
    × (placed ≡ false → t' ≡ t)

abbrev pub address_of : List Node → Option ℕ → Option Node
address_of memory none = none
address_of memory (some a) = get_elem? memory a

pub extend_lem :
    (t : Tree) (index rtt : ℕ) (act : Operator) (a : ℕ) (n : Node)
    → IsTree t
    → index < length t.node_address
    → CompleteFrom t (suc index)
    → act.children_count ≡ 0
    → length t.memory < 2 ^ 32 - 1
    → ItemAt t index a n
    → (same : Bool) → (same ≡ true → OperatorAt t.memory a)
    → (same ≡ false → info_complete n.info ≡ true)
    → Places t index (extend t index rtt act same)
unfolding extend
extend_lem t index rtt act a n v h done fresh small (e, f) true op complete =
    let (q, b, points, size, here, cut) = point_to_lem t index v h in
    let (r, peer, o, g) = op refl in
    let v1 = cut-IsTree t index q b v done h cut in
    let same : some b ≡ some a = sym here ∙ e in
    let at_b = ap (address_of t.memory) same ∙ g in
    let (memory', runs, v2, l, at) =
      fix_same_lem q b t.memory t.expression_string r peer o act v1 at_b in
    let runs' =
      ap (λ i. fix_same (standing q b t.memory t.expression_string) i act) (sym size) ∙ runs in
    (
      standing q b memory' t.expression_string,
      true,
      rw (points, runs') refl,
      ending-Changed t index q b memory' v2 (omega arith) size at,
      λ x. cc,
    )
extend_lem t index rtt act a n v h done fresh small (e, f) false op complete =
    let (q, b, points, size, here, cut) = point_to_lem t index v h in
    let v1 = cut-IsTree t index q b v done h cut in
    let same : some b ≡ some a = sym here ∙ e in
    let at_b = ap (address_of t.memory) same ∙ f in
    let (memory', runs, v2, l, at) =
      insert_lem q b t.memory t.expression_string rtt n act v1 at_b (complete refl) fresh small in
    let runs' =
      ap (λ i. insert (standing q b t.memory t.expression_string) i rtt act) (sym size) ∙ runs in
    (
      standing q (length t.memory) memory' t.expression_string,
      true,
      rw (points, runs') refl,
      ending-Changed t index q (length t.memory) memory' v2 (omega arith) size at,
      λ x. cc,
    )
