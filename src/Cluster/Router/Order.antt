-- ===== src/Cluster/Router/Order.antt =====
-- The order by which `healthyNodes` sorts.
use poker.Cluster.Registry.{NodeInfo, insert_node, node_before, sort_nodes, text_lt}
use poker.Prelude.{Bool-cases, List, Text, [], arith, false, inl, inr, refl, true, ◌∷◌, ◌≡◌}

text_lt_asym : (x y : Text) → text_lt x y ≡ true → text_lt y x ≡ false
unfolding text_lt
text_lt_asym [] [] h = cc
text_lt_asym [] (y ∷ ys) h = refl
text_lt_asym (x ∷ xs) [] h = cc
text_lt_asym (x ∷ xs) (y ∷ ys) h = ground (arith, text_lt_asym xs ys, h)

text_lt_negtrans : (x y z : Text) → text_lt x y ≡ false → text_lt y z ≡ false → text_lt x z ≡ false
unfolding text_lt
text_lt_negtrans [] [] z h k = k
text_lt_negtrans [] (y ∷ ys) z h k = cc
text_lt_negtrans (x ∷ xs) y [] h k = refl
text_lt_negtrans (x ∷ xs) [] (z ∷ zs) h k = cc
text_lt_negtrans (x ∷ xs) (y ∷ ys) (z ∷ zs) h k = ground (arith, text_lt_negtrans xs ys zs, h, k)

node_before_asym : (m n : NodeInfo) → node_before m n ≡ true → node_before n m ≡ false
unfolding node_before
node_before_asym m n h = ground (arith, text_lt_asym m.node_id n.node_id, h)

pub node_before_irrefl : (n : NodeInfo) → node_before n n ≡ false
node_before_irrefl n = elim (Bool-cases (node_before n n)) [
  | inl e ↦ node_before_asym n n e
  | inr e ↦ e
]

node_before_negtrans :
    (l m n : NodeInfo) → node_before l m ≡ false → node_before m n ≡ false → node_before l n ≡ false
unfolding node_before
node_before_negtrans l m n h k =
    ground (arith, text_lt_negtrans l.node_id m.node_id n.node_id, h, k)

-- No node of the list stands before the node.
abbrev pub IsFirst : NodeInfo → List NodeInfo → Type 0
IsFirst n [] = Unit
IsFirst n (m ∷ nodes) = (node_before m n ≡ false) × IsFirst n nodes

abbrev pub HeadIsFirst : List NodeInfo → Type 0
HeadIsFirst [] = Unit
HeadIsFirst (n ∷ nodes) = IsFirst n nodes

IsFirst-insert :
    (n m : NodeInfo) (nodes : List NodeInfo)
    → node_before m n ≡ false
    → IsFirst n nodes
    → IsFirst n (insert_node m nodes)
unfolding insert_node
IsFirst-insert n m [] h k = (h, tt)
IsFirst-insert n m (o ∷ nodes) h (i, k) = elim (Bool-cases (node_before o m)) [
  | inl e ↦ rw e (i, IsFirst-insert n m nodes h k)
  | inr e ↦ rw e (h, (i, k))
]

IsFirst-lower :
    (n m : NodeInfo) (nodes : List NodeInfo)
    → node_before m n ≡ false
    → IsFirst m nodes
    → IsFirst n nodes
IsFirst-lower n m [] h k = tt
IsFirst-lower n m (o ∷ nodes) h (i, k) =
    (node_before_negtrans o m n i h, IsFirst-lower n m nodes h k)

pub sort_nodes-first : (nodes : List NodeInfo) → HeadIsFirst (sort_nodes nodes)
unfolding sort_nodes insert_node
sort_nodes-first [] = tt
sort_nodes-first (n ∷ nodes) = by_tail (sort_nodes nodes) (sort_nodes-first nodes)
  where
    by_tail : (l : List NodeInfo) → HeadIsFirst l → HeadIsFirst (insert_node n l)
    by_tail [] h = tt
    by_tail (m ∷ l) h = elim (Bool-cases (node_before m n)) [
      | inl e ↦ rw e (IsFirst-insert m n l (node_before_asym m n e) h)
      | inr e ↦ rw e (e, IsFirst-lower n m l e h)
    ]
