-- ===== src/Master/PrefixTree/Search.antt =====
-- The search for the nearest domain of src/master/prefix_tree.cc: the number of nodes is fuel enough.
use ctgfs.Prelude.{
  ℕ, zero, suc, ◌+◌, ◌<◌, ◌≤◌, ◌≡◌, refl, ap, ◌∙◌, Bool, true, false, List, [], ◌∷◌, ◌++◌, arith,
  All, ◌==◌, if◌then◌else◌,
}
use ctgfs.Master.PrefixTree.{PrefixTree}
use ctgfs.Master.PrefixTree.Shape.{IsTree, IsChild, FullPath, All-map}
use ctgfs.Master.PrefixTree.Domains.{
  Info, each_child, rev, in_order, visit_node, do_get_near_by_domain_id,
}

append-All : (P : ℕ → Type 0) (l m : List ℕ) → All P l → All P m → All P (l ++ m)
append-All P [] m h k = k
append-All P (a ∷ l) m (h, hs) k = (h, append-All P l m hs k)

rev-All : (P : ℕ → Type 0) (l : List ℕ) → All P l → All P (rev l)
rev-All P [] h = tt
rev-All P (a ∷ l) (h, hs) = append-All P (rev l) (a ∷ []) (rev-All P l hs) (h, tt)

in_order-All : (P : ℕ → Type 0) (b : Bool) (l : List ℕ) → All P l → All P (in_order b l)
in_order-All P true l h = rev-All P l h
in_order-All P false l h = h

each_child-same :
    (f g : ℕ → Info → Bool × Info) (l : List ℕ) (info : Info)
    → All (λ c. (i : Info) → f c i ≡ g c i) l
    → each_child f l info ≡ each_child g l info
each_child-same f g [] info h = refl
each_child-same f g (c ∷ cs) info (h, hs) =
    ap (λ r. if r.0 then each_child f cs r.1 else (false, r.1)) (h info)
    ∙ ap (λ r. if (g c info).0 then r else (false, (g c info).1))
        (each_child-same f g cs (g c info).1 hs)

-- No path down the tree is longer than the number of nodes: more fuel than that changes nothing.
pub search_ends :
    (t : PrefixTree) (full : FullPath) (m n a target : ℕ) (b : Bool) (info : Info)
    → IsTree t full
    → a < t.size
    → t.size ≤ a + m
    → t.size ≤ a + n
    → do_get_near_by_domain_id m t.nodes a target b info
      ≡ do_get_near_by_domain_id n t.nodes a target b info
unfolding do_get_near_by_domain_id
search_ends t full zero n a target b info h lt p q = absurd (omega arith)
search_ends t full (suc m) zero a target b info h lt p q = absurd (omega arith)
search_ends t full (suc m) (suc n) a target b info h lt p q =
    ap (λ r. if a == target then (false, info) else visit_node a (t.nodes a).domain_id info r)
      (each_child-same _ _ (in_order b (t.nodes a).list) info (
        in_order-All _ b (t.nodes a).list (
          All-map (IsChild t full a) _ _
            (λ c k i.
              let later = k.later in
              search_ends t full m n c target b i h k.made (omega arith) (omega arith))
            (h.children a lt))))
