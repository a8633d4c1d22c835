-- ===== src/Master/PrefixTree/Paths.antt =====
-- Where a path leads in the tree of src/master/prefix_tree.cc, before and after a node is made.
use ctgfs.Prelude.{
  ℕ, ◌<◌, ◌≡◌, ◌≢◌, ◌⊎◌, refl, sym, ◌∙◌, ap, inl, inr, Bool, true, Option, none, some, List, [],
  ◌∷◌, ◌==◌, arith, if◌then◌else◌, Bool-cases, Option-cases,
}
use ctgfs.Prelude.Bytes.{Bytes, bytes_eq, bytes_eq_refl, bytes_eq-eq}
use ctgfs.Master.PrefixTree.{Node, PrefixTree, child_at}
use ctgfs.Master.PrefixTree.Children.{child-nil, child-All, child-path}
use ctgfs.Master.PrefixTree.Shape.{IsTree, IsChild, FullPath, find, then_find}
use ctgfs.Master.PrefixTree.Grow.{
  IsOpen, grown, grown_node, grown-new, child-grown_dir, child-grown_other,
}

-- The names of `ds` in front of `path`, the last one first.
abbrev pub onto : List Bytes → List Bytes → List Bytes
onto [] path = path
onto (q ∷ qs) path = onto qs (q ∷ path)

pub child-IsChild :
    (t : PrefixTree) (full : FullPath) (a : ℕ) (q : Bytes) (c : ℕ)
    → IsTree t full
    → a < t.size
    → child_at t.nodes (t.nodes a).list q ≡ some c
    → (a < c) × (c < t.size) × (full c ≡ q ∷ full a)
child-IsChild t full a q c h lt e =
    let k = child-All t.nodes (IsChild t full a) _ q c (h.children a lt) e in
    (k.later, k.made, k.named ∙ ap (λ p. p ∷ full a) (child-path t.nodes _ q c e))

pub child-parent :
    (t : PrefixTree) (full : FullPath) (a : ℕ) (q : Bytes) (c : ℕ)
    → IsTree t full
    → a < t.size
    → child_at t.nodes (t.nodes a).list q ≡ some c
    → (t.nodes c).parent ≡ some a
child-parent t full a q c h lt e =
    (child-All t.nodes (IsChild t full a) _ q c (h.children a lt) e).owned

pub then_find-same :
    (f g : ℕ → Option ℕ) (x : Option ℕ)
    → ((c : ℕ) → x ≡ some c → f c ≡ g c)
    → then_find f x ≡ then_find g x
then_find-same f g none h = refl
then_find-same f g (some c) h = h c refl

module _ (t : PrefixTree) (g : ℕ) (p : Bytes) (ino : ℕ) (is_dir : Bool) (sz : ℕ) where
  abbrev new : PrefixTree
  new = grown t g p ino is_dir sz

  module _ (full : FullPath) (o : IsOpen t g p ino is_dir sz full) where
    -- Nothing is below the new node.
    below_new : (qs : List Bytes) (q : Bytes) → find new.nodes t.size (q ∷ qs) ≡ none
    unfolding find
    below_new qs q =
        ap (λ n. then_find (λ c. find new.nodes c qs) (child_at new.nodes n.list q))
          (grown-new t g p ino is_dir sz o.there)
        ∙ ap (then_find (λ c. find new.nodes c qs)) (child-nil new.nodes q)

    at_new : (qs : List Bytes) → onto qs (p ∷ full g) ≢ p ∷ full g → find new.nodes t.size qs ≡ none
    at_new [] ne = absurd (ne refl)
    at_new (q ∷ qs) ne = below_new qs q

    pub child-grown_new : child_at new.nodes (new.nodes g).list p ≡ some t.size
    child-grown_new =
        child-grown_dir t g p ino is_dir sz full o p
        ∙ ap (λ b. if b then some t.size else child_at t.nodes (t.nodes g).list p) (bytes_eq_refl p)

    new_name :
        (qs : List Bytes)
        → onto qs (p ∷ full g) ≢ p ∷ full g
        → then_find (λ c. find new.nodes c qs) (child_at new.nodes (new.nodes g).list p)
          ≡ then_find (λ c. find t.nodes c qs) (child_at t.nodes (t.nodes g).list p)
    new_name qs ne =
        ap (then_find (λ c. find new.nodes c qs)) child-grown_new
        ∙ at_new qs ne
        ∙ ap (then_find (λ c. find t.nodes c qs)) (sym o.absent)

    pub find-other :
        (a : ℕ) (ds : List Bytes)
        → a < t.size
        → onto ds (full a) ≢ p ∷ full g
        → find new.nodes a ds ≡ find t.nodes a ds
    unfolding find
    find-other a [] lt ne = refl
    find-other a (q ∷ qs) lt ne =
        let below : (x : Option ℕ)
            → x ≡ child_at t.nodes (t.nodes a).list q
            → then_find (λ c. find new.nodes c qs) x ≡ then_find (λ c. find t.nodes c qs) x =
          λ x k. then_find-same _ _ x (λ c e.
            let (_, made, named) = child-IsChild t full a q c o.tree lt (sym k ∙ e) in
            find-other c qs made (λ h. ne (ap (onto qs) (sym named) ∙ h))) in
        elim (Bool-cases (a == g)) [
          | inl e ↦
              let same : a ≡ g = ground arith in
              elim (Bool-cases (bytes_eq p q)) [
                | inl k ↦
                    let named = bytes_eq-eq p q k in
                    rw (same, sym named)
                      (new_name qs (λ h. ne (
                        ap (λ x. onto qs (x ∷ full a)) (sym named)
                        ∙ ap (λ b. onto qs (p ∷ full b)) same
                        ∙ h)))
                | inr k ↦
                    ap (then_find (λ c. find new.nodes c qs)) (
                      ap (λ b. child_at new.nodes (new.nodes b).list q) same
                      ∙ child-grown_dir t g p ino is_dir sz full o q
                      ∙ rw (k, same) refl)
                    ∙ below _ refl
              ]
          | inr e ↦
              ap (then_find (λ c. find new.nodes c qs))
                (child-grown_other t g p ino is_dir sz full o a q lt (ground arith))
              ∙ below _ refl
        ]

-- The directory and the name that a path ends at, where the name is free.
abbrev pub then_target : (ℕ → Option (ℕ × Bytes)) → Option ℕ → Option (ℕ × Bytes)
then_target f none = none
then_target f (some c) = f c

abbrev pub if_free : ℕ → Bytes → Option ℕ → Option (ℕ × Bytes)
if_free a p none = some (a, p)
if_free a p (some c) = none

unfoldable pub target : (ℕ → Node) → ℕ → Bytes → List Bytes → Option (ℕ × Bytes)
target nodes a p [] =
    if (nodes a).is_dir then if_free a p (child_at nodes (nodes a).list p) else none
target nodes a p (q ∷ qs) = then_target (λ c. target nodes c q qs) (child_at nodes (nodes a).list p)

target-last :
    (nodes : ℕ → Node) (a : ℕ) (cur : Bytes) (g : ℕ) (p : Bytes)
    → target nodes a cur [] ≡ some (g, p)
    → ((nodes a).is_dir ≡ true) × (child_at nodes (nodes a).list cur ≡ none) × (a ≡ g) × (cur ≡ p)
unfolding target
target-last nodes a cur g p e = elim (Option-cases (child_at nodes (nodes a).list cur)) [
  | inl k ↦ ground arith
  | inr (c, k) ↦ ground arith
]

pub target-below :
    (nodes : ℕ → Node) (a : ℕ) (cur q : Bytes) (qs : List Bytes) (x : Option (ℕ × Bytes))
    → target nodes a cur (q ∷ qs) ≡ x
    → ((child_at nodes (nodes a).list cur ≡ none) × (x ≡ none))
      ⊎ ((c : ℕ) × (child_at nodes (nodes a).list cur ≡ some c) × (target nodes c q qs ≡ x))
unfolding target
target-below nodes a cur q qs x e = elim (Option-cases (child_at nodes (nodes a).list cur)) [
  | inl k ↦ inl (k, ground arith)
  | inr (c, k) ↦ inr (c, k, ap (then_target (λ d. target nodes d q qs)) (sym k) ∙ e)
]

module _ (t : PrefixTree) (ino : ℕ) (is_dir : Bool) (sz : ℕ) (full : FullPath)
    (h : IsTree t full) where
  pub target-IsOpen :
      (a : ℕ) (cur : Bytes) (path : List Bytes) (g : ℕ) (p : Bytes)
      → a < t.size
      → target t.nodes a cur path ≡ some (g, p)
      → IsOpen t g p ino is_dir sz full × (onto (cur ∷ path) (full a) ≡ p ∷ full g)
  target-IsOpen a cur [] g p lt e =
      let (dir, free, same, named) = target-last t.nodes a cur g p e in
      (
        record {
          tree = h;
          there = rw (sym same) lt;
          dir = rw (sym same) dir;
          absent = rw (sym same, sym named) free;
        },
        ap (λ b. cur ∷ full b) same ∙ ap (λ n. n ∷ full g) named,
      )
  target-IsOpen a cur (q ∷ qs) g p lt e = elim (target-below t.nodes a cur q qs _ e) [
    | inl (k, none_there) ↦ absurd cc
    | inr (c, k, there) ↦
        let (_, made, named) = child-IsChild t full a cur c h lt k in
        let (free, ends) = target-IsOpen c q qs g p made there in
        (free, ap (λ r. onto (q ∷ qs) r) (sym named) ∙ ends)
  ]

  -- A child that is there is there still.
  child-kept :
      (g : ℕ) (p : Bytes) (a : ℕ) (q : Bytes) (c : ℕ)
      → IsOpen t g p ino is_dir sz full
      → a < t.size
      → child_at t.nodes (t.nodes a).list q ≡ some c
      → child_at (grown_node t g p ino is_dir sz) (grown_node t g p ino is_dir sz a).list q ≡ some c
  child-kept g p a q c o lt e = elim (Bool-cases (a == g)) [
    | inl k ↦
        let same : a ≡ g = ground arith in
        let at_g = child-grown_dir t g p ino is_dir sz full o q in
        let free = o.absent in
        elim (Bool-cases (bytes_eq p q)) [
          | inl n ↦ let named = bytes_eq-eq p q n in absurd cc
          | inr n ↦
              rw same (at_g ∙ rw n (ap (λ b. child_at t.nodes (t.nodes b).list q) (sym same) ∙ e))
        ]
    | inr k ↦ child-grown_other t g p ino is_dir sz full o a q lt (ground arith) ∙ e
  ]

  -- The path leads to the new node.
  pub find-new :
      (a : ℕ) (cur : Bytes) (path : List Bytes) (g : ℕ) (p : Bytes)
      → a < t.size
      → target t.nodes a cur path ≡ some (g, p)
      → find (grown_node t g p ino is_dir sz) a (cur ∷ path) ≡ some t.size
  unfolding find
  find-new a cur [] g p lt e =
      let (free, _) = target-IsOpen a cur [] g p lt e in
      let (_, _, same, named) = target-last t.nodes a cur g p e in
      let there : child_at (grown_node t g p ino is_dir sz) (grown_node t g p ino is_dir sz a).list
            cur
          ≡ some t.size =
        rw (same, named) (child-grown_new t g p ino is_dir sz full free) in
      ap (then_find (λ c. some c)) there
  find-new a cur (q ∷ qs) g p lt e = elim (target-below t.nodes a cur q qs _ e) [
    | inl (k, none_there) ↦ absurd cc
    | inr (c, k, there) ↦
        let (free, _) = target-IsOpen a cur (q ∷ qs) g p lt e in
        let (_, made, _) = child-IsChild t full a cur c h lt k in
        ap (then_find (λ d. find (grown_node t g p ino is_dir sz) d (q ∷ qs)))
          (child-kept g p a cur c free lt k)
        ∙ find-new c q qs g p made there
  ]
