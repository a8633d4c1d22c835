-- ===== src/Master/PrefixTree/Grow.antt =====
-- A new node in the tree of src/master/prefix_tree.cc: the shape of the tree, and what paths lead to.
use ctgfs.Prelude.{
  ℕ, ◌+◌, ◌<◌, ◌≡◌, ◌≢◌, ◌⊎◌, sym, ◌∙◌, ap, inl, inr, Bool, true, false, none, some, [], ◌∷◌, ◌==◌,
  arith, All, if◌then◌else◌,
}
use ctgfs.Prelude.Bytes.{Bytes, bytes_eq}
use ctgfs.Master.PrefixTree.{
  Node, PrefixTree, new_node, child_at, insert_at, insert_found, insert_node,
}
use ctgfs.Master.PrefixTree.Children.{IsSorted, child-insert, insert-All, insert-IsSorted}
use ctgfs.Master.PrefixTree.Shape.{
  IsTree, IsChild, FullPath, every-All, All-map, child-same, IsSorted-same,
}
use ctgfs.Master.PrefixTree.Ops.{allocated, made}

module _ (t : PrefixTree) (g : ℕ) (p : Bytes) (ino : ℕ) (is_dir : Bool) (sz : ℕ) where
  unfoldable pub fresh : ℕ → Node
  fresh b = if b == t.size then new_node is_dir p ino (some g) sz else t.nodes b

  unfoldable pub grown_node : ℕ → Node
  grown_node b =
      if b == g then record (fresh g) { list = insert_at fresh (fresh g).list t.size } else fresh b

  abbrev pub grown : PrefixTree
  grown = record t { nodes = grown_node; size = t.size + 1 }

  fresh-new : fresh t.size ≡ new_node is_dir p ino (some g) sz
  unfolding fresh
  fresh-new = ground arith

  fresh-old : (b : ℕ) → b < t.size → fresh b ≡ t.nodes b
  unfolding fresh
  fresh-old b lt = ground arith

  pub grown-new : g < t.size → grown_node t.size ≡ new_node is_dir p ino (some g) sz
  unfolding grown_node
  grown-new lt = ground (arith, fresh-new)

  pub grown-other : (b : ℕ) → b < t.size → b ≢ g → grown_node b ≡ t.nodes b
  unfolding grown_node
  grown-other b lt ne = ground (arith, fresh-old b)

  pub grown-dir :
      g < t.size
      → grown_node g ≡ record (t.nodes g) { list = insert_at fresh (t.nodes g).list t.size }
  unfolding grown_node
  grown-dir lt =
      let first : grown_node g ≡ record (fresh g) { list = insert_at fresh (fresh g).list t.size } =
        ground arith in
      first
      ∙ ap {A = Node} {B = Node} (λ n. record n { list = insert_at fresh n.list t.size })
          (fresh-old g lt)

  grown-path : (b : ℕ) → (fresh b).path ≡ (grown_node b).path
  unfolding grown_node
  grown-path b = ground arith

  abbrev pub grown_path : FullPath → FullPath
  grown_path full b = if b == t.size then p ∷ full g else full b

  pub grown-view :
      (b : ℕ)
      → b < t.size
      → ((grown_node b).is_dir ≡ (t.nodes b).is_dir)
        × ((grown_node b).ino ≡ (t.nodes b).ino)
        × ((grown_node b).parent ≡ (t.nodes b).parent)
  unfolding grown_node fresh
  grown-view b lt = ground arith

  -- The directory is there, and the name is not.
  pub record IsOpen (full : FullPath) : Type 0 where
    pub tree : IsTree t full
    pub there : g < t.size
    pub dir : (t.nodes g).is_dir ≡ true
    pub absent : child_at t.nodes (t.nodes g).list p ≡ none

  module _ (full : FullPath) (o : IsOpen full) where
    fresh_paths :
        (a : ℕ) → a < t.size → All (λ b. (t.nodes b).path ≡ (fresh b).path) (t.nodes a).list
    fresh_paths a lt =
        All-map _ _ _ (λ c k. sym (ap (λ n. n.path) (fresh-old c k.made))) (o.tree.children a lt)

    fresh_absent : child_at fresh (t.nodes g).list (fresh t.size).path ≡ none
    fresh_absent =
        ap (λ n. child_at fresh (t.nodes g).list n.path) fresh-new
        ∙ sym (child-same t.nodes fresh _ p (fresh_paths g o.there))
        ∙ o.absent

    pub made-grown : made t g p ino is_dir sz ≡ grown
    unfolding insert_node fresh grown_node
    made-grown = ap (insert_found (allocated t g p ino is_dir sz) g t.size) (
        ap (λ l. child_at fresh l (fresh t.size).path) (ap (λ n. n.list) (fresh-old g o.there))
        ∙ fresh_absent)

    pub list-grown : (grown_node g).list ≡ insert_at fresh (t.nodes g).list t.size
    list-grown = ap (λ n. n.list) (grown-dir o.there)

    fresh-IsSorted : IsSorted fresh (t.nodes g).list
    fresh-IsSorted = IsSorted-same t.nodes fresh _ (fresh_paths g o.there) (o.tree.sorted g o.there)

    pub child-grown_dir :
        (q : Bytes)
        → child_at grown_node (grown_node g).list q
          ≡ (if bytes_eq p q then some t.size else child_at t.nodes (t.nodes g).list q)
    child-grown_dir q =
        ap (λ l. child_at grown_node l q) list-grown
        ∙ sym (child-same fresh grown_node _ q (every-All _ _ grown-path))
        ∙ child-insert fresh (t.nodes g).list t.size q fresh-IsSorted fresh_absent
        ∙ ap (λ n. if bytes_eq n.path q then some t.size else child_at fresh (t.nodes g).list q)
            fresh-new
        ∙ ap (λ r. if bytes_eq p q then some t.size else r)
            (sym (child-same t.nodes fresh _ q (fresh_paths g o.there)))

    grown_paths :
        (a : ℕ) → a < t.size → All (λ b. (t.nodes b).path ≡ (grown_node b).path) (t.nodes a).list
    grown_paths a lt =
        All-map _ _ _ (λ c k. ap (λ n. n.path) (sym (fresh-old c k.made)) ∙ grown-path c)
          (o.tree.children a lt)

    pub child-grown_other :
        (b : ℕ) (q : Bytes)
        → b < t.size
        → b ≢ g
        → child_at grown_node (grown_node b).list q ≡ child_at t.nodes (t.nodes b).list q
    child-grown_other b q lt ne =
        ap (λ n. child_at grown_node n.list q) (grown-other b lt ne)
        ∙ sym (child-same t.nodes grown_node _ q (grown_paths b lt))

    IsChild-kept : (a c : ℕ) → IsChild t full a c → IsChild grown (grown_path full) a c
    IsChild-kept a c k = record {
      later = k.later;
      made = let made = k.made in omega arith;
      named =
          let made = k.made in
          let later = k.later in
          let path : (grown_node c).path ≡ (t.nodes c).path =
            sym (grown-path c) ∙ ap (λ n. n.path) (fresh-old c made) in
          let named = k.named in ground arith;
      owned = let (_, _, parent) = grown-view c k.made in parent ∙ k.owned;
    }

    new-IsChild : IsChild grown (grown_path full) g t.size
    new-IsChild = record {
      later = o.there;
      made = omega arith;
      named =
          let path = ap (λ n. n.path) (grown-new o.there) in let there = o.there in ground arith;
      owned = ap (λ n. n.parent) (grown-new o.there);
    }

    which_node : (a : ℕ) → a < t.size + 1 → (a ≡ t.size) ⊎ (a ≡ g) ⊎ ((a < t.size) × (a ≢ g))
    which_node a lt = ground arith

    grown-All :
        (P : ℕ → Type 0) (a : ℕ)
        → a < t.size + 1
        → (a ≡ g → P t.size)
        → (a < t.size → All P (t.nodes a).list)
        → All P (grown_node a).list
    grown-All P a lt new old = elim (which_node a lt) [
      | inl e ↦ rw e (rw (ap (λ n. n.list) (grown-new o.there)) tt)
      | inr (inl e) ↦ rw e (
          rw list-grown
            (insert-All fresh P (t.nodes g).list t.size (new e) (rw (sym e) (old (rw e o.there)))))
      | inr (inr (lt', ne)) ↦ rw (ap (λ n. n.list) (grown-other a lt' ne)) (old lt')
    ]

    grown-IsSorted : (a : ℕ) → a < t.size + 1 → IsSorted grown_node (grown_node a).list
    grown-IsSorted a lt = elim (which_node a lt) [
      | inl e ↦ rw e (rw (ap (λ n. n.list) (grown-new o.there)) tt)
      | inr (inl e) ↦ rw e (
          rw list-grown (
            IsSorted-same fresh grown_node _ (every-All _ _ grown-path)
              (insert-IsSorted fresh (t.nodes g).list t.size fresh-IsSorted fresh_absent)))
      | inr (inr (lt', ne)) ↦
          rw (ap (λ n. n.list) (grown-other a lt' ne))
            (IsSorted-same t.nodes grown_node _ (grown_paths a lt') (o.tree.sorted a lt'))
    ]

    grown_files :
        (a : ℕ) → a < t.size + 1 → (grown_node a).is_dir ≡ false → (grown_node a).list ≡ []
    grown_files a lt f = elim (which_node a lt) [
      | inl e ↦ rw e (ap (λ n. n.list) (grown-new o.there))
      | inr (inl e) ↦
          let (dir, _, _) = grown-view a (rw e o.there) in let is_dir = o.dir in absurd cc
      | inr (inr (lt', ne)) ↦
          let (dir, _, _) = grown-view a lt' in
          ap (λ n. n.list) (grown-other a lt' ne) ∙ o.tree.files a lt' cc
    ]

    pub grown-IsTree : IsTree grown (grown_path full)
    grown-IsTree = record {
      root = let (dir, _, _) = grown-view 0 o.tree.started in dir ∙ o.tree.root;
      rooted = let started = o.tree.started in let rooted = o.tree.rooted in ground arith;
      started = omega arith;
      children = λ a lt.
          grown-All (IsChild grown (grown_path full) a) a lt (λ e. rw e new-IsChild)
            (λ lt'. All-map _ _ _ (IsChild-kept a) (o.tree.children a lt'));
      sorted = grown-IsSorted;
      files = grown_files;
    }
