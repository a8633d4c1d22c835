-- ===== src/Master/PrefixTree/Shape.antt =====
-- The tree of src/master/prefix_tree.cc without its sizes and domains, and what a path leads to.
use ctgfs.Prelude.{
  ℕ, ◌<◌, ◌≡◌, refl, sym, ◌∙◌, ap, true, false, Option, none, some, List, [], ◌∷◌, arith, All,
}
use ctgfs.Prelude.Bytes.{Bytes, bytes_lt}
use ctgfs.Master.PrefixTree.{Node, KvInfo, PrefixTree, child_at, push_up, set_domain_id}
use ctgfs.Master.PrefixTree.Children.{IsSorted, child-nil, child-cons}

-- The same nodes but for sizes and domains.
pub record IsSame (t u : PrefixTree) : Type 0 where
  pub sizes : t.size ≡ u.size
  pub dirs : (a : ℕ) → (t.nodes a).is_dir ≡ (u.nodes a).is_dir
  pub paths : (a : ℕ) → (t.nodes a).path ≡ (u.nodes a).path
  pub inos : (a : ℕ) → (t.nodes a).ino ≡ (u.nodes a).ino
  pub lists : (a : ℕ) → (t.nodes a).list ≡ (u.nodes a).list
  pub parents : (a : ℕ) → (t.nodes a).parent ≡ (u.nodes a).parent

pub IsSame-refl : (t : PrefixTree) → IsSame t t
IsSame-refl t = record {
  sizes = refl;
  dirs = λ a. refl;
  paths = λ a. refl;
  inos = λ a. refl;
  lists = λ a. refl;
  parents = λ a. refl;
}

pub IsSame-trans : (t u v : PrefixTree) → IsSame t u → IsSame u v → IsSame t v
IsSame-trans t u v r s = record {
  sizes = r.sizes ∙ s.sizes;
  dirs = λ a. r.dirs a ∙ s.dirs a;
  paths = λ a. r.paths a ∙ s.paths a;
  inos = λ a. r.inos a ∙ s.inos a;
  lists = λ a. r.lists a ∙ s.lists a;
  parents = λ a. r.parents a ∙ s.parents a;
}

-- Sizes too.
pub record IsStill (t u : PrefixTree) : Type 0 where
  pub same : IsSame t u
  pub szs : (a : ℕ) → (t.nodes a).sz ≡ (u.nodes a).sz

pub IsStill-trans : (t u v : PrefixTree) → IsStill t u → IsStill u v → IsStill t v
IsStill-trans t u v r s = record {
  same = IsSame-trans t u v r.same s.same;
  szs = λ a. r.szs a ∙ s.szs a;
}

pub push_up-IsSame : (t : PrefixTree) (a : ℕ) → IsSame t (push_up t a)
unfolding push_up
push_up-IsSame t a = record {
  sizes = refl;
  dirs = λ b. ground arith;
  paths = λ b. ground arith;
  inos = λ b. ground arith;
  lists = λ b. ground arith;
  parents = λ b. ground arith;
}

pub kvs-IsStill : (t : PrefixTree) (kvs : List KvInfo) → IsStill t (record t { kv_list = kvs })
kvs-IsStill t kvs = record {
  same = record {
    sizes = refl;
    dirs = λ a. refl;
    paths = λ a. refl;
    inos = λ a. refl;
    lists = λ a. refl;
    parents = λ a. refl;
  };
  szs = λ a. refl;
}

set_domain_id-IsSame : (t : PrefixTree) (a : ℕ) (d : Option ℕ) → IsSame t (set_domain_id t a d)
set_domain_id-IsSame t a d = record {
  sizes = refl;
  dirs = λ b. ground arith;
  paths = λ b. ground arith;
  inos = λ b. ground arith;
  lists = λ b. ground arith;
  parents = λ b. ground arith;
}

pub domain-IsStill :
    (t : PrefixTree) (a : ℕ) (d : Option ℕ) (kvs : List KvInfo)
    → IsStill t (record (set_domain_id t a d) { kv_list = kvs })
domain-IsStill t a d kvs = record {
  same =
      IsSame-trans _ _ _ (set_domain_id-IsSame t a d) (kvs-IsStill (set_domain_id t a d) kvs).same;
  szs = λ b. ground arith;
}

abbrev pub then_find : (ℕ → Option ℕ) → Option ℕ → Option ℕ
then_find f none = none
then_find f (some c) = f c

-- The node that the names lead to from a node.
unfoldable pub find : (ℕ → Node) → ℕ → List Bytes → Option ℕ
find nodes a [] = some a
find nodes a (p ∷ ps) = then_find (λ c. find nodes c ps) (child_at nodes (nodes a).list p)

-- Names of a node from the root, the last one first.
abbrev pub FullPath : Type 0
FullPath = ℕ → List Bytes

pub record IsChild (t : PrefixTree) (full : FullPath) (a c : ℕ) : Type 0 where
  pub later : a < c
  pub made : c < t.size
  pub named : full c ≡ (t.nodes c).path ∷ full a
  pub owned : (t.nodes c).parent ≡ some a

pub record IsTree (t : PrefixTree) (full : FullPath) : Type 0 where
  pub root : (t.nodes 0).is_dir ≡ true
  pub rooted : full 0 ≡ []
  pub started : 0 < t.size
  pub children : (a : ℕ) → a < t.size → All (IsChild t full a) (t.nodes a).list
  pub sorted : (a : ℕ) → a < t.size → IsSorted t.nodes (t.nodes a).list
  pub files : (a : ℕ) → a < t.size → (t.nodes a).is_dir ≡ false → (t.nodes a).list ≡ []

pub All-map : (P Q : ℕ → Type 0) (l : List ℕ) → ((c : ℕ) → P c → Q c) → All P l → All Q l
All-map P Q [] f h = tt
All-map P Q (c ∷ l) f (h, hs) = (f c h, All-map P Q l f hs)

-- The children of a list by their paths alone.
pub child-same :
    (nodes other : ℕ → Node) (l : List ℕ) (p : Bytes)
    → All (λ b. (nodes b).path ≡ (other b).path) l
    → child_at nodes l p ≡ child_at other l p
child-same nodes other [] p h = child-nil nodes p ∙ sym (child-nil other p)
child-same nodes other (a ∷ l) p (h, hs) =
    ground (arith, child-cons nodes a l p, child-cons other a l p, child-same nodes other l p hs)

behind-same :
    (nodes other : ℕ → Node) (p q : Bytes) (l : List ℕ)
    → p ≡ q
    → All (λ b. (nodes b).path ≡ (other b).path) l
    → All (λ b. bytes_lt p (nodes b).path ≡ true) l
    → All (λ b. bytes_lt q (other b).path ≡ true) l
behind-same nodes other p q [] e h b = tt
behind-same nodes other p q (a ∷ l) e (h, hs) (b, bs) = (cc, behind-same nodes other p q l e hs bs)

pub IsSorted-same :
    (nodes other : ℕ → Node) (l : List ℕ)
    → All (λ b. (nodes b).path ≡ (other b).path) l
    → IsSorted nodes l
    → IsSorted other l
IsSorted-same nodes other [] h s = tt
IsSorted-same nodes other (a ∷ l) (h, hs) (b, s) =
    (behind-same nodes other _ _ l h hs b, IsSorted-same nodes other l hs s)

pub every-All : (P : ℕ → Type 0) (l : List ℕ) → ((c : ℕ) → P c) → All P l
every-All P [] f = tt
every-All P (c ∷ l) f = (f c, every-All P l f)

pub find-same :
    (t u : PrefixTree) (a : ℕ) (ps : List Bytes)
    → IsSame t u
    → find t.nodes a ps ≡ find u.nodes a ps
unfolding find
find-same t u a [] s = refl
find-same t u a (p ∷ ps) s =
    ap (λ l. then_find (λ c. find t.nodes c ps) (child_at t.nodes l p)) (s.lists a)
    ∙ ap (then_find (λ c. find t.nodes c ps))
        (child-same t.nodes u.nodes (u.nodes a).list p (every-All _ _ s.paths))
    ∙ ap (λ f. then_find f (child_at u.nodes (u.nodes a).list p)) (λ i c. find-same t u c ps s i)

pub IsTree-same : (t u : PrefixTree) (full : FullPath) → IsSame t u → IsTree t full → IsTree u full
IsTree-same t u full s h = record {
  root = sym (s.dirs 0) ∙ h.root;
  rooted = h.rooted;
  started = rw (sym s.sizes) h.started;
  children = λ a lt. rw (sym (s.lists a)) (
      All-map _ _ _
        (λ c k. record {
          later = k.later;
          made = rw (sym s.sizes) k.made;
          named = rw (sym (s.paths c)) k.named;
          owned = sym (s.parents c) ∙ k.owned;
        })
        (h.children a (rw s.sizes lt)));
  sorted = λ a lt.
      rw (sym (s.lists a))
        (IsSorted-same t.nodes u.nodes _ (every-All _ _ s.paths) (h.sorted a (rw s.sizes lt)));
  files = λ a lt e. sym (s.lists a) ∙ h.files a (rw s.sizes lt) (s.dirs a ∙ e);
}
