-- ===== src/Master/PrefixTree/Sizes.antt =====
-- The sizes that pushUp of src/master/prefix_tree.cc keeps.
pub mod Kept
use ctgfs.Prelude.{
  ℕ, zero, ◌+◌, ◌%◌, ◌^◌, ◌<◌, ◌≡◌, ◌≢◌, ◌⊎◌, refl, sym, ◌∙◌, ap, inl, inr, Bool, true, false,
  Option, none, some, List, [], ◌∷◌, ◌==◌, arith, All, if◌then◌else◌, Bool-cases, Option-cases,
}
use ctgfs.Prelude.Bytes.{Bytes}
use ctgfs.Master.PrefixTree.{
  Node, PrefixTree, prefix_tree, Status, child_at, insert_at, erase_at, sum_sizes, push_up, names,
}
use ctgfs.Master.PrefixTree.Shape.{
  IsSame, IsStill, IsTree, IsChild, FullPath, All-map, every-All, push_up-IsSame,
}

-- The sizes of nodes, as they are.
abbrev pub total : (ℕ → Node) → List ℕ → ℕ
total nodes [] = 0
total nodes (a ∷ l) = (nodes a).sz + total nodes l

sum_sizes-total :
    (nodes : ℕ → Node) (l : List ℕ) (sz : ℕ)
    → sum_sizes nodes l (sz % 2 ^ 64) ≡ (sz + total nodes l) % 2 ^ 64
unfolding sum_sizes
sum_sizes-total nodes [] sz = omega arith
sum_sizes-total nodes (a ∷ l) sz =
    let wraps : (sz % 2 ^ 64 + (nodes a).sz) % 2 ^ 64 ≡ (sz + (nodes a).sz) % 2 ^ 64 =
      omega arith in
    ap (sum_sizes nodes l) wraps ∙ sum_sizes-total nodes l (sz + (nodes a).sz) ∙ omega arith

-- A directory with children has the size of its children.
abbrev pub AddsUp : PrefixTree → ℕ → Type 0
AddsUp t a = ((t.nodes a).list ≡ []) ⊎ ((t.nodes a).sz ≡ total t.nodes (t.nodes a).list % 2 ^ 64)

total-kept :
    (nodes other : ℕ → Node) (l : List ℕ)
    → All (λ c. (nodes c).sz ≡ (other c).sz) l
    → total nodes l ≡ total other l
total-kept nodes other [] h = refl
total-kept nodes other (c ∷ l) (h, hs) = ground (arith, total-kept nodes other l hs)

-- The same children, and sizes of them.
pub AddsUp-kept :
    (t u : PrefixTree) (x : ℕ)
    → (t.nodes x).list ≡ (u.nodes x).list
    → (t.nodes x).sz ≡ (u.nodes x).sz
    → All (λ c. (t.nodes c).sz ≡ (u.nodes c).sz) (t.nodes x).list
    → AddsUp t x
    → AddsUp u x
AddsUp-kept t u x l s h (inl e) = inl (sym l ∙ e)
AddsUp-kept t u x l s h (inr e) =
    inr (sym s ∙ e ∙ ap (λ n. n % 2 ^ 64) (total-kept t.nodes u.nodes _ h ∙ ap (total u.nodes) l))

push_up-other : (t : PrefixTree) (a b : ℕ) → b ≢ a → ((push_up t a).nodes b).sz ≡ (t.nodes b).sz
unfolding push_up
push_up-other t a b ne = ground arith

push_up-sum :
    (t : PrefixTree) (a : ℕ) → ((push_up t a).nodes a).sz ≡ total t.nodes (t.nodes a).list % 2 ^ 64
unfolding push_up
push_up-sum t a =
    let kept : ((push_up t a).nodes a).sz ≡ sum_sizes t.nodes (t.nodes a).list 0 = ground arith in
    kept ∙ sum_sizes-total t.nodes (t.nodes a).list 0 ∙ omega arith

-- All but the parent of `a`.
abbrev pub SumsBut : PrefixTree → ℕ → Type 0
SumsBut t a = (x : ℕ) → x < t.size → (t.nodes a).parent ≢ some x → AddsUp t x

-- The sum that may be wrong is put right.
pub push_up-SumsBut :
    (t : PrefixTree) (full : FullPath) (a : ℕ)
    → IsTree t full
    → ((x : ℕ) → x < t.size → x ≢ a → (t.nodes a).parent ≢ some x → AddsUp t x)
    → SumsBut (push_up t a) a
push_up-SumsBut t full a h sums x lt ne =
    let same = push_up-IsSame t a in
    let apart : (t.nodes a).parent ≢ some x = λ e. ne (sym (same.parents a) ∙ e) in
    let children : All (λ c. (t.nodes c).sz ≡ ((push_up t a).nodes c).sz) (t.nodes x).list =
      All-map (IsChild t full x) _ _
        (λ c k.
          sym (push_up-other t a c (λ e. apart (ap (λ b. (t.nodes b).parent) (sym e) ∙ k.owned))))
        (h.children x (rw same.sizes lt)) in
    elim (Bool-cases (x == a)) [
      | inl e ↦
          let at_a : x ≡ a = ground arith in
          inr (
            ap (λ b. ((push_up t a).nodes b).sz) at_a
            ∙ push_up-sum t a
            ∙ ap (λ b. total t.nodes (t.nodes b).list % 2 ^ 64) (sym at_a)
            ∙ ap (λ n. n % 2 ^ 64) (total-kept t.nodes (push_up t a).nodes _ children)
            ∙ ap (λ l. total (push_up t a).nodes l % 2 ^ 64) (same.lists x))
      | inr e ↦
          AddsUp-kept t (push_up t a) x (same.lists x) (sym (push_up-other t a x (ground arith)))
            children (sums x (rw same.sizes lt) (ground arith) apart)
    ]

pub AddsUp-still : (t u : PrefixTree) (x : ℕ) → IsStill t u → AddsUp t x → AddsUp u x
AddsUp-still t u x s h = AddsUp-kept t u x (s.same.lists x) (s.szs x) (every-All _ _ s.szs) h
