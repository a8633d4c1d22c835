-- ===== src/Rpc/Client/Xids.antt =====
-- The window of xids of src/rpc/rpc.cc: what its front tells.
use ctgfs.Prelude.{
  ℕ, ◌+◌, ◌^◌, ◌≤◌, ◌<◌, ◌≡◌, refl, ap, sym, ◌∙◌, ◌⊎◌, inl, inr, List, [], ◌∷◌, arith, leb,
  Bool-cases, All, le_or_lt, leb→le,
}
use mathlib.Core.Path.{subst}
use ctgfs.Rpc.Client.{front, insert_xid, compress, compressed, update_xid_rep}
use ctgfs.Rpc.Client.Squeeze.{In, Rising, Gap, Compressed, compress-Compressed}

insert-Rising : (f x : ℕ) (w : List ℕ) → f ≤ x → x < 2 ^ 32 → Rising f w → Rising f (insert_xid x w)
unfolding insert_xid
insert-Rising f x [] le lt r = (le, lt, tt)
insert-Rising f x (y ∷ w) le lt r = ground (arith, insert-Rising y x w)

In-insert : (y x : ℕ) (w : List ℕ) → In y (insert_xid x w) → (y ≡ x) ⊎ In y w
unfolding insert_xid
In-insert y x [] h = h
In-insert y x (z ∷ w) h = ground (arith, In-insert y x w)

insert-In : (y x : ℕ) (w : List ℕ) → (y ≡ x) ⊎ In y w → In y (insert_xid x w)
unfolding insert_xid
insert-In y x [] h = h
insert-In y x (z ∷ w) h = ground (arith, insert-In y x w)

-- The window tells which xids are given: all up to its front, and those that it has beyond.
pub record IsExact (given w : List ℕ) : Type 0 where
  pub head : ℕ
  pub tail : List ℕ
  pub shape : w ≡ head ∷ tail
  pub small : head < 2 ^ 32
  pub low : (y : ℕ) → 1 ≤ y → y ≤ head → In y given
  pub kept : (y : ℕ) → In y given → y ≤ head ⊎ In y tail
  pub only : (y : ℕ) → In y tail → In y given
  pub gap : Gap head tail
  pub rising : Rising head tail

In-small : (y f : ℕ) (w : List ℕ) → Rising f w → In y w → y < 2 ^ 32
In-small y f [] r h = absurd h
In-small y f (x ∷ w) r (inl e) = omega (arith, r.1)
In-small y f (x ∷ w) r (inr h) = In-small y x w r.2 h

-- A new number beyond the front goes into the window.
module _ (given : List ℕ) (x : ℕ) {w : List ℕ} (lt : x < 2 ^ 32) (e : IsExact given w)
    (above : e.head < x) where
  abbrev inserted : List ℕ
  inserted = insert_xid x e.tail

  squeezed : Compressed e.head [] inserted (compress (e.head ∷ []) inserted)
  squeezed =
      compress-Compressed e.head [] inserted
        (insert-Rising e.head x e.tail (omega arith) lt e.rising) tt

  insert-IsExact : IsExact (x ∷ given) (compress (e.head ∷ []) inserted)
  insert-IsExact = record {
    head = squeezed.head;
    tail = squeezed.tail;
    shape = squeezed.shape;
    small = elim (le_or_lt squeezed.head e.head) [
      | inl le ↦ omega (arith, e.small)
      | inr gt ↦
          In-small squeezed.head e.head inserted
            (insert-Rising e.head x e.tail (omega arith) lt e.rising)
            (squeezed.passed squeezed.head gt (omega arith))
    ];
    low = λ y pos le. elim (le_or_lt y e.head) [
      | inl low ↦ inr (e.low y pos low)
      | inr high ↦ elim (In-insert y x e.tail (squeezed.passed y high le)) [
        | inl q ↦ inl q
        | inr h ↦ inr (e.only y h)
      ]
    ];
    kept = λ y h. elim h [
      | inl q ↦ squeezed.kept y (inr (insert-In y x e.tail (inl q)))
      | inr g ↦ elim (e.kept y g) [
        | inl le ↦ inl (omega (arith, squeezed.up))
        | inr t ↦ squeezed.kept y (inr (insert-In y x e.tail (inr t)))
      ]
    ];
    only = λ y h. elim (squeezed.only y h) [
      | inl a ↦ absurd a
      | inr a ↦ elim (In-insert y x e.tail a) [ inl q ↦ inl q | inr t ↦ inr (e.only y t) ]
    ];
    gap = squeezed.gap;
    rising = squeezed.rising;
  }

pub front_lem : {given w : List ℕ} (e : IsExact given w) → front w ≡ e.head
front_lem e = rw e.shape refl

compressed-insert :
    (x f : ℕ) (w : List ℕ)
    → f < x
    → compressed (insert_xid x (f ∷ w)) ≡ compress (f ∷ []) (insert_xid x w)
unfolding insert_xid
compressed-insert x f w lt = ground arith

pub update-IsExact :
    (given : List ℕ) (x : ℕ) (w : List ℕ)
    → x < 2 ^ 32
    → IsExact given w
    → IsExact (x ∷ given) (update_xid_rep x w)
unfolding update_xid_rep
update-IsExact given x w lt e = elim (Bool-cases (leb x (front w))) [
  | inl old ↦ rw old (record {
    head = e.head;
    tail = e.tail;
    shape = e.shape;
    small = e.small;
    low = λ y pos le. inr (e.low y pos le);
    kept = λ y h. elim h [
      | inl q ↦ inl (omega (arith, leb→le x (front w) old, front_lem e))
      | inr g ↦ e.kept y g
    ];
    only = λ y h. inr (e.only y h);
    gap = e.gap;
    rising = e.rising;
  })
  | inr next ↦
      let above : e.head < x = ground (arith, front_lem e) in
      rw next (
        subst (λ v. IsExact (x ∷ given) v)
          (sym (
            ap (λ v. compressed (insert_xid x v)) e.shape
            ∙ compressed-insert x e.head e.tail above))
          (insert-IsExact given x lt e above))
]

-- The window after updates with some xids, the latest first.
unfoldable pub window_after : List ℕ → List ℕ
window_after [] = 0 ∷ []
window_after (x ∷ xs) = update_xid_rep x (window_after xs)

window_after-IsExact : (xs : List ℕ) → All (λ x. x < 2 ^ 32) xs → IsExact xs (window_after xs)
unfolding window_after
window_after-IsExact [] h = record {
  head = 0;
  tail = [];
  shape = refl;
  small = omega arith;
  low = λ y pos le. absurd (omega arith);
  kept = λ y h. absurd h;
  only = λ y h. h;
  gap = tt;
  rising = tt;
}
window_after-IsExact (x ∷ xs) h =
    update-IsExact xs x (window_after xs) h.0 (window_after-IsExact xs h.1)

Gap-In : (f : ℕ) (w : List ℕ) → Gap f w → ¬ In (f + 1) w
Gap-In f [] g h = h
Gap-In f (x ∷ w) g (inl e) = g.0 (sym e)
Gap-In f (x ∷ w) g (inr h) = Gap-In f w g.1 h

-- After updates with any xids below 2^32, in any order and with repetitions, the front of the window is exactly
-- the number up to which all xids, from 1 on, were among them: they were, and the next was not.
pub front_exact :
    (xs : List ℕ)
    → All (λ x. x < 2 ^ 32) xs
    → ((y : ℕ) → 1 ≤ y → y ≤ front (window_after xs) → In y xs)
      × (¬ In (front (window_after xs) + 1) xs)
front_exact xs h =
    let e = window_after-IsExact xs h in
    let at : front (window_after xs) ≡ e.head = front_lem e in
    (
      λ y pos le. e.low y pos (omega arith),
      rw at (λ next. elim (e.kept (e.head + 1) next) [
        | inl le ↦ absurd (omega arith)
        | inr t ↦ Gap-In e.head e.tail e.gap t
      ]),
    )
