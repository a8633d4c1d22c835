-- ===== src/Rpc/Client/Squeeze.antt =====
-- What the loops of update_xid_rep in src/rpc/rpc.cc make of a window of xids.
use ctgfs.Prelude.{
  ℕ, ◌+◌, ◌%◌, ◌^◌, ◌≤◌, ◌<◌, ◌≡◌, ◌≢◌, refl, ◌⊎◌, inl, inr, true, List, [], ◌∷◌, ◌++◌, arith, ◌==◌,
}
use mathlib.Core.List.{append_assoc}
use native.Mathlib.Decide.{ℕ_discrete}
use ctgfs.Rpc.Client.{pop_while, compress}

abbrev pub In : ℕ → List ℕ → Type 0
In y [] = ⊥
In y (x ∷ xs) = (y ≡ x) ⊎ In y xs

-- Weakly rising numbers of 32 bits, from `n` on.
abbrev pub Rising : ℕ → List ℕ → Type 0
Rising n [] = Unit {0}
Rising n (x ∷ xs) = (n ≤ x) × (x < 2 ^ 32) × Rising x xs

-- The number after `f` is not there.
abbrev pub Gap : ℕ → List ℕ → Type 0
Gap f [] = Unit {0}
Gap f (x ∷ xs) = (x ≢ f + 1) × Gap f xs

last_bound : (y x : ℕ) (w : List ℕ) → Rising y (w ++ x ∷ []) → y ≤ x
last_bound y x [] r = r.0
last_bound y x (z ∷ w) r = omega (arith, last_bound z x w r.2)

-- The numbers before the last are `f`, and the last is the next.
pop_all :
    (f x : ℕ) (w : List ℕ)
    → x ≡ f + 1
    → x < 2 ^ 32
    → Rising f (w ++ x ∷ [])
    → Gap f w
    → pop_while x (f ∷ (w ++ x ∷ [])) ≡ x ∷ []
unfolding pop_while
pop_all f x [] e lt r g = ground arith
pop_all f x (y ∷ w) e lt r g =
    let same : y ≡ f = omega (arith, last_bound y x w r.2) in
    let rest : pop_while x (f ∷ (w ++ x ∷ [])) ≡ x ∷ [] =
      pop_all f x w e lt (rw same at (r.2)) g.1 in
    rw same (rw (next f x e lt) (rw (next f x e lt) at rest))
  where
    next : (f x : ℕ) → x ≡ f + 1 → x < 2 ^ 32 → ((f + 1) % 2 ^ 32 == x) ≡ true
    next f x e lt = ground arith

pop_none : (f x : ℕ) (w : List ℕ) → x ≢ f + 1 → x < 2 ^ 32 → f ≤ x → pop_while x (f ∷ w) ≡ f ∷ w
unfolding pop_while
pop_none f x w n lt le = ground arith

-- What the loop makes of the numbers `f ∷ before` behind it and `ahead` in front of it.
pub record Compressed (f : ℕ) (before ahead : List ℕ) (r : List ℕ) : Type 0 where
  pub head : ℕ
  pub tail : List ℕ
  pub shape : r ≡ head ∷ tail
  pub up : f ≤ head
  pub passed : (y : ℕ) → f < y → y ≤ head → In y ahead
  pub kept : (y : ℕ) → In y before ⊎ In y ahead → y ≤ head ⊎ In y tail
  pub only : (y : ℕ) → In y tail → In y before ⊎ In y ahead
  pub gap : Gap head tail
  pub rising : Rising head tail

In-snoc : (y x : ℕ) (w : List ℕ) → In y (w ++ x ∷ []) → In y w ⊎ (y ≡ x)
In-snoc y x [] (inl e) = inr e
In-snoc y x [] (inr h) = absurd h
In-snoc y x (z ∷ w) (inl e) = inl (inl e)
In-snoc y x (z ∷ w) (inr h) = ground (arith, In-snoc y x w h)

snoc-In : (y x : ℕ) (w : List ℕ) → In y w ⊎ (y ≡ x) → In y (w ++ x ∷ [])
snoc-In y x [] (inl h) = absurd h
snoc-In y x [] (inr e) = inl e
snoc-In y x (z ∷ w) (inl (inl e)) = inl e
snoc-In y x (z ∷ w) (inl (inr h)) = inr (snoc-In y x w (inl h))
snoc-In y x (z ∷ w) (inr e) = inr (snoc-In y x w (inr e))

Gap-snoc : (f x : ℕ) (w : List ℕ) → Gap f w → x ≢ f + 1 → Gap f (w ++ x ∷ [])
Gap-snoc f x [] g n = (n, tt)
Gap-snoc f x (y ∷ w) g n = (g.0, Gap-snoc f x w g.1 n)

Rising-prefix : (f : ℕ) (w v : List ℕ) → Rising f (w ++ v) → Rising f w
Rising-prefix f [] v r = tt
Rising-prefix f (x ∷ w) v r = (r.0, r.1, Rising-prefix x w v r.2)

Rising-suffix :
    (f x : ℕ) (w v : List ℕ) → Rising f (w ++ x ∷ v) → (x < 2 ^ 32) × (f ≤ x) × Rising x v
Rising-suffix f x [] v r = (r.1, r.0, r.2)
Rising-suffix f x (y ∷ w) v r = let (a, b, c) = Rising-suffix y x w v r.2 in (a, omega arith, c)

In-le : (y f x : ℕ) (w v : List ℕ) → Rising f (w ++ x ∷ v) → In y w → y ≤ x
In-le y f x [] v r h = absurd h
In-le y f x (z ∷ w) v r (inl e) = omega (arith, (Rising-suffix z x w v r.2).1)
In-le y f x (z ∷ w) v r (inr h) = In-le y z x w v r.2 h

pub compress-Compressed :
    (f : ℕ) (before ahead : List ℕ)
    → Rising f (before ++ ahead)
    → Gap f before
    → Compressed f before ahead (compress (f ∷ before) ahead)
unfolding compress
compress-Compressed f before [] r g = record {
  head = f;
  tail = before;
  shape = refl;
  up = omega arith;
  passed = λ y lt le. absurd (omega arith);
  kept = λ y h. elim h [ inl a ↦ inr a | inr a ↦ absurd a ];
  only = λ y h. inl h;
  gap = g;
  rising = Rising-prefix f before [] r;
}
compress-Compressed f before (x ∷ ahead) r g =
    let (lt, le, after) = Rising-suffix f x before ahead r in
    elim (ℕ_discrete x (f + 1)) [
      | yes e ↦
          let c = compress-Compressed x [] ahead after tt in
          let popped =
            pop_all f x before e lt (Rising-prefix f (before ++ x ∷ []) ahead (rw append_assoc r))
              g in
          rw popped (record {
            head = c.head;
            tail = c.tail;
            shape = c.shape;
            up = omega (arith, c.up);
            passed = λ y low high. elim (ℕ_discrete y x) [
              | yes q ↦ inl q
              | no q ↦ inr (c.passed y (omega arith) high)
            ];
            kept = λ y h. elim h [
              | inl a ↦ inl (omega (arith, c.up, In-le y f x before ahead r a))
              | inr (inl q) ↦ inl (omega (arith, c.up))
              | inr (inr a) ↦ c.kept y (inr a)
            ];
            only = λ y h. elim (c.only y h) [ inl a ↦ absurd a | inr a ↦ inr (inr a) ];
            gap = c.gap;
            rising = c.rising;
          })
      | no n ↦
          let c =
            compress-Compressed f (before ++ x ∷ []) ahead (rw append_assoc r)
              (Gap-snoc f x before g n) in
          rw (pop_none f x (before ++ x ∷ []) n lt le) (record {
            head = c.head;
            tail = c.tail;
            shape = c.shape;
            up = c.up;
            passed = λ y low high. inr (c.passed y low high);
            kept = λ y h. c.kept y (elim h [
              | inl a ↦ inl (snoc-In y x before (inl a))
              | inr (inl q) ↦ inl (snoc-In y x before (inr q))
              | inr (inr a) ↦ inr a
            ]);
            only = λ y h. elim (c.only y h) [
              | inl a ↦ elim (In-snoc y x before a) [ inl b ↦ inl b | inr q ↦ inr (inl q) ]
              | inr a ↦ inr (inr a)
            ];
            gap = c.gap;
            rising = c.rising;
          })
    ]
