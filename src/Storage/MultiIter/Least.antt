-- ===== src/Storage/MultiIter/Least.antt =====
-- What `Next` of src/storage/multi_iter.cc chooses, and what it leaves.
use ctgfs.Prelude.{
  ◌≡◌, refl, sym, ap, ◌∙◌, ◌⊎◌, inl, inr, true, false, Option, none, some, List, [], ◌∷◌, ◌++◌,
  ◌&&◌, arith, All, Bool-cases,
}
use mathlib.Core.Option.{some-injective}
use ctgfs.Prelude.Bytes.{
  Bytes, bytes_eq, bytes_eq_refl, bytes_eq-eq, bytes_lt, bytes_lt_irrefl, bytes_lt_trans,
  bytes_lt-total,
}
use ctgfs.Storage.Log.{Log, is_valid, log_lt}
use ctgfs.Storage.Log.Order.{bytes_lt_asymm, log_lt_irrefl}
use ctgfs.Storage.MultiIter.{Slot, has_next, pick, better, choose, skip, skip_all, next}

-- No valid record of a slot comes before `c`.
abbrev pub IsLeast : Log → Slot → Type 0
IsLeast c s = is_valid s.log ≡ true → log_lt s.log c ≡ false

-- The chosen record so far comes before none of those that were chosen from.
abbrev IsBefore : Log → Option Log → Type 0
IsBefore c none = Unit {0}
IsBefore c (some x) = log_lt x c ≡ false

log_le_trans : (a b c : Log) → log_lt b a ≡ false → log_lt c b ≡ false → log_lt c a ≡ false
unfolding log_lt
log_le_trans a b c h k = ground (
  arith,
  bytes_lt-total a.key b.key,
  bytes_lt-total b.key c.key,
  bytes_lt_trans a.key b.key c.key,
  bytes_lt_trans c.key b.key a.key,
  bytes_lt_trans c.key a.key b.key,
  bytes_lt_trans b.key c.key a.key,
  bytes_lt_irrefl a.key,
)

bytes_eq-total :
    (s t : Bytes) → (bytes_lt s t ≡ true) ⊎ (bytes_lt t s ≡ true) ⊎ (bytes_eq s t ≡ true)
bytes_eq-total s t = elim (bytes_lt-total s t) [
  | inl a ↦ inl a
  | inr (inl a) ↦ inr (inl a)
  | inr (inr e) ↦ inr (inr (rw e (bytes_eq_refl t)))
]

pick_least : (l x : Log) → (log_lt l (pick l x) ≡ false) × (log_lt x (pick l x) ≡ false)
unfolding pick log_lt
pick_least l x = ground (
  arith,
  log_lt_irrefl l,
  log_lt_irrefl x,
  bytes_lt_irrefl l.key,
  bytes_lt_irrefl x.key,
  bytes_eq-eq l.key x.key,
  bytes_eq-total l.key x.key,
  bytes_lt_asymm l.key x.key,
  bytes_lt_asymm x.key l.key,
)

better-IsBefore :
    (l : Log) (o : Option Log) (c : Log)
    → IsBefore c (better l o)
    → IsBefore c o × (log_lt l c ≡ false)
better-IsBefore l none c h = (tt, h)
better-IsBefore l (some x) c h =
    let (at_l, at_x) = pick_least l x in
    (log_le_trans c (pick l x) x h at_x, log_le_trans c (pick l x) l h at_l)

choose-IsLeast :
    (slots : List Slot) (o : Option Log) (c : Log)
    → choose slots o ≡ some c
    → IsBefore c o × All (IsLeast c) slots
unfolding choose
choose-IsLeast [] none c h = ground arith
choose-IsLeast [] (some x) c h = (rw (some-injective _ _ h) (log_lt_irrefl c), tt)
choose-IsLeast (s ∷ slots) o c h = elim (Bool-cases (is_valid s.log)) [
  | inl v ↦
      let (before, all) = choose-IsLeast slots (better s.log o) c (rw v at h) in
      let (old, here) = better-IsBefore s.log o c before in (old, ((λ e. here), all))
  | inr v ↦
      let (before, all) = choose-IsLeast slots o c (rw v at h) in
      (before, ((λ e. ground arith), all))
]

-- The records of an iterator are in their order.
abbrev pub Follows : Log → List Log → Type 0
Follows l [] = Unit {0}
Follows l (x ∷ ls) = (log_lt x l ≡ false) × Follows x ls

abbrev pub IsSorted : Slot → Type 0
IsSorted s = Follows s.log s.iter

-- What a slot has left comes after the key.
abbrev pub IsPast : Bytes → Slot → Type 0
IsPast key s = is_valid s.log ≡ true → bytes_lt key s.log.key ≡ true

past : (c l : Log) → log_lt l c ≡ false → bytes_eq l.key c.key ≡ false → bytes_lt c.key l.key ≡ true
unfolding log_lt
past c l h k = ground (arith, bytes_eq-total l.key c.key)

skip-IsPast :
    (c l : Log) (ls : List Log)
    → Follows l ls
    → (is_valid l ≡ true → log_lt l c ≡ false)
    → IsPast c.key (skip c.key l ls) × IsSorted (skip c.key l ls)
unfolding skip
skip-IsPast c l [] f h = ground (arith, past c l)
skip-IsPast c l (x ∷ ls) f h = ground (arith, past c l, log_le_trans c l x, skip-IsPast c x ls)

skip_all-IsPast :
    (c : Log) (slots : List Slot)
    → All IsSorted slots
    → All (IsLeast c) slots
    → All (IsPast c.key) (skip_all c.key slots) × All IsSorted (skip_all c.key slots)
unfolding skip_all
skip_all-IsPast c [] f h = (tt, tt)
skip_all-IsPast c (s ∷ slots) (f, fs) (h, hs) =
    let (p, q) = skip-IsPast c s.log s.iter f h in
    let (ps, qs) = skip_all-IsPast c slots fs hs in ((p, ps), (q, qs))

choose-some : (slots : List Slot) (c : Log) → (d : Log) × (choose slots (some c) ≡ some d)
unfolding choose
choose-some [] c = (c, refl)
choose-some (s ∷ slots) c = elim (Bool-cases (is_valid s.log)) [
  | inl v ↦ rw v (choose-some slots (pick s.log c))
  | inr v ↦ rw v (choose-some slots c)
]

choose-has_next :
    (slots : List Slot) → has_next slots ≡ true → (c : Log) × (choose slots none ≡ some c)
unfolding choose has_next
choose-has_next [] h = ground arith
choose-has_next (s ∷ slots) h = elim (Bool-cases (is_valid s.log)) [
  | inl v ↦ rw v (choose-some slots s.log)
  | inr v ↦ rw v (choose-has_next slots (rw v at h))
]

-- The record is a valid one at the head of some iterator.
abbrev pub IsHead : Log → List Slot → Type 0
IsHead c [] = ⊥
IsHead c (s ∷ slots) = ((is_valid s.log ≡ true) × (s.log ≡ c)) ⊎ IsHead c slots

-- From one slot to the other only records with the key are gone, from the front: what is left follows
-- them, or nothing is left.
abbrev pub Drops : Bytes → Slot → Slot → Type 0
Drops key s t =
    (dropped : List Log) × All (λ l. l.key ≡ key) dropped
    × ((s.log ∷ s.iter ≡ dropped ++ t.log ∷ t.iter)
        ⊎ ((s.log ∷ s.iter ≡ dropped) × (is_valid t.log ≡ false) × (t.iter ≡ [])))

abbrev pub AllDrop : Bytes → List Slot → List Slot → Type 0
AllDrop key [] [] = Unit {0}
AllDrop key [] (t ∷ ts) = ⊥
AllDrop key (s ∷ slots) [] = ⊥
AllDrop key (s ∷ slots) (t ∷ ts) = Drops key s t × AllDrop key slots ts

longer :
    (key : Bytes) (l x : Log) (ls : List Log) (t : Slot)
    → l.key ≡ key
    → Drops key (record { log = x; iter = ls }) t
    → Drops key (record { log = l; iter = x ∷ ls }) t
longer key l x ls t e (d, all, left) = (
  l ∷ d,
  (e, all),
  elim left [ inl p ↦ inl (ap (λ r. l ∷ r) p) | inr (p, v, n) ↦ inr (ap (λ r. l ∷ r) p, v, n) ],
)

skip-Drops :
    (key : Bytes) (l : Log) (ls : List Log)
    → Drops key (record { log = l; iter = ls }) (skip key l ls)
unfolding skip
skip-Drops key l [] = elim (Bool-cases (is_valid l && bytes_eq l.key key)) [
  | inl e ↦
      rw e (l ∷ [], (ground (arith, bytes_eq-eq l.key key), tt), inr (refl, ground arith, refl))
  | inr e ↦ rw e ([], tt, inl refl)
]
skip-Drops key l (x ∷ ls) = elim (Bool-cases (is_valid l && bytes_eq l.key key)) [
  | inl e ↦ rw e (
      longer key l x ls (skip key x ls) (ground (arith, bytes_eq-eq l.key key))
        (skip-Drops key x ls))
  | inr e ↦ rw e ([], tt, inl refl)
]

skip_all-AllDrop : (key : Bytes) (slots : List Slot) → AllDrop key slots (skip_all key slots)
unfolding skip_all
skip_all-AllDrop key [] = tt
skip_all-AllDrop key (s ∷ slots) = (skip-Drops key s.log s.iter, skip_all-AllDrop key slots)

pick-cases : (l c : Log) → (pick l c ≡ l) ⊎ (pick l c ≡ c)
unfolding pick
pick-cases l c = ground arith

-- What is chosen was chosen before, or is a head.
choose-IsHead :
    (slots : List Slot) (o : Option Log) (c : Log)
    → choose slots o ≡ some c
    → (o ≡ some c) ⊎ IsHead c slots
unfolding choose
choose-IsHead [] o c h = inl h
choose-IsHead (s ∷ slots) none c h = elim (Bool-cases (is_valid s.log)) [
  | inl v ↦ elim (choose-IsHead slots (some s.log) c (rw v at h)) [
    | inl e ↦ inr (inl (v, some-injective _ _ e))
    | inr i ↦ inr (inr i)
  ]
  | inr v ↦ elim (choose-IsHead slots none c (rw v at h)) [ inl e ↦ inl e | inr i ↦ inr (inr i) ]
]
choose-IsHead (s ∷ slots) (some x) c h = elim (Bool-cases (is_valid s.log)) [
  | inl v ↦ elim (choose-IsHead slots (some (pick s.log x)) c (rw v at h)) [
    | inl e ↦ elim (pick-cases s.log x) [
      | inl p ↦ inr (inl (v, sym p ∙ some-injective _ _ e))
      | inr p ↦ inl (ap some (sym p) ∙ e)
    ]
    | inr i ↦ inr (inr i)
  ]
  | inr v ↦ elim (choose-IsHead slots (some x) c (rw v at h)) [
    | inl e ↦ inl e
    | inr i ↦ inr (inr i)
  ]
]

-- Over iterators in order, where `HasNext` is true, `Next` gives a valid record from the head of an
-- iterator, and no record at the head of one comes before it: it has the least key, and is the newest with
-- that key. After that the iterators are still in order, every record at the head of one has a greater key,
-- and only records with the key that was given are gone from any of them.
pub next_in_order :
    (slots : List Slot)
    → All IsSorted slots
    → has_next slots ≡ true
    → (c : Log) × (slots' : List Slot) × (next slots ≡ some (c, slots'))
      × IsHead c slots
      × All (IsLeast c) slots
      × All (IsPast c.key) slots'
      × All IsSorted slots'
      × AllDrop c.key slots slots'
unfolding next
next_in_order slots f h =
    let (c, chosen) = choose-has_next slots h in
    let least = (choose-IsLeast slots none c chosen).1 in
    let (past_all, sorted) = skip_all-IsPast c slots f least in
    (
      c,
      skip_all c.key slots,
      rw chosen refl,
      elim (choose-IsHead slots none c chosen) [ inl e ↦ cc | inr i ↦ i ],
      least,
      past_all,
      sorted,
      skip_all-AllDrop c.key slots,
    )
