-- ===== src/Client/LockCache/Keeps.antt =====
-- What the moves of src/client/lock_client_cache.cc do to locks that are locked.
use ctgfs.Prelude.{
  ℕ, ◌≡◌, ◌≢◌, refl, sym, ◌∙◌, ap, inl, inr, Bool, true, false, arith, ◌==◌, if◌then◌else◌,
  Bool-cases,
}
use ctgfs.Client.LockCache.{
  locked, LockCache, LockClient, at_lock, set_cache, Phase, holding, Moved,
}

-- A move leaves locked what is locked, and takes only what is not.
pub record Keeps (c : LockClient) (m : Moved) : Type 0 where
  pub locks : (lid : ℕ) → (at_lock c lid).state ≡ locked → (at_lock m.1 lid).state ≡ locked
  pub takes :
      (lid : ℕ)
      → m.0 ≡ holding lid
      → ((at_lock c lid).state ≢ locked) × ((at_lock m.1 lid).state ≡ locked)

abbrev pub is_holding : Phase → Bool
is_holding (holding lid) = true
is_holding _ = false

abbrev pub lock_of : Phase → ℕ
lock_of (holding lid) = lid
lock_of _ = 0

pub at_set :
    (c : LockClient) (lid : ℕ) (e : LockCache) (l : ℕ)
    → at_lock (set_cache c lid e) l ≡ (if l == lid then e else at_lock c l)
at_set c lid e l = elim (Bool-cases (l == lid)) [ inl k ↦ rw k refl | inr k ↦ rw k refl ]

pub set_locked :
    (c : LockClient) (lid : ℕ) (e : LockCache) (l : ℕ)
    → (l ≡ lid → e.state ≡ locked)
    → (l ≢ lid → (at_lock c l).state ≡ locked)
    → (at_lock (set_cache c lid e) l).state ≡ locked
set_locked c lid e l at off = ap (λ x. x.state) (at_set c lid e l) ∙ elim (Bool-cases (l == lid)) [
  | inl k ↦ rw k (at (ground arith))
  | inr k ↦ rw k (off (ground arith))
]

pub holding-no : (p : Phase) (lid : ℕ) → is_holding p ≡ false → p ≡ holding lid → ⊥
holding-no p lid h e = let is = ap is_holding e in absurd cc

-- A change of one lock by a thread that does not get it.
pub quiet-Keeps :
    (c : LockClient) (lid : ℕ) (e : LockCache) (p : Phase) (n : ℕ)
    → is_holding p ≡ false
    → ((at_lock c lid).state ≡ locked → e.state ≡ locked)
    → Keeps c (p, record (set_cache c lid e) { waiting_threads = n })
quiet-Keeps c lid e p n q h = record {
  locks = λ l k. set_locked c lid e l (λ x. h (ap (λ b. (at_lock c b).state) (sym x) ∙ k)) (λ x. k);
  takes = λ l k. absurd (holding-no p l q k);
}

pub taking-Keeps :
    (c : LockClient) (lid : ℕ) (e : LockCache)
    → (at_lock c lid).state ≢ locked
    → e.state ≡ locked
    → Keeps c (holding lid, set_cache c lid e)
taking-Keeps c lid e h k = record {
  locks = λ l x. set_locked c lid e l (λ y. k) (λ y. x);
  takes = λ l x. (
    λ y. h (ap (λ b. (at_lock c b).state) (ap lock_of x) ∙ y),
    set_locked c lid e l (λ y. k) (λ y. absurd (y (sym (ap lock_of x)))),
  );
}

-- A move after a change that takes nothing.
pub after-Keeps :
    (c d : LockClient) (m : Moved)
    → ((lid : ℕ) → (at_lock c lid).state ≡ locked → (at_lock d lid).state ≡ locked)
    → ((lid : ℕ) → (at_lock d lid).state ≡ locked → (at_lock c lid).state ≡ locked)
    → Keeps d m
    → Keeps c m
after-Keeps c d m f g k = record {
  locks = λ l x. k.locks l (f l x);
  takes = λ l x. let (was, is) = k.takes l x in (λ y. was (f l y), is);
}

-- A lock that is not locked, before and after, is not locked in between.
pub unlocked-Keeps :
    (c : LockClient) (lid : ℕ) (e : LockCache) (m : Moved)
    → (at_lock c lid).state ≢ locked
    → Keeps (set_cache c lid e) m
    → Keeps c m
unlocked-Keeps c lid e m h k = record {
  locks = λ l x.
      k.locks l (
        set_locked c lid e l (λ y. absurd (h (ap (λ b. (at_lock c b).state) (sym y) ∙ x)))
          (λ y. x));
  takes = λ l x.
      let (was, is) = k.takes l x in
      (
        λ y. was (
            set_locked c lid e l (λ z. absurd (h (ap (λ b. (at_lock c b).state) (sym z) ∙ y)))
              (λ z. y)),
        is,
      );
}

pub still-Keeps : (c : LockClient) (p : Phase) → is_holding p ≡ false → Keeps c (p, c)
still-Keeps c p q = record { locks = λ l x. x; takes = λ l x. absurd (holding-no p l q x) }
