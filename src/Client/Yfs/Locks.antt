-- ===== src/Client/Yfs/Locks.antt =====
-- The locks that the operations of src/client/yfs_client.cc take and give back.
pub mod Released
pub mod Directories
pub mod Balanced
use ctgfs.Prelude.{
  ℕ, ◌+◌, ◌≡◌, ◌⊎◌, inl, inr, refl, Bool, true, false, Option, none, some, List, [], ◌∷◌, arith,
  ◌==◌, if◌then◌else◌, Option-cases, Bool-cases,
}
use ctgfs.Prelude.Bytes.{Bytes}
use ctgfs.Fs.ExtentServer.{Attr}
use ctgfs.Client.Yfs.Io.{
  Status, ioerr, ExtentClient, Outcome, value, failed, stuck, undefined, Io, M, and_then, ◌>>=◌,
  ◌>>◌, pure, fail, undefined_if_none, holds, without, acquire, release, release_both, given_or,
  need, status_of, caught, return_of, lifted,
}

abbrev pub IsReady : {S : Type 0} → Io S → List ℕ → Type 0
IsReady io h = ((n : ℕ) → io.lock_ok n ≡ true) × (io.held ≡ h)

-- The locks that are held after a value, and after a status.
abbrev pub After : {S A : Type 0} → List ℕ → List ℕ → Outcome A × Io S → Type 0
After k f (value a, io) = IsReady io k
After k f (failed s, io) = IsReady io f
After k f (stuck, io) = Unit {0}
After k f (undefined, io) = Unit {0}

-- From `h` held, the operation ends with `k` held where it has a value, and with `f` where it fails.
pub record Moves {S A : Type 0} (h k f : List ℕ) (m : M S A) : Type 0 where
  pub moves : (io : Io S) → IsReady io h → After k f (m io)

and_then-After :
    {S A B : Type 0} (k l f : List ℕ) (r : Outcome A × Io S) (g : A → M S B)
    → After k f r
    → ((a : A) → Moves k l f (g a))
    → After l f (and_then r g)
and_then-After k l f (value a, io) g r h = (h a).moves io r
and_then-After k l f (failed s, io) g r h = r
and_then-After k l f (stuck, io) g r h = tt
and_then-After k l f (undefined, io) g r h = tt

module _ {S : Type 0} where
  pub then-Moves :
      {A B : Type 0} {h k l f : List ℕ} {m : M S A} {g : A → M S B}
      → Moves h k f m
      → ((a : A) → Moves k l f (g a))
      → Moves h l f (m >>= g)
  then-Moves {k = k} {l = l} {f = f} {m = m} {g = g} p q = record {
    moves = λ io r. and_then-After k l f (m io) g (p.moves io r) q;
  }

  acquire-After :
      (h f : List ℕ) (lid : ℕ) (io : Io S) → IsReady io h → After (lid ∷ h) f (acquire lid io)
  unfolding acquire
  acquire-After h f lid io (ok, held) = ground (arith, ok io.lock_calls)

  release-After :
      (h f : List ℕ) (lid : ℕ) (io : Io S) → IsReady io (lid ∷ h) → After h f (release lid io)
  unfolding release without
  release-After h f lid io (ok, held) = rw (ok io.lock_calls, held) (ok, ground arith)

  release_second-After :
      (a b : ℕ) (h f : List ℕ) (io : Io S) → IsReady io (a ∷ b ∷ h) → After (a ∷ h) f (release b io)
  unfolding release without
  release_second-After a b h f io (ok, held) = rw (ok io.lock_calls, held) (ok, ground arith)

  pub acquire-Moves : {h f : List ℕ} {lid : ℕ} → Moves {S = S} h (lid ∷ h) f (acquire lid)
  acquire-Moves {h} {f} {lid} = record { moves = acquire-After h f lid }

  pub release-Moves : {h f : List ℕ} {lid : ℕ} → Moves {S = S} (lid ∷ h) h f (release lid)
  release-Moves {h} {f} {lid} = record { moves = release-After h f lid }

  pub release_second-Moves :
      {h f : List ℕ} {a b : ℕ} → Moves {S = S} (a ∷ b ∷ h) (a ∷ h) f (release b)
  release_second-Moves {h} {f} {a} {b} = record { moves = release_second-After a b h f }

  pub pure-Moves : {A : Type 0} {h f : List ℕ} (a : A) → Moves {S = S} h h f (pure a)
  pure-Moves a = record { moves = λ io r. r }

  pub fail-Moves : {A : Type 0} {h k : List ℕ} {s : Status} → Moves {S = S} {A = A} h k h (fail s)
  fail-Moves = record { moves = λ io r. r }

  pub undefined-Moves :
      {A : Type 0} {h f : List ℕ} (o : Option A) → Moves {S = S} h h f (undefined_if_none o)
  undefined-Moves none = record { moves = λ io r. tt }
  undefined-Moves (some a) = record { moves = λ io r. r }

  pub lifted-Moves : {A : Type 0} {h f : List ℕ} (c : S → A × S) → Moves h h f (lifted c)
  lifted-Moves c = record { moves = λ io r. r }

  pub return_of-Moves : {A : Type 0} {h : List ℕ} (o : Option A) → Moves {S = S} h h h (return_of o)
  return_of-Moves none = fail-Moves
  return_of-Moves (some a) = pure-Moves a

  given_or-Moves :
      {A : Type 0} {h f : List ℕ} {cleanup : M S (Unit {0})} (s : Status)
      → Moves h f f cleanup
      → (o : Option A) → Moves h h f (given_or cleanup s o)
  given_or-Moves s c none = then-Moves c (λ _. fail-Moves)
  given_or-Moves s c (some a) = pure-Moves a

  pub need-Moves :
      {A : Type 0} {h f : List ℕ} {call : M S (Option A)} {cleanup : M S (Unit {0})} (s : Status)
      → Moves h h f call
      → Moves h f f cleanup
      → Moves h h f (need call cleanup s)
  need-Moves s p c = then-Moves p (given_or-Moves s c)

  status_of-After :
      {A : Type 0} (h f : List ℕ) (r : Outcome A × Io S) → After h h r → After h f (status_of r)
  status_of-After h f (value a, io) r = r
  status_of-After h f (failed s, io) r = r
  status_of-After h f (stuck, io) r = tt
  status_of-After h f (undefined, io) r = tt

  pub caught-Moves :
      {A : Type 0} {h f : List ℕ} {m : M S A} → Moves h h h m → Moves h h f (caught m)
  caught-Moves {h = h} {f = f} {m = m} p = record {
    moves = λ io r. status_of-After h f (m io) (p.moves io r);
  }

  pub if-Moves :
      {A : Type 0} {h k f : List ℕ} {m n : M S A} (b : Bool)
      → Moves h k f m
      → Moves h k f n
      → Moves h k f (if b then m else n)
  if-Moves true p q = p
  if-Moves false p q = q

  pub both-Moves : {h : List ℕ} {a b : ℕ} → Moves {S = S} (a ∷ b ∷ h) h h (release_both a b)
  both-Moves = then-Moves release-Moves (λ _. release-Moves)

  pub both_second-Moves : {h : List ℕ} {a b : ℕ} → Moves {S = S} (a ∷ b ∷ h) h h (release_both b a)
  both_second-Moves = then-Moves release_second-Moves (λ _. release-Moves)
