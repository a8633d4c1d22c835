-- ===== src/Client/Yfs/Io.antt =====
-- What the operations of src/client/yfs_client.cc stand on: the extent client, the lock client, and the
-- ways in which an operation ends.
use ctgfs.Prelude.{
  ℕ, ◌+◌, ◌^◌, ◌<◌, ◌≡◌, Bool, false, Option, none, some, List, [], ◌∷◌, length, ◌==◌,
  if◌then◌else◌, ◌||◌,
}
use ctgfs.Prelude.Bytes.{Bytes}
use ctgfs.Fs.ExtentServer.{Attr}

-- The values of `yfs_client::xxstatus` but OK.
pub data Status : Type 0 where
  rpcerr noent ioerr exist direnterr notdir : Status

-- `extent_client`. The operations answer `none` where their status is not OK.
pub record ExtentClient : Type 1 where
  pub State : Type 0
  pub get : State → ℕ → Option Bytes × State
  pub put : State → ℕ → Bytes → Option (Unit {0}) × State
  pub getattr : State → ℕ → Option Attr × State
  pub setattr : State → ℕ → Attr → Option (Unit {0}) × State
  pub remove : State → ℕ → Option (Unit {0}) × State

-- What it promises: the files of a valid state, and what each operation does to them.
pub record Laws (E : ExtentClient) : Type 1 where
  pub IsValid : E.State → Type 0
  pub content : E.State → ℕ → Option Bytes
  pub get-IsValid : (s : E.State) (id : ℕ) → IsValid s → IsValid (E.get s id).1
  pub get-content :
      (s : E.State) (id other : ℕ) → IsValid s → content (E.get s id).1 other ≡ content s other
  pub get-answer :
      (s : E.State) (id : ℕ) (b : Bytes)
      → IsValid s
      → (E.get s id).0 ≡ some b
      → content s id ≡ some b
  pub getattr-IsValid : (s : E.State) (id : ℕ) → IsValid s → IsValid (E.getattr s id).1
  pub getattr-content :
      (s : E.State) (id other : ℕ) → IsValid s → content (E.getattr s id).1 other ≡ content s other
  pub put-IsValid :
      (s : E.State) (id : ℕ) (b : Bytes) → length b < 2 ^ 32 → IsValid s → IsValid (E.put s id b).1
  pub put-content :
      (s : E.State) (id other : ℕ) (b : Bytes)
      → length b < 2 ^ 32
      → IsValid s
      → (E.put s id b).0 ≡ some tt
      → content (E.put s id b).1 other ≡ (if other == id then some b else content s other)

-- `stuck`: it waits for a lock that it has itself. `undefined`: it reads past the end of a string.
pub data Outcome (A : Type 0) : Type 0 where
  value : A → Outcome A
  failed : Status → Outcome A
  stuck undefined : Outcome A

-- `held`: the locks that the operation has. `lock_ok` says which calls of the lock client, by their
-- number, answer OK.
pub record Io (S : Type 0) : Type 0 where
  pub store : S
  pub held : List ℕ
  pub lock_ok : ℕ → Bool
  pub lock_calls : ℕ

abbrev pub M : Type 0 → Type 0 → Type 0
M S A = Io S → Outcome A × Io S

abbrev pub and_then : {S A B : Type 0} → Outcome A × Io S → (A → M S B) → Outcome B × Io S
and_then (value a, io) f = f a io
and_then (failed s, io) f = (failed s, io)
and_then (stuck, io) f = (stuck, io)
and_then (undefined, io) f = (undefined, io)

infixl 5 ◌>>=◌ ◌>>◌
abbrev pub ◌>>=◌ : {S A B : Type 0} → M S A → (A → M S B) → M S B
◌>>=◌ m f io = and_then (m io) f

abbrev pub ◌>>◌ : {S B : Type 0} → M S (Unit {0}) → M S B → M S B
m >> k = m >>= λ _. k

abbrev pub pure : {S A : Type 0} → A → M S A
pure a io = (value a, io)

abbrev pub fail : {S A : Type 0} → Status → M S A
fail s io = (failed s, io)

abbrev pub undefined_if_none : {S A : Type 0} → Option A → M S A
undefined_if_none none io = (undefined, io)
undefined_if_none (some a) io = (value a, io)

unfoldable pub holds : ℕ → List ℕ → Bool
holds lid [] = false
holds lid (h ∷ held) = (lid == h) || holds lid held

unfoldable pub without : ℕ → List ℕ → List ℕ
without lid [] = []
without lid (h ∷ held) = if lid == h then held else h ∷ without lid held

-- `lc->acquire` and `lc->release`, and the return of IOERR where their status is not OK.
unfoldable pub acquire : {S : Type 0} → ℕ → M S (Unit {0})
acquire lid io =
    if holds lid io.held
    then (stuck, io)
    else if io.lock_ok io.lock_calls
    then (value tt, record io { held = lid ∷ io.held; lock_calls = io.lock_calls + 1 })
    else (failed ioerr, record io { lock_calls = io.lock_calls + 1 })

unfoldable pub release : {S : Type 0} → ℕ → M S (Unit {0})
release lid io =
    if io.lock_ok io.lock_calls
    then (value tt, record io { held = without lid io.held; lock_calls = io.lock_calls + 1 })
    else (failed ioerr, record io { lock_calls = io.lock_calls + 1 })

abbrev pub release_both : {S : Type 0} → ℕ → ℕ → M S (Unit {0})
release_both first second = do release first; release second

-- `if (r != OK)`: the locks are given back, and the status is returned.
abbrev pub given_or : {S A : Type 0} → M S (Unit {0}) → Status → Option A → M S A
given_or cleanup s none = do cleanup; fail s
given_or cleanup s (some a) = pure a

abbrev pub need : {S A : Type 0} → M S (Option A) → M S (Unit {0}) → Status → M S A
need call cleanup s = do r ← call; given_or cleanup s r

-- A call of another operation, whose status the caller looks at.
abbrev pub status_of : {S A : Type 0} → Outcome A × Io S → Outcome (Option A) × Io S
status_of (value a, io) = (value (some a), io)
status_of (failed s, io) = (value none, io)
status_of (stuck, io) = (stuck, io)
status_of (undefined, io) = (undefined, io)

abbrev pub caught : {S A : Type 0} → M S A → M S (Option A)
caught m io = status_of (m io)

-- `return r`
abbrev pub return_of : {S A : Type 0} → Option A → M S A
return_of none = fail ioerr
return_of (some a) = pure a

-- A call of the extent client.
abbrev pub lifted : {S A : Type 0} → (S → A × S) → M S A
lifted f io = let (a, s) = f io.store in (value a, record io { store = s })
