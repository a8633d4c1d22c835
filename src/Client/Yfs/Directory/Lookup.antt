-- ===== src/Client/Yfs/Directory/Lookup.antt =====
-- What a `lookup` of src/client/yfs_client.cc finds, and after a `create`.
use ctgfs.Prelude.{
  ℕ, ◌≡◌, ◌≢◌, inl, inr, Bool, true, false, Option, none, some, List, [], ◌∷◌, ◌++◌, arith,
  if◌then◌else◌, All, Bool-cases,
}
use ctgfs.Prelude.Bytes.{Bytes, bytes_eq, bytes_eq-eq}
use ctgfs.Client.Yfs.Dir.{Dirent, IsEncodable}
use ctgfs.Client.Yfs.Io.{
  Status, noent, ioerr, ExtentClient, Outcome, value, failed, stuck, undefined, Io, M, and_then,
  ◌>>=◌, pure, acquire, release, given_or, caught, status_of,
}
use ctgfs.Client.Yfs.Ops.{
  get_file_info, get_dir_info, Found, found_file, found_dir, nothing_set, found_first, is_named,
  isfile, lookup_entry, lookup_found,
}

-- A directory as a map from names to numbers: the first entry with a name counts.
abbrev pub inum_of_entry : Option Dirent → Option ℕ
inum_of_entry none = none
inum_of_entry (some f) = some f.inum

abbrev pub entries : List Dirent → Bytes → Option ℕ
entries vec n = inum_of_entry (found_first (is_named n) vec)

-- What `lookup` sets `inum` to.
abbrev pub inum_of : Found → Option ℕ
inum_of (found_file inum info) = some inum
inum_of (found_dir inum info) = some inum
inum_of nothing_set = none

-- A name that is in the directory is not the new one.
other_name :
    (e : Dirent) (name n : Bytes)
    → is_named name e ≡ false
    → is_named n e ≡ true
    → bytes_eq name n ≡ false
other_name e name n h k = elim (Bool-cases (bytes_eq name n)) [
  | inl same ↦ cc (bytes_eq-eq name n same)
  | inr differs ↦ differs
]

pub entries-append :
    (vec : List Dirent) (name n : Bytes) (i : ℕ)
    → found_first (is_named name) vec ≡ none
    → entries (vec ++ record { name = name; inum = i } ∷ []) n
      ≡ (if bytes_eq name n then some i else entries vec n)
entries-append [] name n i free = ground arith
entries-append (e ∷ vec) name n i free =
    ground (arith, entries-append vec name n i, other_name e name n)

pub All-append :
    (vec : List Dirent) (e : Dirent)
    → All IsEncodable vec
    → IsEncodable e
    → All IsEncodable (vec ++ e ∷ [])
All-append [] e h k = (k, tt)
All-append (d ∷ vec) e (g, h) k = (g, All-append vec e h k)

abbrev pub failure : {A : Type 0} → Outcome A → Option Status
failure (failed s) = some s
failure _ = none

-- Operations that never fail with `noent`.
pub record Finds {S A : Type 0} (m : M S A) : Type 0 where
  pub never : (io : Io S) → failure (m io).0 ≢ some noent

module _ {S : Type 0} where
  and_then-Finds :
      {A B : Type 0} (r : Outcome A × Io S) (g : A → M S B)
      → failure r.0 ≢ some noent
      → ((a : A) → Finds (g a))
      → failure (and_then r g).0 ≢ some noent
  and_then-Finds (value a, io) g h q = (q a).never io
  and_then-Finds (failed s, io) g h q = h
  and_then-Finds (stuck, io) g h q = cc
  and_then-Finds (undefined, io) g h q = cc

  pub then-Finds :
      {A B : Type 0} {m : M S A} {g : A → M S B}
      → Finds m
      → ((a : A) → Finds (g a))
      → Finds (m >>= g)
  then-Finds {m = m} {g = g} p q = record { never = λ io. and_then-Finds (m io) g (p.never io) q }

  pub acquire_finds : (lid : ℕ) (io : Io S) → failure (acquire lid io).0 ≢ some noent
  unfolding acquire
  acquire_finds lid io = ground arith

  release_finds : (lid : ℕ) (io : Io S) → failure (release lid io).0 ≢ some noent
  unfolding release
  release_finds lid io = ground arith

  pub release-Finds : (lid : ℕ) → Finds {S = S} (release lid)
  release-Finds lid = record { never = release_finds lid }

  pub given_or-Finds :
      {A : Type 0} {cleanup : M S (Unit {0})}
      → Finds cleanup
      → (o : Option A) → Finds (given_or cleanup ioerr o)
  given_or-Finds c none = then-Finds c (λ _. record { never = λ io. cc })
  given_or-Finds c (some a) = record { never = λ io. cc }

  -- A call whose status is looked at.
  caught_finds : {A : Type 0} (r : Outcome A × Io S) → failure (status_of r).0 ≢ some noent
  caught_finds (value a, io) = cc
  caught_finds (failed s, io) = cc
  caught_finds (stuck, io) = cc
  caught_finds (undefined, io) = cc

  pub caught-Finds : {A : Type 0} (m : M S A) → Finds (caught m)
  caught-Finds m = record { never = λ io. caught_finds (m io) }

  pub pure-Finds : {A : Type 0} (a : A) → Finds {S = S} (pure a)
  pure-Finds a = record { never = λ io. cc }

module _ (E : ExtentClient) where
  lookup_entry-Finds : (parent inum : ℕ) (b : Bool) → Finds (lookup_entry E parent inum b)
  lookup_entry-Finds parent inum true =
      then-Finds
        (then-Finds (caught-Finds (get_file_info E inum)) (given_or-Finds (release-Finds parent)))
        (λ info. pure-Finds (found_file inum info))
  lookup_entry-Finds parent inum false =
      then-Finds
        (then-Finds (caught-Finds (get_dir_info E inum)) (given_or-Finds (release-Finds parent)))
        (λ info. pure-Finds (found_dir inum info))

  pub lookup_found-Finds : (parent : ℕ) (f : Dirent) → Finds (lookup_found E parent (some f))
  lookup_found-Finds parent f =
      then-Finds (lookup_entry-Finds parent f.inum (isfile f.inum))
        (λ found. then-Finds (release-Finds parent) (λ _. pure-Finds found))
