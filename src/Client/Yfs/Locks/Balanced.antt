-- ===== src/Client/Yfs/Locks/Balanced.antt =====
-- Any operation of src/client/yfs_client.cc, and the locks that are held after it.
use ctgfs.Prelude.{
  ℕ, ◌+◌, ◌≡◌, ◌≢◌, arith, refl, ap, inl, inr, Bool, true, false, none, some, List, ◌∷◌,
  Option-cases, Bool-cases,
}
use ctgfs.Prelude.Bytes.{Bytes}
use ctgfs.Fs.ExtentServer.{Attr}
use ctgfs.Client.Yfs.Dir.{parse_dir}
use ctgfs.Client.Yfs.Io.{
  ioerr, direnterr, ExtentClient, Outcome, value, failed, stuck, undefined, Io, M, ◌>>=◌, ◌>>◌,
  pure, acquire, release, need, holds,
}
use ctgfs.Client.Yfs.Ops.{
  found_first, is_named_c, get_file_info, get_dir_info, setattr, read, write, create, mkdir, lookup,
  readdir, unlink_entry, unlink_file, unlink,
}
use ctgfs.Client.Yfs.Locks.{
  IsReady, After, Moves, then-Moves, release-Moves, pure-Moves, need-Moves,
}
use ctgfs.Client.Yfs.Locks.Released.{
  get_file_info-Moves, get_dir_info-Moves, setattr-Moves, read-Moves, write-Moves,
}
use ctgfs.Client.Yfs.Locks.Directories.{
  create-Moves, mkdir-Moves, lookup-Moves, readdir-Moves, unlink_entry-Moves, unlink_file-Moves,
}

pub data Op : Type 0 where
  file_info dir_info readdirs : ℕ → Op
  setattrs : Attr → ℕ → ℕ → Op
  reads : ℕ → ℕ → ℕ → Op
  writes : ℕ → ℕ → ℕ → Bytes → Op
  creates : ℕ → Bytes → ℕ → Op
  mkdirs lookups unlinks : ℕ → Bytes → Op

abbrev pub Ends : {A : Type 0} → Outcome A → Type 0
Ends (value a) = Unit {0}
Ends (failed s) = Unit {0}
Ends stuck = ⊥
Ends undefined = ⊥

abbrev pub quiet : {S A : Type 0} → M S A → M S (Unit {0})
quiet m = do _ ← m; pure tt

abbrev pub runs : (E : ExtentClient) → (ℕ → Bytes → Bool → ℕ → ℕ) → Op → M E.State (Unit {0})
runs E master (file_info inum) = quiet (get_file_info E inum)
runs E master (dir_info inum) = quiet (get_dir_info E inum)
runs E master (readdirs inum) = quiet (readdir E inum)
runs E master (setattrs junk inum size) = quiet (setattr E junk inum size)
runs E master (reads inum size off) = quiet (read E inum size off)
runs E master (writes inum size off buf) = write E inum size off buf
runs E master (creates parent name size) = quiet (create E master parent name size)
runs E master (mkdirs parent name) = quiet (mkdir E master parent name)
runs E master (lookups parent name) = quiet (lookup E parent name)
runs E master (unlinks parent name) = unlink E parent name

-- Of an `unlink`: the extent client answers the read of its directory.
abbrev pub IsReadable : (E : ExtentClient) → E.State → Op → Type 0
IsReadable E s (unlinks parent name) = (E.get s parent).0 ≢ none
IsReadable E s _ = Unit {0}

module _ (E : ExtentClient) where
  -- `unlink` behind its read of the directory.
  abbrev unlink_read : ℕ → Bytes → Bytes → M E.State (Unit {0})
  unlink_read parent name d = do
    files ← need (pure (parse_dir d)) (release parent) direnterr
    id ← unlink_entry E parent name files (found_first (is_named_c name) files)
    release parent
    unlink_file E id

  unlink_read-Moves :
      {h : List ℕ} (parent : ℕ) (name d : Bytes)
      → Moves (parent ∷ h) h h (unlink_read parent name d)
  unlink_read-Moves parent name d =
      then-Moves (need-Moves direnterr (pure-Moves (parse_dir d)) release-Moves) (λ files.
        then-Moves (unlink_entry-Moves E parent name files (found_first (is_named_c name) files))
          (λ id. then-Moves release-Moves (λ _. unlink_file-Moves E id)))

  abbrev locked : Io E.State → ℕ → Io E.State
  locked io parent = record io {
    store = (E.get io.store parent).1;
    held = parent ∷ io.held;
    lock_calls = io.lock_calls + 1;
  }

  unlink_stuck :
      (parent : ℕ) (name : Bytes) (io : Io E.State)
      → holds parent io.held ≡ true
      → unlink E parent name io ≡ (stuck, io)
  unfolding unlink acquire
  unlink_stuck parent name io e = rw e refl

  unlink_unreadable :
      (parent : ℕ) (name : Bytes) (io : Io E.State)
      → holds parent io.held ≡ false
      → io.lock_ok io.lock_calls ≡ true
      → (E.get io.store parent).0 ≡ none
      → unlink E parent name io ≡ (failed ioerr, locked io parent)
  unfolding unlink acquire
  unlink_unreadable parent name io e ok g = rw (e, ok, g) refl

  unlink_readable :
      (parent : ℕ) (name d : Bytes) (io : Io E.State)
      → holds parent io.held ≡ false
      → io.lock_ok io.lock_calls ≡ true
      → (E.get io.store parent).0 ≡ some d
      → unlink E parent name io ≡ unlink_read parent name d (locked io parent)
  unfolding unlink acquire
  unlink_readable parent name d io e ok g = rw (e, ok, g) refl

  After-held :
      {S A : Type 0} (h : List ℕ) (r : Outcome A × Io S) → After h h r → Ends r.0 → r.1.held ≡ h
  After-held h (value a, io) r e = r.1
  After-held h (failed s, io) r e = r.1
  After-held h (stuck, io) r e = absurd e
  After-held h (undefined, io) r e = absurd e

  quiet-Moves : {S A : Type 0} {h : List ℕ} {m : M S A} → Moves h h h m → Moves h h h (quiet m)
  quiet-Moves p = then-Moves p (λ _. pure-Moves tt)

  unlink-After :
      (parent : ℕ) (name : Bytes) (io : Io E.State)
      → IsReady io io.held
      → (E.get io.store parent).0 ≢ none
      → After io.held io.held (unlink E parent name io)
  unlink-After parent name io (ok, same) answers = elim (Bool-cases (holds parent io.held)) [
    | inl e ↦ rw (unlink_stuck parent name io e) tt
    | inr e ↦ elim (Option-cases (E.get io.store parent).0) [
      | inl g ↦ absurd (answers g)
      | inr (d, g) ↦
          rw (unlink_readable parent name d io e (ok io.lock_calls) g)
            ((unlink_read-Moves parent name d).moves (locked io parent) (ok, refl))
    ]
  ]

  runs-After :
      (master : ℕ → Bytes → Bool → ℕ → ℕ) (o : Op) (io : Io E.State)
      → IsReady io io.held
      → IsReadable E io.store o
      → After io.held io.held (runs E master o io)
  runs-After master (file_info inum) io r a = (quiet-Moves (get_file_info-Moves E inum)).moves io r
  runs-After master (dir_info inum) io r a = (quiet-Moves (get_dir_info-Moves E inum)).moves io r
  runs-After master (readdirs inum) io r a = (quiet-Moves (readdir-Moves E inum)).moves io r
  runs-After master (setattrs junk inum size) io r a =
      (quiet-Moves (setattr-Moves E junk inum size)).moves io r
  runs-After master (reads inum size off) io r a =
      (quiet-Moves (read-Moves E inum size off)).moves io r
  runs-After master (writes inum size off buf) io r a = (write-Moves E inum size off buf).moves io r
  runs-After master (creates parent name size) io r a =
      (quiet-Moves (create-Moves E master parent name size)).moves io r
  runs-After master (mkdirs parent name) io r a =
      (quiet-Moves (mkdir-Moves E master parent name)).moves io r
  runs-After master (lookups parent name) io r a =
      (quiet-Moves (lookup-Moves E parent name)).moves io r
  runs-After master (unlinks parent name) io r a = unlink-After parent name io r a

-- Where every call of the lock client answers OK, an operation that ends, with a value or a status,
-- holds the locks that were held before it; of an `unlink`, where the content of its directory can be
-- got.
pub locks_given_back :
    (E : ExtentClient) (master : ℕ → Bytes → Bool → ℕ → ℕ) (o : Op) (io : Io E.State)
    → ((n : ℕ) → io.lock_ok n ≡ true)
    → IsReadable E io.store o
    → Ends (runs E master o io).0
    → (runs E master o io).1.held ≡ io.held
locks_given_back E master o io ok a ends =
    After-held E io.held (runs E master o io) (runs-After E master o io (ok, refl) a) ends

-- An `unlink` whose lock calls answer OK, and whose directory is not held before and cannot be read,
-- fails with IOERR and keeps the lock of the directory: any later `unlink` of the directory waits for
-- ever.
pub unlink_keeps_lock :
    (E : ExtentClient) (parent : ℕ) (name name2 : Bytes) (io : Io E.State)
    → ((n : ℕ) → io.lock_ok n ≡ true)
    → holds parent io.held ≡ false
    → (E.get io.store parent).0 ≡ none
    → ((unlink E parent name io).0 ≡ failed ioerr)
      × ((unlink E parent name io).1.held ≡ parent ∷ io.held)
      × ((unlink E parent name2 (unlink E parent name io).1).0 ≡ stuck)
unfolding holds
unlink_keeps_lock E parent name name2 io ok free g =
    let first = unlink_unreadable E parent name io free (ok io.lock_calls) g in
    (
      ap (λ r. r.0) first,
      ap (λ r. r.1.held) first,
      rw first (ap (λ r. r.0) (unlink_stuck E parent name2 (locked E io parent) (ground arith))),
    )
