-- ===== src/Client/Yfs/Locks/Directories.antt =====
-- The locks of the operations on directories in src/client/yfs_client.cc.
use ctgfs.Prelude.{ℕ, Bool, true, false, Option, none, some, List, [], ◌∷◌, ◌++◌}
use ctgfs.Prelude.Bytes.{Bytes}
use ctgfs.Client.Yfs.Dir.{Dirent, parse_dir, encode_dir}
use ctgfs.Client.Yfs.Io.{ioerr, ExtentClient}
use ctgfs.Client.Yfs.Ops.{
  found_file, found_dir, nothing_set, found_first, erase_first, is_named, is_named_c, isfile,
  put_entry, create, mkdir, lookup_entry, lookup_found, lookup_files, lookup, readdir, unlink_entry,
  unlink_file,
}
use ctgfs.Client.Yfs.Locks.{
  Moves, then-Moves, acquire-Moves, release-Moves, pure-Moves, fail-Moves, lifted-Moves,
  return_of-Moves, need-Moves, caught-Moves, if-Moves, both-Moves, both_second-Moves,
}
use ctgfs.Client.Yfs.Locks.Released.{
  get-Moves, put-Moves, getfile-Moves, getdir-Moves, get_file_info-Moves, get_dir_info-Moves,
  get_files-Moves, refuse_found-Moves,
}

module _ (E : ExtentClient) where
  put_entry-Moves :
      {h : List ℕ} (parent : ℕ) (files : List Dirent) (name : Bytes) (inum : ℕ)
      → Moves (inum ∷ parent ∷ h) (inum ∷ parent ∷ h) h (put_entry E parent files name inum)
  put_entry-Moves parent files name inum =
      need-Moves ioerr
        (put-Moves E parent (encode_dir (files ++ record { name = name; inum = inum } ∷ [])))
        both-Moves

  pub create-Moves :
      {h : List ℕ} (master : ℕ → Bytes → Bool → ℕ → ℕ) (parent : ℕ) (name : Bytes) (size : ℕ)
      → Moves h h h (create E master parent name size)
  unfolding create
  create-Moves master parent name size =
      let inum = master parent name false size in
      then-Moves acquire-Moves (λ _. then-Moves (get_files-Moves E parent) (λ files.
        then-Moves (refuse_found-Moves E parent (found_first (is_named name) files)) (λ _.
          then-Moves acquire-Moves (λ _.
            then-Moves (need-Moves ioerr (put-Moves E inum []) both_second-Moves) (λ _.
              then-Moves (put_entry-Moves parent files name inum) (λ _.
                then-Moves (need-Moves ioerr (getfile-Moves E inum) both-Moves) (λ info.
                  then-Moves release-Moves
                    (λ _. then-Moves release-Moves (λ _. pure-Moves (inum, info))))))))))

  pub mkdir-Moves :
      {h : List ℕ} (master : ℕ → Bytes → Bool → ℕ → ℕ) (parent : ℕ) (name : Bytes)
      → Moves h h h (mkdir E master parent name)
  unfolding mkdir
  mkdir-Moves master parent name =
      let inum = master parent name true 0 in
      then-Moves acquire-Moves (λ _. then-Moves (get_files-Moves E parent) (λ files.
        then-Moves (refuse_found-Moves E parent (found_first (is_named name) files)) (λ _.
          then-Moves acquire-Moves (λ _.
            then-Moves (need-Moves ioerr (put-Moves E inum []) both-Moves) (λ _.
              then-Moves (put_entry-Moves parent files name inum) (λ _.
                then-Moves (need-Moves ioerr (getdir-Moves E inum) both-Moves) (λ info.
                  then-Moves release-Moves
                    (λ _. then-Moves release-Moves (λ _. pure-Moves (inum, info))))))))))

  lookup_entry-Moves :
      {h : List ℕ} (parent inum : ℕ) (b : Bool)
      → Moves (parent ∷ h) (parent ∷ h) h (lookup_entry E parent inum b)
  lookup_entry-Moves parent inum true =
      then-Moves (need-Moves ioerr (caught-Moves (get_file_info-Moves E inum)) release-Moves)
        (λ info. pure-Moves (found_file inum info))
  lookup_entry-Moves parent inum false =
      then-Moves (need-Moves ioerr (caught-Moves (get_dir_info-Moves E inum)) release-Moves)
        (λ info. pure-Moves (found_dir inum info))

  lookup_files-Moves :
      {h : List ℕ} (parent : ℕ) (name : Bytes) (o : Option (List Dirent))
      → Moves (parent ∷ h) h h (lookup_files E parent name o)
  lookup_files-Moves parent name none = then-Moves release-Moves (λ _. pure-Moves nothing_set)
  lookup_files-Moves {h} parent name (some files) = entry (found_first (is_named name) files)
    where
      entry : (o : Option Dirent) → Moves (parent ∷ h) h h (lookup_found E parent o)
      entry none = then-Moves release-Moves (λ _. fail-Moves)
      entry (some f) =
          then-Moves (lookup_entry-Moves parent f.inum (isfile f.inum))
            (λ found. then-Moves release-Moves (λ _. pure-Moves found))

  pub lookup-Moves : {h : List ℕ} (parent : ℕ) (name : Bytes) → Moves h h h (lookup E parent name)
  unfolding lookup
  lookup-Moves parent name = then-Moves acquire-Moves (λ _.
      then-Moves (need-Moves ioerr (get-Moves E parent) release-Moves)
        (λ d. lookup_files-Moves parent name (parse_dir d)))

  pub readdir-Moves : {h : List ℕ} (inum : ℕ) → Moves h h h (readdir E inum)
  unfolding readdir
  readdir-Moves inum = if-Moves (isfile inum) fail-Moves (
      then-Moves acquire-Moves (λ _.
        then-Moves (get_files-Moves E inum)
          (λ files. then-Moves release-Moves (λ _. pure-Moves files))))

  pub unlink_entry-Moves :
      {h : List ℕ} (parent : ℕ) (name : Bytes) (files : List Dirent) (o : Option Dirent)
      → Moves (parent ∷ h) (parent ∷ h) h (unlink_entry E parent name files o)
  unlink_entry-Moves parent name files none = pure-Moves none
  unlink_entry-Moves parent name files (some f) =
      if-Moves (isfile f.inum)
        (then-Moves
          (need-Moves ioerr (put-Moves E parent (encode_dir (erase_first (is_named_c name) files)))
            release-Moves)
          (λ _. pure-Moves (some f.inum)))
        (then-Moves release-Moves (λ _. fail-Moves))

  pub unlink_file-Moves : {h : List ℕ} (o : Option ℕ) → Moves h h h (unlink_file E o)
  unlink_file-Moves none = fail-Moves
  unlink_file-Moves (some id) = then-Moves acquire-Moves (λ _.
      then-Moves (lifted-Moves (λ s. E.remove s id))
        (λ r. then-Moves release-Moves (λ _. return_of-Moves r)))
