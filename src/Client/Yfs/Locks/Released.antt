-- ===== src/Client/Yfs/Locks/Released.antt =====
-- What each operation of src/client/yfs_client.cc does with its locks.
use ctgfs.Prelude.{ℕ, ◌%◌, ◌^◌, Option, none, some, List, ◌∷◌}
use ctgfs.Prelude.Bytes.{Bytes}
use ctgfs.Fs.ExtentServer.{Attr}
use ctgfs.Client.Yfs.Dir.{Dirent, parse_dir}
use ctgfs.Client.Yfs.Io.{ioerr, direnterr, ExtentClient}
use ctgfs.Client.Yfs.Ops.{
  fileinfo_of, dirinfo_of, read_content, write_content, get, put, getfile, getdir, get_file_info,
  get_dir_info, setattr, read, write, get_files, refuse_found,
}
use ctgfs.Client.Yfs.Locks.{
  Moves, then-Moves, acquire-Moves, release-Moves, pure-Moves, fail-Moves, undefined-Moves,
  lifted-Moves, return_of-Moves, need-Moves,
}

module _ (E : ExtentClient) where
  pub get-Moves : {h f : List ℕ} (inum : ℕ) → Moves h h f (get E inum)
  get-Moves inum = lifted-Moves (λ s. E.get s inum)

  pub put-Moves : {h f : List ℕ} (inum : ℕ) (b : Bytes) → Moves h h f (put E inum b)
  put-Moves inum b = lifted-Moves (λ s. E.put s inum b)

  pub getfile-Moves : {h f : List ℕ} (inum : ℕ) → Moves h h f (getfile E inum)
  getfile-Moves inum =
      then-Moves (lifted-Moves (λ s. E.getattr s inum)) (λ a. pure-Moves (fileinfo_of a))

  pub getdir-Moves : {h f : List ℕ} (inum : ℕ) → Moves h h f (getdir E inum)
  getdir-Moves inum =
      then-Moves (lifted-Moves (λ s. E.getattr s inum)) (λ a. pure-Moves (dirinfo_of a))

  pub get_file_info-Moves : {h : List ℕ} (inum : ℕ) → Moves h h h (get_file_info E inum)
  unfolding get_file_info
  get_file_info-Moves inum = then-Moves acquire-Moves (λ _.
      then-Moves (getfile-Moves inum) (λ r. then-Moves release-Moves (λ _. return_of-Moves r)))

  pub get_dir_info-Moves : {h : List ℕ} (inum : ℕ) → Moves h h h (get_dir_info E inum)
  unfolding get_dir_info
  get_dir_info-Moves inum =
      then-Moves acquire-Moves (λ _.
        then-Moves (getdir-Moves inum) (λ r. then-Moves release-Moves (λ _. return_of-Moves r)))

  pub setattr-Moves :
      {h : List ℕ} (junk : Attr) (inum size : ℕ) → Moves h h h (setattr E junk inum size)
  unfolding setattr
  setattr-Moves junk inum size = then-Moves acquire-Moves (λ _.
      then-Moves
        (need-Moves ioerr
          (lifted-Moves (λ s. E.setattr s inum (record junk { size = size % 2 ^ 32 })))
          release-Moves)
        (λ _.
          then-Moves (need-Moves ioerr (getfile-Moves inum) release-Moves)
            (λ info. then-Moves release-Moves (λ _. pure-Moves info))))

  pub read-Moves : {h : List ℕ} (inum size off : ℕ) → Moves h h h (read E inum size off)
  unfolding read
  read-Moves inum size off = then-Moves acquire-Moves (λ _.
      then-Moves (need-Moves ioerr (get-Moves inum) release-Moves) (λ buf.
        then-Moves (undefined-Moves (read_content buf size off))
          (λ part. then-Moves release-Moves (λ _. pure-Moves part))))

  pub write-Moves :
      {h : List ℕ} (inum size off : ℕ) (buf : Bytes) → Moves h h h (write E inum size off buf)
  unfolding write
  write-Moves inum size off buf = then-Moves acquire-Moves (λ _.
      then-Moves (need-Moves ioerr (get-Moves inum) release-Moves) (λ origin.
        then-Moves (undefined-Moves (write_content origin size off buf)) (λ content.
          then-Moves (need-Moves ioerr (put-Moves inum content) release-Moves)
            (λ _. release-Moves))))

  pub get_files-Moves :
      {h : List ℕ} (parent : ℕ) → Moves (parent ∷ h) (parent ∷ h) h (get_files E parent)
  get_files-Moves parent =
      then-Moves (need-Moves ioerr (get-Moves parent) release-Moves)
        (λ d. need-Moves direnterr (pure-Moves (parse_dir d)) release-Moves)

  pub refuse_found-Moves :
      {h : List ℕ} (parent : ℕ) (o : Option Dirent)
      → Moves (parent ∷ h) (parent ∷ h) h (refuse_found E parent o)
  refuse_found-Moves parent none = pure-Moves tt
  refuse_found-Moves parent (some f) = then-Moves release-Moves (λ _. fail-Moves)
