-- ===== src/Client/Yfs/Ops.antt =====
-- The operations of `yfs_client` in src/client/yfs_client.cc. The extent client is a parameter, and so is
-- `GetInumByName` of the client object, which asks the master; the address that goes with an inum does
-- not show here.
use ctgfs.Prelude.{
  ℕ, zero, suc, ◌+◌, ◌-◌, ◌/◌, ◌%◌, ◌^◌, Bool, true, false, Option, none, some, List, [], ◌∷◌, ◌++◌,
  length, take, drop, ltb, leb, ◌==◌, if◌then◌else◌, not,
}
use ctgfs.Prelude.Bytes.{Bytes, bytes_eq}
use ctgfs.Fs.ExtentServer.{Attr}
use ctgfs.Client.Yfs.Dir.{Dirent, parse_dir, encode_dir}
use ctgfs.Client.Yfs.Io.{
  noent, ioerr, exist, direnterr, notdir, ExtentClient, caught, M, ◌>>=◌, ◌>>◌, pure, fail,
  undefined_if_none, acquire, release, release_both, need, return_of, lifted,
}

-- `fileinfo`; `dirinfo` has no size.
pub record FileInfo : Type 0 where
  pub size : ℕ
  pub atime : ℕ
  pub mtime : ℕ
  pub ctime : ℕ

pub record DirInfo : Type 0 where
  pub atime : ℕ
  pub mtime : ℕ
  pub ctime : ℕ

-- The bit 0x80000000.
unfoldable pub isfile : ℕ → Bool
isfile inum = inum / 2 ^ 31 % 2 == 1

abbrev pub isdir : ℕ → Bool
isdir inum = not (isfile inum)

abbrev pub fileinfo_of : Option Attr → Option FileInfo
fileinfo_of none = none
fileinfo_of (some a) =
    some (record { size = a.size; atime = a.atime; mtime = a.mtime; ctime = a.ctime })

abbrev pub dirinfo_of : Option Attr → Option DirInfo
dirinfo_of none = none
dirinfo_of (some a) = some (record { atime = a.atime; mtime = a.mtime; ctime = a.ctime })

unfoldable pub holes : ℕ → Bytes
holes zero = []
holes (suc n) = 0 ∷ holes n

-- What `read` makes of the content: `none` where `off` does not fit 32 bits, and the iterators that it
-- makes are past the end.
unfoldable pub read_content : Bytes → ℕ → ℕ → Option Bytes
read_content buf size off =
    if leb (length buf) (off % 2 ^ 32)
    then some []
    else if ltb (length buf) off
    then none
    else some (take (if ltb (length buf - off) size then length buf - off else size) (drop off buf))

-- What `write` makes of the content: `none` as in `read_content`.
unfoldable pub write_content : Bytes → ℕ → ℕ → Bytes → Option Bytes
write_content origin size off buf =
    if leb (length origin % 2 ^ 32) (off % 2 ^ 32)
    then some ((origin ++ holes (off % 2 ^ 32 - length origin % 2 ^ 32)) ++ buf)
    else if ltb (length origin) off
    then none
    else let need_append =
        if ltb size ((length origin - off) % 2 ^ 32) then drop (off + size) origin else [] in
      some ((take off origin ++ buf) ++ need_append)

abbrev pub found_first : (Dirent → Bool) → List Dirent → Option Dirent
found_first same [] = none
found_first same (f ∷ files) = if same f then some f else found_first same files

-- `files.erase` of the first that is found.
abbrev pub erase_first : (Dirent → Bool) → List Dirent → List Dirent
erase_first same [] = []
erase_first same (f ∷ files) = if same f then files else f ∷ erase_first same files

abbrev pub is_named : Bytes → Dirent → Bool
is_named name f = bytes_eq f.name name

-- `c_str()`, which `unlink` compares with: up to the first null byte.
unfoldable pub c_str : Bytes → Bytes
c_str [] = []
c_str (c ∷ s) = let rest = c_str s in if c == 0 then [] else c ∷ rest

abbrev pub is_named_c : Bytes → Dirent → Bool
is_named_c name f = bytes_eq (c_str f.name) name

-- `lookup`: what it leaves in its outputs.
pub data Found : Type 0 where
  found_file : ℕ → FileInfo → Found
  found_dir : ℕ → DirInfo → Found
  nothing_set : Found

module _ (E : ExtentClient) where
  abbrev pub get : ℕ → M E.State (Option Bytes)
  get inum = lifted (λ s. E.get s inum)

  abbrev pub put : ℕ → Bytes → M E.State (Option (Unit {0}))
  put inum b = lifted (λ s. E.put s inum b)

  abbrev pub remove : ℕ → M E.State (Option (Unit {0}))
  remove inum = lifted (λ s. E.remove s inum)

  abbrev pub getfile : ℕ → M E.State (Option FileInfo)
  getfile inum = do a ← lifted (λ s. E.getattr s inum); pure (fileinfo_of a)

  abbrev pub getdir : ℕ → M E.State (Option DirInfo)
  getdir inum = do a ← lifted (λ s. E.getattr s inum); pure (dirinfo_of a)

  unfoldable pub get_file_info : ℕ → M E.State FileInfo
  get_file_info inum = do acquire inum; r ← getfile inum; release inum; return_of r

  unfoldable pub get_dir_info : ℕ → M E.State DirInfo
  get_dir_info inum = do acquire inum; r ← getdir inum; release inum; return_of r

  -- `junk` is what the times of the attribute happen to be.
  unfoldable pub setattr : Attr → ℕ → ℕ → M E.State FileInfo
  setattr junk inum st_size = do
    acquire inum
    need (lifted (λ s. E.setattr s inum (record junk { size = st_size % 2 ^ 32 }))) (release inum)
        ioerr
    info ← need (getfile inum) (release inum) ioerr
    release inum
    pure info

  unfoldable pub read : ℕ → ℕ → ℕ → M E.State Bytes
  read inum size off = do
    acquire inum
    buf ← need (get inum) (release inum) ioerr
    part ← undefined_if_none (read_content buf size off)
    release inum
    pure part

  unfoldable pub write : ℕ → ℕ → ℕ → Bytes → M E.State (Unit {0})
  write inum size off buf = do
    acquire inum
    origin ← need (get inum) (release inum) ioerr
    content ← undefined_if_none (write_content origin size off buf)
    need (put inum content) (release inum) ioerr
    release inum

  -- The content of a directory, read with its lock.
  abbrev pub get_files : ℕ → M E.State (List Dirent)
  get_files parent = do
    data_ ← need (get parent) (release parent) ioerr
    need (pure (parse_dir data_)) (release parent) direnterr

  abbrev pub refuse_found : ℕ → Option Dirent → M E.State (Unit {0})
  refuse_found parent none = pure tt
  refuse_found parent (some f) = do release parent; fail exist

  -- The part of `create` and `mkdir` that both write alike: the entry of `inum` in the parent.
  abbrev pub put_entry : ℕ → List Dirent → Bytes → ℕ → M E.State (Unit {0})
  put_entry parent files name inum =
      need (put parent (encode_dir (files ++ record { name = name; inum = inum } ∷ [])))
        (release_both inum parent) ioerr

  unfoldable pub create : (ℕ → Bytes → Bool → ℕ → ℕ) → ℕ → Bytes → ℕ → M E.State (ℕ × FileInfo)
  create get_inum_by_name parent name size = do
    acquire parent
    files ← get_files parent
    refuse_found parent (found_first (is_named name) files)
    let inum = get_inum_by_name parent name false size
    acquire inum
    need (put inum []) (release_both parent inum) ioerr
    put_entry parent files name inum
    info ← need (getfile inum) (release_both inum parent) ioerr
    release inum
    release parent
    pure (inum, info)

  unfoldable pub mkdir : (ℕ → Bytes → Bool → ℕ → ℕ) → ℕ → Bytes → M E.State (ℕ × DirInfo)
  mkdir get_inum_by_name parent name = do
    acquire parent
    files ← get_files parent
    refuse_found parent (found_first (is_named name) files)
    let inum = get_inum_by_name parent name true 0
    acquire inum
    need (put inum []) (release_both inum parent) ioerr
    put_entry parent files name inum
    info ← need (getdir inum) (release_both inum parent) ioerr
    release inum
    release parent
    pure (inum, info)

  -- The two branches on `isfile(inum)`.
  abbrev pub lookup_entry : ℕ → ℕ → Bool → M E.State Found
  lookup_entry parent inum true = do
    info ← need (caught (get_file_info inum)) (release parent) ioerr
    pure (found_file inum info)
  lookup_entry parent inum false = do
    info ← need (caught (get_dir_info inum)) (release parent) ioerr
    pure (found_dir inum info)

  abbrev pub lookup_found : ℕ → Option Dirent → M E.State Found
  lookup_found parent none = do release parent; fail noent
  lookup_found parent (some f) = do
    found ← lookup_entry parent f.inum (isfile f.inum)
    release parent
    pure found

  -- A directory that cannot be parsed: `r` is OK there, and the outputs are as they were.
  abbrev pub lookup_files : ℕ → Bytes → Option (List Dirent) → M E.State Found
  lookup_files parent name none = do release parent; pure nothing_set
  lookup_files parent name (some files) = lookup_found parent (found_first (is_named name) files)

  unfoldable pub lookup : ℕ → Bytes → M E.State Found
  lookup parent name = do
    acquire parent
    data_ ← need (get parent) (release parent) ioerr
    lookup_files parent name (parse_dir data_)

  unfoldable pub readdir : ℕ → M E.State (List Dirent)
  readdir inum =
      if isfile inum
      then fail notdir
      else (do acquire inum; files ← get_files inum; release inum; pure files)

  abbrev pub unlink_entry : ℕ → Bytes → List Dirent → Option Dirent → M E.State (Option ℕ)
  unlink_entry parent name files none = pure none
  unlink_entry parent name files (some f) =
      if isfile f.inum
      then (do
        need (put parent (encode_dir (erase_first (is_named_c name) files))) (release parent) ioerr
        pure (some f.inum))
      else (do release parent; fail noent)

  abbrev pub unlink_file : Option ℕ → M E.State (Unit {0})
  unlink_file none = fail noent
  unlink_file (some id) = do acquire id; r ← remove id; release id; return_of r

  -- Where the content of the parent cannot be got, the lock is not given back.
  unfoldable pub unlink : ℕ → Bytes → M E.State (Unit {0})
  unlink parent name = do
    acquire parent
    r ← get parent
    data_ ← return_of r
    files ← need (pure (parse_dir data_)) (release parent) direnterr
    id ← unlink_entry parent name files (found_first (is_named_c name) files)
    release parent
    unlink_file id
