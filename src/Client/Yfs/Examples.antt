-- ===== src/Client/Yfs/Examples.antt =====
-- Runs of the operations of src/client/yfs_client.cc over the caching extent client.
use ctgfs.Prelude.{
  ℕ, ◌+◌, ◌-◌, ◌^◌, ◌<◌, ◌≡◌, ◌≢◌, refl, Bool, true, false, none, some, List, [], ◌∷◌, arith, ltb,
  if◌then◌else◌,
}
use ctgfs.Prelude.Bytes.{Bytes, bytes_eq}
use ctgfs.Client.ExtentCache.{World, no_extents}
use ctgfs.Client.ExtentCache as Cache
use ctgfs.Client.ExtentCache.WriteBack.{IsCoherent, put-view}
use ctgfs.Storage.Codec.{le_read, le_bytes, int_to_str, uint64_to_str}
use ctgfs.Client.Yfs.Dir.{
  Dirent, parse_entry, parse_from, parse_dir, encode_dir, parse_dir-encode_dir,
}
use ctgfs.Client.Yfs.Io.{value, failed, stuck, ioerr, noent, Io, holds, without, acquire, release}
use ctgfs.Client.Yfs.Ops.{
  Found, FileInfo, holes, read_content, write_content, isfile, c_str, read, write, create, lookup,
  unlink,
}
use ctgfs.Client.Yfs.Content.{byte_at, written_at}
use ctgfs.Client.Yfs.ReadWrite.{read_after_write}
use ctgfs.Client.Yfs.Cached.{Cached, cached_client, cached_client-Laws}
use ctgfs.Client.Yfs.Directory.Lookup.{entries, inum_of, failure}
use ctgfs.Client.Yfs.Directory.Created.{create_then_lookup}
use ctgfs.Client.Yfs.Locks.Balanced.{unlinks, runs, locks_given_back, unlink_keeps_lock}

abbrev two_entries : List Dirent
two_entries = record { name = 97 ∷ 98 ∷ []; inum = 7 } ∷ record { name = []; inum = 2 ^ 40 } ∷ []

parse_dir-encode_dir_example : parse_dir (encode_dir two_entries) ≡ some two_entries
unfolding encode_dir int_to_str uint64_to_str le_bytes
parse_dir-encode_dir_example = parse_dir-encode_dir two_entries (ground arith) (ground arith)

cut_entry : parse_dir (1 ∷ 0 ∷ 0 ∷ 0 ∷ 97 ∷ 5 ∷ 0 ∷ []) ≡ none
unfolding parse_dir parse_from parse_entry le_read
cut_entry = refl

far_write :
    write_content (1 ∷ 2 ∷ 3 ∷ []) 2 (2 ^ 32 + 5) (8 ∷ 9 ∷ [])
    ≡ some (1 ∷ 2 ∷ 3 ∷ 0 ∷ 0 ∷ 8 ∷ 9 ∷ [])
unfolding write_content holes
far_write = refl

-- The files 1, an empty directory, and 5.
abbrev world : World
world = (Cache.put 0 (Cache.put 0 no_extents 1 []).1 5 (1 ∷ 2 ∷ 3 ∷ [])).1

world-IsCoherent : (id : ℕ) → IsCoherent world id
world-IsCoherent id =
    (put-view 0 (Cache.put 0 no_extents 1 []).1 5 id (1 ∷ 2 ∷ 3 ∷ []) (ground arith)
      (put-view 0 no_extents 1 id [] (ground arith) (tt, tt)).0).0

abbrev start : Io Cached
start = record {
  store = record { world = world; net = λ round n. true; now = λ round. round; round = 0 };
  held = [];
  lock_ok = λ n. true;
  lock_calls = 0;
}

abbrev after_write : Io Cached
after_write = (write cached_client 5 2 4 (8 ∷ 9 ∷ []) start).1

written : write cached_client 5 2 4 (8 ∷ 9 ∷ []) start ≡ (value tt, after_write)
unfolding write write_content holes acquire release Cache.put Cache.get holds
written = refl

read_back :
    read cached_client 5 9 2 after_write
    ≡ (value (3 ∷ 0 ∷ 8 ∷ 9 ∷ []), (read cached_client 5 9 2 after_write).1)
unfolding write write_content read read_content holes acquire release Cache.put Cache.get holds
    without
read_back = refl

read_after_write_example :
    ((i : ℕ)
      → i < 4
      → byte_at (3 ∷ 0 ∷ 8 ∷ 9 ∷ []) i ≡ written_at (1 ∷ 2 ∷ 3 ∷ []) 4 (8 ∷ 9 ∷ []) (2 + i))
    × ((n : ℕ) → n ≡ 6 → 4 ≡ (if ltb (n - 2) 9 then n - 2 else 9))
    × ((other : ℕ)
        → other ≢ 5
        → cached_client-Laws.content after_write.store other
          ≡ cached_client-Laws.content start.store other)
unfolding cached_client-Laws Cache.put Cache.get holds encode_dir le_bytes int_to_str uint64_to_str
read_after_write_example =
    read_after_write cached_client cached_client-Laws 5 4 2 9 (1 ∷ 2 ∷ 3 ∷ []) (8 ∷ 9 ∷ []) start
      after_write (read cached_client 5 9 2 after_write).1 (3 ∷ 0 ∷ 8 ∷ 9 ∷ []) world-IsCoherent
      refl (ground arith) (ground arith) (ground arith) written read_back

abbrev master : ℕ → Bytes → Bool → ℕ → ℕ
master parent name is_dir size = 2 ^ 31 + 9

abbrev made : ℕ × FileInfo
made = (2 ^ 31 + 9, record { size = 0; atime = 1; mtime = 1; ctime = 1 })

abbrev after_create : Io Cached
after_create = (create cached_client master 1 (97 ∷ []) 0 start).1

created : create cached_client master 1 (97 ∷ []) 0 start ≡ (value made, after_create)
unfolding create acquire release Cache.put Cache.get Cache.getattr holds without parse_dir
    parse_from parse_entry encode_dir le_bytes int_to_str uint64_to_str
created = refl

create_then_lookup_example :
    (made.0 ≡ 2 ^ 31 + 9)
    × (entries [] (97 ∷ []) ≡ none)
    × ((f : Found) (io2 : Io Cached)
        → lookup cached_client 1 (97 ∷ []) after_create ≡ (value f, io2)
        → (j : ℕ) × (inum_of f ≡ some j)
          × ((if bytes_eq (97 ∷ []) (97 ∷ []) then some made.0 else none) ≡ some j))
    × (failure (lookup cached_client 1 (97 ∷ []) after_create).0 ≡ some noent
        → (if bytes_eq (97 ∷ []) (97 ∷ []) then some made.0 else none) ≡ none)
unfolding cached_client-Laws Cache.put Cache.get holds encode_dir le_bytes int_to_str uint64_to_str
create_then_lookup_example =
    create_then_lookup cached_client cached_client-Laws master 1 (97 ∷ []) (97 ∷ []) 0 [] start
      after_create made world-IsCoherent refl tt (ground arith, ground arith) (ground arith) created

locks_given_back_example :
    (runs cached_client master (unlinks 1 (97 ∷ [])) after_create).1.held ≡ []
unfolding create unlink acquire release Cache.put Cache.get Cache.getattr Cache.remove holds without
    parse_dir parse_from parse_entry encode_dir le_read le_bytes int_to_str uint64_to_str bytes_eq
    c_str isfile
locks_given_back_example =
    locks_given_back cached_client master (unlinks 1 (97 ∷ [])) after_create (λ n. refl) (λ e. cc)
      tt

-- No call reaches the server.
abbrev offline : Io Cached
offline = record {
  store = record { world = no_extents; net = λ round n. false; now = λ round. round; round = 0 };
  held = [];
  lock_ok = λ n. true;
  lock_calls = 0;
}

unlink_keeps_lock_example :
    ((unlink cached_client 1 (97 ∷ []) offline).0 ≡ failed ioerr)
    × ((unlink cached_client 1 (97 ∷ []) offline).1.held ≡ 1 ∷ [])
    × ((unlink cached_client 1 (98 ∷ []) (unlink cached_client 1 (97 ∷ []) offline).1).0 ≡ stuck)
unfolding holds Cache.get
unlink_keeps_lock_example =
    unlink_keeps_lock cached_client 1 (97 ∷ []) (98 ∷ []) offline (λ n. refl) refl refl
