-- ===== src/Client/Yfs/Directory/Created.antt =====
-- What a `lookup` of src/client/yfs_client.cc answers after a `create`.
use ctgfs.Prelude.{
  ℕ, ◌^◌, ◌<◌, ◌≡◌, ◌≢◌, refl, ap, sym, ◌∙◌, Bool, true, false, Option, none, some, List, [], ◌∷◌,
  ◌++◌, length, if◌then◌else◌, All,
}
use ctgfs.Prelude.Bytes.{Bytes, bytes_eq}
use ctgfs.Client.Yfs.Dir.{Dirent, parse_dir, encode_dir, IsEncodable, parse_encoded}
use ctgfs.Client.Yfs.Io.{
  noent, ioerr, ExtentClient, Laws, Outcome, value, failed, stuck, undefined, Io, M, and_then, ◌>>◌,
  pure, fail, acquire, release, need, caught,
}
use ctgfs.Client.Yfs.Ops.{
  get, get_file_info, get_dir_info, FileInfo, Found, found_file, found_dir, found_first, is_named,
  isfile, create, lookup_entry, lookup_found, lookup_files, lookup,
}
use ctgfs.Client.Yfs.Values.{then-value, value_or, acquire-store}
use ctgfs.Client.Yfs.ReadWrite.{got, same_some, if_self}
use ctgfs.Client.Yfs.Directory.{create-content}
use ctgfs.Client.Yfs.Directory.Lookup.{
  entries, inum_of, inum_of_entry, failure, acquire_finds, given_or-Finds, release-Finds,
  lookup_found-Finds, entries-append, All-append,
}

then-failed :
    {S A B : Type 0} (r : Outcome A × Io S) (g : A → M S B)
    → failure (and_then r g).0 ≡ some noent
    → failure r.0 ≢ some noent
    → (a : A) × (io1 : Io S) × (r ≡ (value a, io1)) × (failure (g a io1).0 ≡ some noent)
then-failed (value a, io) g e h = (a, io, refl, e)
then-failed (failed s, io) g e h = absurd (h e)
then-failed (stuck, io) g e h = cc
then-failed (undefined, io) g e h = cc

module _ (E : ExtentClient) (L : Laws E) where
  lookup_entry-inum :
      (parent inum : ℕ) (b : Bool) (io io1 : Io E.State) (f : Found)
      → lookup_entry E parent inum b io ≡ (value f, io1)
      → inum_of f ≡ some inum
  lookup_entry-inum parent inum true io io1 f e =
      let (info, i2, _, e2) =
        then-value (need (caught (get_file_info E inum)) (release parent) ioerr io)
          (λ info. pure (found_file inum info)) f io1 e in
      ap (λ r. inum_of (value_or f r.0)) (sym e2)
  lookup_entry-inum parent inum false io io1 f e =
      let (info, i2, _, e2) =
        then-value (need (caught (get_dir_info E inum)) (release parent) ioerr io)
          (λ info. pure (found_dir inum info)) f io1 e in
      ap (λ r. inum_of (value_or f r.0)) (sym e2)

  lookup_found-value :
      (parent : ℕ) (o : Option Dirent) (io io1 : Io E.State) (f : Found)
      → lookup_found E parent o io ≡ (value f, io1)
      → (j : ℕ) × (inum_of f ≡ some j) × (inum_of_entry o ≡ some j)
  lookup_found-value parent none io io1 f e =
      let (_, i2, _, bad) = then-value (release parent io) (λ _. fail noent) f io1 e in cc
  lookup_found-value parent (some d) io io1 f e =
      let (found, i2, m, e2) =
        then-value (lookup_entry E parent d.inum (isfile d.inum) io)
          (λ found. do release parent; pure found) f io1 e in
      let (_, i3, _, e3) = then-value (release parent i2) (λ _. pure found) f io1 e2 in
      (
        d.inum,
        ap (λ r. inum_of (value_or found r.0)) (sym e3)
            ∙ lookup_entry-inum parent d.inum (isfile d.inum) io i2 found m,
        refl,
      )

  lookup-answers :
      (parent : ℕ) (n : Bytes) (vec : List Dirent) (io : Io E.State)
      → L.IsValid io.store
      → L.content io.store parent ≡ some (encode_dir vec)
      → All IsEncodable vec
      → ((f : Found) (io1 : Io E.State)
          → lookup E parent n io ≡ (value f, io1)
          → (j : ℕ) × (inum_of f ≡ some j) × (entries vec n ≡ some j))
        × (failure (lookup E parent n io).0 ≡ some noent → entries vec n ≡ none)
  unfolding lookup
  lookup-answers parent n vec io v there ok = (found, missing)
    where
      -- Behind the read of the directory.
      parsed :
          (i1 i2 : Io E.State) (d : Bytes)
          → i1.store ≡ io.store
          → need (get E parent) (release parent) ioerr i1 ≡ (value d, i2)
          → parse_dir d ≡ some vec
      parsed i1 i2 d same e =
          let (old, _, _) = got E L parent (release parent) io.store i1 i2 d v same e in
          rw (same_some old there) (parse_encoded vec ok)

      found :
          (f : Found) (io1 : Io E.State)
          → lookup E parent n io ≡ (value f, io1)
          → (j : ℕ) × (inum_of f ≡ some j) × (entries vec n ≡ some j)
      found f io1 e =
          let (_, i1, a, e1) = then-value (acquire parent io) _ f io1 e in
          let (d, i2, g, e2) =
            then-value (need (get E parent) (release parent) ioerr i1)
              (λ d. lookup_files E parent n (parse_dir d)) f io1 e1 in
          let p = parsed i1 i2 d (acquire-store parent io i1 a) g in
          lookup_found-value parent (found_first (is_named n) vec) i2 io1 f
            (ap (λ o. lookup_files E parent n o i2) (sym p) ∙ e2)

      none_there :
          (o : Option Dirent) (i : Io E.State)
          → failure (lookup_found E parent o i).0 ≡ some noent
          → inum_of_entry o ≡ none
      none_there none i e = refl
      none_there (some f) i e = absurd ((lookup_found-Finds E parent f).never i e)

      missing : failure (lookup E parent n io).0 ≡ some noent → entries vec n ≡ none
      missing e =
          let (_, i1, a, e1) = then-failed (acquire parent io) _ e (acquire_finds parent io) in
          let (d, i2, g, e2) =
            then-failed (need (get E parent) (release parent) ioerr i1)
              (λ d. lookup_files E parent n (parse_dir d)) e1
              ((given_or-Finds (release-Finds parent) (E.get i1.store parent).0).never
                (record i1 { store = (E.get i1.store parent).1 })) in
          let p = parsed i1 i2 d (acquire-store parent io i1 a) g in
          none_there (found_first (is_named n) vec) i2
            (ap (λ o. failure (lookup_files E parent n o i2).0) (sym p) ∙ e2)

-- Over an extent client that keeps its laws, in a valid state of it, and in a directory whose entries can be encoded, with the new
-- one, in less than 2^32 bytes: a `create` with a value gives the number that the master has chosen for
-- a name that was not in the directory. A `lookup` of any name after it that ends with a value gives
-- the number that the directory has for it, the new one for the new name, and one that answers NOENT is
-- of a name that the directory does not have.
pub create_then_lookup :
    (E : ExtentClient) (L : Laws E)
    → (master : ℕ → Bytes → Bool → ℕ → ℕ) (parent : ℕ) (name n : Bytes) (size : ℕ)
      (vec : List Dirent)
    → (io io1 : Io E.State) (made : ℕ × FileInfo) → L.IsValid io.store
    → L.content io.store parent ≡ some (encode_dir vec)
    → All IsEncodable vec
    → IsEncodable (record { name = name; inum = master parent name false size })
    → length (encode_dir (vec ++ record { name = name; inum = master parent name false size } ∷ []))
      < 2 ^ 32
    → create E master parent name size io ≡ (value made, io1)
    → (made.0 ≡ master parent name false size)
      × (entries vec name ≡ none)
      × ((f : Found) (io2 : Io E.State)
          → lookup E parent n io1 ≡ (value f, io2)
          → (j : ℕ) × (inum_of f ≡ some j)
            × ((if bytes_eq name n then some made.0 else entries vec n) ≡ some j))
      × (failure (lookup E parent n io1).0 ≡ some noent
          → (if bytes_eq name n then some made.0 else entries vec n) ≡ none)
create_then_lookup E L master parent name n size vec io io1 made v there ok new fits e =
    let inum = master parent name false size in
    let vec1 = vec ++ record { name = name; inum = inum } ∷ [] in
    let (isi, free, v1, after) =
      create-content E L master parent name size vec io io1 made v there ok fits e in
    let written : L.content io1.store parent ≡ some (encode_dir vec1) =
      after parent ∙ if_self parent _ _ in
    let (found, missing) =
      lookup-answers E L parent n vec1 io1 v1 written
        (All-append vec (record { name = name; inum = inum }) ok new) in
    let map1 : entries vec1 n ≡ (if bytes_eq name n then some made.0 else entries vec n) =
      entries-append vec name n inum free
      ∙ ap (λ i. if bytes_eq name n then some i else entries vec n) (sym isi) in
    (
      isi,
      ap inum_of_entry free,
      λ f io2 l. let (j, a, b) = found f io2 l in (j, a, sym map1 ∙ b),
      λ l. sym map1 ∙ missing l,
    )
