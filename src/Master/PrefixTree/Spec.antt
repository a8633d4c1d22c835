-- ===== src/Master/PrefixTree/Spec.antt =====
-- The tree of src/master/prefix_tree.cc as a map from paths to what stands there.
use ctgfs.Prelude.{
  ℕ, ◌≡◌, Bool, true, false, ◌&&◌, Option, none, some, List, [], ◌∷◌, ◌++◌, if◌then◌else◌,
}
use ctgfs.Prelude.Bytes.{Bytes, bytes_eq}
use ctgfs.Master.PrefixTree.{Node, PrefixTree, Status, ok, prefix_tree_error, names}
use ctgfs.Master.PrefixTree.Shape.{find}
use ctgfs.Master.PrefixTree.Ops.{Op, creates, removes, registers}

-- Whether it is a directory, and its inum; the empty path is the root.
abbrev pub Entries : Type 0
Entries = List Bytes → Option (Bool × ℕ)

abbrev pub view_of : (ℕ → Node) → Option ℕ → Option (Bool × ℕ)
view_of nodes none = none
view_of nodes (some a) = some ((nodes a).is_dir, (nodes a).ino)

unfoldable pub entries : PrefixTree → Entries
entries t ds = view_of t.nodes (find t.nodes 0 ds)

abbrev pub only_root : Entries
only_root [] = some (true, 0)
only_root (p ∷ ps) = none

abbrev pub same_path : List Bytes → List Bytes → Bool
same_path [] [] = true
same_path (p ∷ ps) (q ∷ qs) = bytes_eq p q && same_path ps qs
same_path _ _ = false

abbrev pub but_last : Bytes → List Bytes → List Bytes
but_last p [] = []
but_last p (q ∷ qs) = p ∷ but_last q qs

abbrev pub is_directory : Option (Bool × ℕ) → Bool
is_directory none = false
is_directory (some (is_dir, ino)) = is_dir

abbrev pub is_absent : Option (Bool × ℕ) → Bool
is_absent none = true
is_absent (some e) = false

-- The directory is there, and the path is not.
abbrev pub creatable : Entries → Bytes → List Bytes → Bool
creatable f p ps = is_directory (f (but_last p ps)) && is_absent (f (p ∷ ps))

abbrev pub created : Entries → Bytes → List Bytes → Bool × ℕ → Entries
created f p ps e ds = if same_path ds (p ∷ ps) && creatable f p ps then some e else f ds

-- Only the first directory of the path counts.
abbrev pub create_status : Entries → Bytes → List Bytes → Status
create_status f p [] = ok
create_status f p (q ∷ qs) = if is_directory (f (p ∷ [])) then ok else prefix_tree_error

abbrev pub erased : Entries → List Bytes → Entries
erased f ps ds = if same_path ds ps then none else f ds

-- What is there goes where nothing is below it.
pub data Removal (f : Entries) (ps : List Bytes) : Status → Entries → Type 0 where
  gone :
      (e : Bool × ℕ)
      → f ps ≡ some e
      → ((q : Bytes) → f (ps ++ q ∷ []) ≡ none)
      → Removal f ps ok (erased f ps)
  missing : f ps ≡ none → Removal f ps prefix_tree_error f
  occupied :
      (q : Bytes) (e : Bool × ℕ) → f (ps ++ q ∷ []) ≡ some e → Removal f ps prefix_tree_error f

-- Operations one after the other, with the statuses that they return.
pub data Follows : Entries → List Op → List Status → Entries → Type 0 where
  stays : (f : Entries) → Follows f [] [] f
  makes :
      {f g : Entries} {ops : List Op} {ss : List Status} (s : Bytes) (ino : ℕ) (is_dir : Bool)
      (sz : ℕ)
      → Follows (created f (names s).0 (names s).1 (is_dir, ino)) ops ss g
      → Follows f (creates s ino is_dir sz ∷ ops) (create_status f (names s).0 (names s).1 ∷ ss) g
  drops :
      {f g h : Entries} {ops : List Op} {status : Status} {ss : List Status} (s : Bytes)
      → Removal f ((names s).0 ∷ (names s).1) status g
      → Follows g ops ss h
      → Follows f (removes s ∷ ops) (status ∷ ss) h
  adds :
      {f g : Entries} {ops : List Op} {ss : List Status} (id mem : ℕ)
      → Follows f ops ss g
      → Follows f (registers id mem ∷ ops) ss g
