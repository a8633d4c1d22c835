-- ===== src/Util/Lru.antt =====
-- The cache `LRUCache` of src/include/util/lru.h: a list in the order of use, and a table with the place of
-- each key in it. A place is the number of a node, which stays the same when `splice` moves the node.
-- Keys are numbers.
pub mod Nodes
pub mod Recency
mod Examples
use ctgfs.Prelude.{
  ℕ, ◌+◌, Bool, true, false, Option, none, some, List, [], ◌∷◌, length, ltb, ◌==◌, if◌then◌else◌,
}

pub record Node {ℓ} (W : Type ℓ) : Type ℓ where
  pub id : ℕ
  pub key : ℕ
  pub val : W

-- `list_`, `hs_table_` and `capacity_`. `evicted` is what `cb_` is called with, the latest first.
pub record LruCache {ℓ} (W : Type ℓ) : Type ℓ where
  pub capacity : ℕ
  pub list : List (Node W)
  pub table : ℕ → Option ℕ
  pub next_id : ℕ
  pub evicted : List (ℕ × W)

pub data Got {ℓ} (W : Type ℓ) : Type ℓ where
  hit : W → Got W
  miss dangling : Got W

abbrev pub set_place : (ℕ → Option ℕ) → ℕ → Option ℕ → ℕ → Option ℕ
set_place t k p j = if j == k then p else t j

module _ {ℓ} {W : Type ℓ} where
  abbrev pub lru_cache : ℕ → LruCache W
  lru_cache c = record { capacity = c; list = []; table = λ k. none; next_id = 0; evicted = [] }

  abbrev pub node_at : ℕ → List (Node W) → Option (Node W)
  node_at i [] = none
  node_at i (n ∷ l) = if n.id == i then some n else node_at i l

  abbrev pub unlink_node : ℕ → List (Node W) → List (Node W)
  unlink_node i [] = []
  unlink_node i (n ∷ l) = if n.id == i then l else n ∷ unlink_node i l

  -- An iterator that points to no node of the list is undefined behaviour: `dangling`.
  abbrev get_node : LruCache W → ℕ → Option (Node W) → Got W × LruCache W
  get_node c k none = (dangling, c)
  get_node c k (some n) = (
    hit n.val,
    record c { list = n ∷ unlink_node n.id c.list; table = set_place c.table k (some n.id) },
  )

  abbrev get_at : LruCache W → ℕ → Option ℕ → Got W × LruCache W
  get_at c k none = (miss, c)
  get_at c k (some i) = get_node c k (node_at i c.list)

  unfoldable pub get : LruCache W → ℕ → Got W × LruCache W
  get c k = get_at c k (c.table k)

  abbrev pub back : Node W → List (Node W) → Node W
  back n [] = n
  back n (m ∷ l) = back m l

  abbrev pub pop_back : Node W → List (Node W) → List (Node W)
  pop_back n [] = []
  pop_back n (m ∷ l) = n ∷ pop_back m l

  -- Behind `push_front` of the node `n`.
  abbrev pub evict : LruCache W → Node W → List (Node W) → LruCache W
  evict c n l =
      if ltb c.capacity (length (n ∷ l))
      then record c {
        list = pop_back n l;
        table = set_place c.table (back n l).key none;
        evicted = ((back n l).key, (back n l).val) ∷ c.evicted;
      }
      else record c { list = n ∷ l }

  abbrev put_node : LruCache W → ℕ → W → Option (Node W) → LruCache W
  put_node c k v none = c
  put_node c k v (some n) = record c {
    list = record n { val = v } ∷ unlink_node n.id c.list;
    table = set_place c.table k (some n.id);
  }

  abbrev put_at : LruCache W → ℕ → W → Option ℕ → LruCache W
  put_at c k v (some i) = put_node c k v (node_at i c.list)
  put_at c k v none =
      evict (record c { table = set_place c.table k (some c.next_id); next_id = c.next_id + 1 })
        (record { id = c.next_id; key = k; val = v }) c.list

  unfoldable pub put : LruCache W → ℕ → W → LruCache W
  put c k v = put_at c k v (c.table k)
