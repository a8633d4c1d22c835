-- ===== src/Util/Lru/Recency.antt =====
-- The cache of src/include/util/lru.h as a list of keys and values in the order of their use.
use ctgfs.Prelude.{
  ℕ, suc, ◌+◌, ◌≤◌, ◌≡◌, refl, ap, sym, ◌∙◌, inl, inr, Option, none, some, List, [], ◌∷◌, arith,
  length, take, ltb, Bool-cases, Option-cases,
}
use ctgfs.Util.Lru.{
  Node, LruCache, Got, hit, miss, lru_cache, node_at, unlink_node, set_place, get_node, get_at, get,
  evict, put_node, put_at, put,
}
use ctgfs.Util.Lru.Nodes.{
  view, without_key, value_of, place_of, IsDistinct, place-node, missing-value, unlink-view,
  unlink-place, unlink-IsDistinct, length-unlink, again-Apart, view-pop_back, place-pop_back,
  pop_back-IsDistinct, length-pop_back, Below, unlink-Below, pop_back-Below, Below-next, new-Apart,
  place-Below, take-view,
}

module _ {ℓ} {W : Type ℓ} where
  -- The table has the place of every key, and no other.
  pub record IsSound (c : LruCache W) : Type 0 where
    pub places : (k : ℕ) → c.table k ≡ place_of k c.list
    pub distinct : IsDistinct c.list
    pub below : Below c.next_id c.list
    pub bounded : length c.list ≤ c.capacity

  abbrev pub contents : LruCache W → List (ℕ × W)
  contents c = view c.list

  -- What a lookup should answer, and what it should leave.
  abbrev pub answer_of : Option W → Got W
  answer_of none = miss
  answer_of (some v) = hit v

  abbrev pub used : ℕ → Option W → List (ℕ × W) → List (ℕ × W)
  used k none l = l
  used k (some v) l = (k, v) ∷ without_key k l

  -- The node of a key comes to the front, perhaps with another value.
  abbrev in_front : LruCache W → ℕ → Node W → LruCache W
  in_front c k m = record c {
    list = m ∷ unlink_node m.id c.list;
    table = set_place c.table k (some m.id);
  }

  front-IsSound :
      (c : LruCache W) (k : ℕ) (m : Node W)
      → IsSound c
      → place_of k c.list ≡ some m.id
      → m.key ≡ k
      → IsSound (in_front c k m)
  front-IsSound c k m s e p = record {
    places = λ j. ground (arith, s.places j, unlink-place k m.id j c.list s.distinct e);
    distinct =
        (again-Apart k m.id m c.list p refl s.distinct e, unlink-IsDistinct m.id c.list s.distinct);
    below =
        (place-Below c.next_id k m.id c.list s.below e, unlink-Below c.next_id m.id c.list s.below);
    bounded = let shorter = length-unlink k m.id c.list e in omega (arith, s.bounded);
  }

  front-contents :
      (c : LruCache W) (k : ℕ) (m : Node W)
      → IsSound c
      → place_of k c.list ≡ some m.id
      → m.key ≡ k
      → contents (in_front c k m) ≡ (k, m.val) ∷ without_key k (contents c)
  front-contents c k m s e p =
      ap (λ j. (j, m.val) ∷ view (unlink_node m.id c.list)) p
      ∙ ap (λ t. (k, m.val) ∷ t) (unlink-view k m.id c.list s.distinct e)

  get-lem :
      (c : LruCache W) (k : ℕ)
      → IsSound c
      → IsSound (get c k).1
        × ((get c k).0 ≡ answer_of (value_of k (contents c)))
        × (contents (get c k).1 ≡ used k (value_of k (contents c)) (contents c))
  unfolding get
  get-lem c k s = elim (Option-cases (place_of k c.list)) [
    | inl e ↦
        let (none_there, _) = missing-value k c.list e in
        rw (s.places k, e, none_there) (s, refl, refl)
    | inr (i, e) ↦
        let (m, at, key, id, val) = place-node k i c.list s.distinct e in
        let there = e ∙ ap some (sym id) in
        rw (s.places k, e, at, val)
          (front-IsSound c k m s there key, refl, front-contents c k m s there key)
  ]

  evict-lem :
      (c : LruCache W) (n : Node W)
      → IsSound c
      → place_of n.key c.list ≡ none
      → n.id ≡ c.next_id
      → let d =
          evict
            (record c { table = set_place c.table n.key (some c.next_id); next_id = c.next_id + 1 })
            n
            c.list in
        IsSound d × (contents d ≡ take c.capacity (view (n ∷ c.list)))
  evict-lem c n s e q = elim (Bool-cases (ltb c.capacity (length (n ∷ c.list)))) [
    | inl over ↦
        let full : length c.list ≡ c.capacity = ground (arith, s.bounded) in
        rw over (
          record {
            places = λ j. ground (arith, s.places j, place-pop_back j n c.list distinct);
            distinct = pop_back-IsDistinct n c.list distinct;
            below = pop_back-Below (c.next_id + 1) n c.list below;
            bounded = rw (length-pop_back n c.list) s.bounded;
          },
          view-pop_back n c.list ∙ ap (λ t. take t (view (n ∷ c.list))) full,
        )
    | inr fits ↦ rw fits (
      record {
        places = λ j. ground (arith, s.places j);
        distinct = distinct;
        below = below;
        bounded = ground arith;
      },
      sym (take-view c.capacity (n ∷ c.list) (ground arith)),
    )
  ]
    where
      below : Below (c.next_id + 1) (n ∷ c.list)
      below = (omega arith, Below-next c.next_id c.list s.below)

      distinct : IsDistinct (n ∷ c.list)
      distinct = (new-Apart n c.list e (rw q s.below), s.distinct)

  put-lem :
      (c : LruCache W) (k : ℕ) (v : W)
      → IsSound c
      → IsSound (put c k v)
        × (contents (put c k v) ≡ take c.capacity ((k, v) ∷ without_key k (contents c)))
  unfolding put
  put-lem c k v s = elim (Option-cases (place_of k c.list)) [
    | inl e ↦
        let (_, same) = missing-value k c.list e in
        rw (s.places k, e, same)
          (evict-lem c (record { id = c.next_id; key = k; val = v }) s e refl)
    | inr (i, e) ↦
        let (m, at, key, id, val) = place-node k i c.list s.distinct e in
        let there = e ∙ ap some (sym id) in
        let new = record m { val = v } in
        let now = front-IsSound c k new s there key in
        rw (s.places k, e, at)
          (
            now,
            sym (take-view c.capacity (new ∷ unlink_node m.id c.list) now.bounded)
                ∙ ap (take c.capacity) (front-contents c k new s there key),
          )
  ]

  get_at-capacity : (c : LruCache W) (k : ℕ) (p : Option ℕ) → (get_at c k p).1.capacity ≡ c.capacity
  get_at-capacity c k none = refl
  get_at-capacity c k (some i) = found (node_at i c.list)
    where
      found : (o : Option (Node W)) → (get_node c k o).1.capacity ≡ c.capacity
      found none = refl
      found (some n) = refl

  put_at-capacity :
      (c : LruCache W) (k : ℕ) (v : W) (p : Option ℕ) → (put_at c k v p).capacity ≡ c.capacity
  put_at-capacity c k v none = elim (Bool-cases (ltb c.capacity (suc (length c.list)))) [
    | inl e ↦ rw e refl
    | inr e ↦ rw e refl
  ]
  put_at-capacity c k v (some i) = found (node_at i c.list)
    where
      found : (o : Option (Node W)) → (put_node c k v o).capacity ≡ c.capacity
      found none = refl
      found (some n) = refl

pub data Op {ℓ} (W : Type ℓ) : Type ℓ where
  gets : ℕ → Op W
  puts : ℕ → W → Op W

module _ {ℓ} {W : Type ℓ} where
  abbrev pub step : LruCache W → Op W → LruCache W
  step c (gets k) = (get c k).1
  step c (puts k v) = put c k v

  unfoldable pub run : LruCache W → List (Op W) → LruCache W
  run c [] = c
  run c (o ∷ os) = run (step c o) os

  -- The same operations on a list of keys and values, the last used first: a put is cut to the capacity.
  abbrev pub recent : ℕ → List (ℕ × W) → Op W → List (ℕ × W)
  recent cap l (gets k) = used k (value_of k l) l
  recent cap l (puts k v) = take cap ((k, v) ∷ without_key k l)

  unfoldable pub recent_after : ℕ → List (ℕ × W) → List (Op W) → List (ℕ × W)
  recent_after cap l [] = l
  recent_after cap l (o ∷ os) = recent_after cap (recent cap l o) os

  step-recent :
      (c : LruCache W) (o : Op W)
      → IsSound c
      → IsSound (step c o)
        × (contents (step c o) ≡ recent c.capacity (contents c) o)
        × ((step c o).capacity ≡ c.capacity)
  unfolding get put
  step-recent c (gets k) s =
      let (t, _, e) = get-lem c k s in (t, e, get_at-capacity c k (c.table k))
  step-recent c (puts k v) s =
      let (t, e) = put-lem c k v s in (t, e, put_at-capacity c k v (c.table k))

  run-recent :
      (c : LruCache W) (os : List (Op W))
      → IsSound c
      → IsSound (run c os)
        × (contents (run c os) ≡ recent_after c.capacity (contents c) os)
        × ((run c os).capacity ≡ c.capacity)
  unfolding run recent_after
  run-recent c [] s = (s, refl, refl)
  run-recent c (o ∷ os) s =
      let (t, e, cap) = step-recent c o s in
      let (u, later, cap2) = run-recent (step c o) os t in
      (
        u,
        later
            ∙ (ap (λ n. recent_after n (contents (step c o)) os) cap
                ∙ ap (λ l. recent_after c.capacity l os) e),
        cap2 ∙ cap,
      )

-- After any gets and puts on a new cache, its list is what the same operations make of a list of keys
-- and values with the last used first, of which a put keeps as many as the capacity; a get answers by
-- this list, and never goes by a place that no node has; and no more nodes are there than the capacity.
pub lru_refines {ℓ} :
    {W : Type ℓ} (cap : ℕ) (os : List (Op W)) (k : ℕ)
    → (contents (run (lru_cache cap) os) ≡ recent_after cap [] os)
      × ((get (run (lru_cache cap) os) k).0 ≡ answer_of (value_of k (recent_after cap [] os)))
      × (length (run (lru_cache cap) os).list ≤ cap)
lru_refines cap os k =
    let (s, e, same) =
      run-recent (lru_cache cap) os
        (record { places = λ j. refl; distinct = tt; below = tt; bounded = omega arith }) in
    let (_, answer, _) = get-lem (run (lru_cache cap) os) k s in
    (e, answer ∙ ap (λ l. answer_of (value_of k l)) e, omega (arith, s.bounded, same))
