-- ===== src/Cache/Lru/History.antt =====
-- Sequences of reads and writes from an empty cache, and what one write leaves in the map.
use modo.Base.{
  ℕ, ◌≡◌, ◌≤◌, ◌<◌, refl, ap₂, ◌∙◌, subst, Bool, false, not, ◌&&◌, List, [], ◌∷◌, arith, Eq, ◌==◌,
  Option, none, some, if◌then◌else◌, leb,
}
use modo.Base.Lists.{length}
use modo.Base.Dict.{lookup, contains_key, lookup-insert, lookup-remove, IsDict}
use modo.Cache.Lru.{LruCache, new, get, put, forget, evict}
use modo.Cache.Lru
use modo.Cache.Lru.Spec
use modo.Cache.Lru.Spec.{Views}
use modo.Cache.Lru.Refines.{put-refines, get-refines}

pub data Op (K V : Type 0) : Type 0 where
  read : K → Op K V
  write : K → V → Op K V

-- The key at the front of the queue.
abbrev pub is_first : {K : Type 0} ⦃e : Eq K⦄ → K → List K → Bool
is_first key [] = false
is_first key (k ∷ order) = k == key

module _ {K V : Type 0} ⦃e : Eq K⦄ where
  -- The results of the reads, and the cache at the end.
  unfoldable pub run : List (Op K V) → LruCache K V → List (Option V) × LruCache K V
  run [] c = ([], c)
  run (read key ∷ ops) c =
      let (value, c') = get key c in let (values, last) = run ops c' in (value ∷ values, last)
  run (write key value ∷ ops) c = run ops (put key value c)

  -- The same on the list of entries.
  unfoldable pub run_spec : ℕ → List (Op K V) → List (K × V) → List (Option V) × List (K × V)
  run_spec capacity [] l = ([], l)
  run_spec capacity (read key ∷ ops) l =
      let (value, l') = Spec.get key l in
      let (values, last) = run_spec capacity ops l' in (value ∷ values, last)
  run_spec capacity (write key value ∷ ops) l =
      run_spec capacity ops (Spec.put capacity key value l)

  new-Views : (capacity : ℕ) → Views {K = K} {V = V} (new capacity) []
  unfolding lookup
  new-Views capacity = record {
    is_map = tt;
    is_list = tt;
    order_is = refl;
    same = λ j. refl;
    length_is = refl;
    bounded = omega arith;
  }

  evict-capacity : (order : List K) (c : LruCache K V) → (evict order c).capacity ≡ c.capacity
  evict-capacity [] c = refl
  evict-capacity (k ∷ order) c = refl

  put-capacity : (key : K) (value : V) (c : LruCache K V) → (put key value c).capacity ≡ c.capacity
  unfolding put
  put-capacity key value c = ground (arith, evict-capacity c.order c)

  get-capacity : (key : K) (c : LruCache K V) → (get key c).1.capacity ≡ c.capacity
  unfolding get
  get-capacity key c = ground arith

  run-Views :
      (ops : List (Op K V)) (capacity : ℕ) (c : LruCache K V) (l : List (K × V))
      → 0 < capacity
      → c.capacity ≡ capacity
      → Views c l
      → ((run ops c).0 ≡ (run_spec capacity ops l).0)
        × Views (run ops c).1 (run_spec capacity ops l).1
        × ((run ops c).1.capacity ≡ capacity)
  unfolding run run_spec
  run-Views [] capacity c l pos same v = (refl, v, same)
  run-Views (read key ∷ ops) capacity c l pos same v =
      let (value, v') = get-refines key c l v in
      let (values, rest, kept) =
        run-Views ops capacity (get key c).1 (Spec.get key l).1 pos (get-capacity key c ∙ same)
          v' in
      (ap₂ ◌∷◌ value values, rest, kept)
  run-Views (write key value ∷ ops) capacity c l pos same v =
      run-Views ops capacity (put key value c) (Spec.put capacity key value l) pos
        (put-capacity key value c ∙ same)
        (subst (λ n. Views (put key value c) (Spec.put n key value l)) same
          (put-refines key value c l (omega arith) v))

  -- From an empty cache of a positive capacity, every sequence of reads and writes returns what the
  -- list of entries returns, and never holds more entries than the capacity.
  pub run-refines :
      (ops : List (Op K V)) (capacity : ℕ)
      → 0 < capacity
      → ((run ops (new capacity)).0 ≡ (run_spec capacity ops []).0)
        × (length (run ops (new capacity)).1.map ≤ capacity)
  run-refines ops capacity pos =
      let (values, v, kept) =
        run-Views ops capacity (new capacity) [] pos refl (new-Views capacity) in
      (values, omega (arith, v.length_is, v.bounded, kept))

  evict-lookup :
      (j : K) (order : List K) (c : LruCache K V)
      → IsDict c.map
      → lookup j (evict order c).map ≡ (if is_first j order then none else lookup j c.map)
  evict-lookup j [] c d = refl
  evict-lookup j (k ∷ order) c d = lookup-remove k j c.map d

  -- After a write the key has the new value; every other key has the value it had, but for the least
  -- recently used one when the key is new and the cache is full, which is gone.
  pub put-lookup :
      (key : K) (value : V) (c : LruCache K V) (j : K)
      → IsDict c.map
      → lookup j (put key value c).map ≡ (
          if key == j
          then some value
          else if (not (contains_key key c.map) && leb c.capacity (length c.map))
              && is_first j c.order
          then none
          else lookup j c.map)
  unfolding put
  put-lookup key value c j d =
      ground
        (arith, lookup-insert key j value (Lru.make_room key c).map, evict-lookup j c.order c d)
