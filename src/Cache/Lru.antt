-- ===== src/Cache/Lru.antt =====
-- cache/lru.rs: `LruCache`, a map beside a queue of its keys, least recently used first.
pub mod Spec
pub mod Refines
pub mod History
mod Tests
use modo.Base.{
  ℕ, Bool, true, false, List, [], ◌∷◌, ◌++◌, Eq, ◌==◌, Option, none, some, if◌then◌else◌, leb,
}
use modo.Base.Lists.{length}
use modo.Base.Dict.{lookup, contains_key, insert, remove}

-- `capacity` is a `NonZeroUsize`: at least 1.
pub record LruCache (K V : Type 0) : Type 0 where
  pub map : List (K × V)
  pub order : List K
  pub capacity : ℕ

abbrev pub new : {K V : Type 0} → ℕ → LruCache K V
new capacity = record { map = []; order = []; capacity = capacity }

-- `order.iter().position(|k| k == key)` and `order.remove(pos)`
unfoldable pub forget : {K : Type 0} ⦃e : Eq K⦄ → K → List K → List K
forget k [] = []
forget k (j ∷ order) = if j == k then order else j ∷ forget k order

module _ {K V : Type 0} ⦃e : Eq K⦄ where
  unfoldable pub get : K → LruCache K V → Option V × LruCache K V
  unfolding forget
  get key c =
      if contains_key key c.map
      then (lookup key c.map, record c { order = forget key c.order ++ key ∷ [] })
      else (none, c)

  -- `order.pop_front()` and `map.remove(&evicted)`
  abbrev pub evict : List K → LruCache K V → LruCache K V
  evict [] c = c
  evict (evicted ∷ order) c = record c { map = remove evicted c.map; order = order }

  abbrev pub make_room : K → LruCache K V → LruCache K V
  make_room key c =
      if contains_key key c.map
      then record c { order = forget key c.order }
      else if leb c.capacity (length c.map)
      then evict c.order c
      else c

  unfoldable pub put : K → V → LruCache K V → LruCache K V
  unfolding forget
  put key value c =
      let c' = make_room key c in
      record c' { map = insert key value c'.map; order = c'.order ++ key ∷ [] }
