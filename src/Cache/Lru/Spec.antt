-- ===== src/Cache/Lru/Spec.antt =====
-- What the cache promises: one list of entries, the least recently used first. A read moves its entry
-- to the end; a write does so too, and drops the first entry if the list is full.
use mathlib.Core.List.{tail}
use modo.Base.{ℕ, ◌≡◌, ◌≤◌, List, [], ◌∷◌, ◌++◌, map, Eq, Option, none, some, if◌then◌else◌, leb}
use modo.Base.Lists.{length}
use modo.Base.Dict.{lookup, contains_key, remove, IsDict}
use modo.Cache.Lru.{LruCache}

module _ {K V : Type 0} ⦃e : Eq K⦄ where
  abbrev pub make_room : ℕ → K → List (K × V) → List (K × V)
  make_room capacity key l =
      if contains_key key l then remove key l else if leb capacity (length l) then tail l else l

  abbrev pub put : ℕ → K → V → List (K × V) → List (K × V)
  put capacity key value l = make_room capacity key l ++ (key, value) ∷ []

  abbrev pub bring_last : K → Option V → List (K × V) → List (K × V)
  bring_last key none l = l
  bring_last key (some value) l = remove key l ++ (key, value) ∷ []

  abbrev pub get : K → List (K × V) → Option V × List (K × V)
  get key l = (lookup key l, bring_last key (lookup key l) l)

  -- A cache and the list of entries that it stands for.
  pub record Views (c : LruCache K V) (l : List (K × V)) : Type 0 where
    pub is_map : IsDict c.map
    pub is_list : IsDict l
    pub order_is : map (λ p. p.0) l ≡ c.order
    pub same : (j : K) → lookup j l ≡ lookup j c.map
    pub length_is : length c.map ≡ length l
    pub bounded : length l ≤ c.capacity
