-- ===== src/Cache/Lru/Refines.antt =====
-- The map with the queue, related to the one list of entries.
use mathlib.Core.List.{tail, map-append}
use modo.Base.{
  suc, ◌≡◌, ◌<◌, inl, inr, refl, ap, ◌∙◌, true, false, List, [], ◌∷◌, ◌++◌, map, arith, Eq, ◌==◌,
  none, if◌then◌else◌, leb, Bool-cases, Option-cases, ==_refl,
}
use modo.Base.Lists.{length, length-append}
use modo.Base.Dict.{
  lookup, contains_key, remove, IsDict, lookup-insert, lookup-remove, lookup-append, length-insert,
  length-remove, IsDict-insert, IsDict-remove, IsDict-append,
}
use modo.Cache.Lru.{LruCache, new, forget, get, evict, put}
use modo.Cache.Lru
use modo.Cache.Lru.Spec
use modo.Cache.Lru.Spec.{Views}

module _ {K V : Type 0} ⦃e : Eq K⦄ where
  keys-remove :
      (k : K) (l : List (K × V)) → map (λ p. p.0) (remove k l) ≡ forget k (map (λ p. p.0) l)
  unfolding forget remove
  keys-remove k [] = refl
  keys-remove k ((j, v) ∷ l) = ground (arith, keys-remove k l)

  -- What `make_room` leaves: the key is gone from the list, and there is room for one more.
  record Ready (key : K) (c : LruCache K V) (l : List (K × V)) : Type 0 where
    is_map : IsDict c.map
    is_list : IsDict l
    order_is : map (λ p. p.0) l ≡ c.order
    same : (j : K) → lookup j l ≡ (if key == j then none else lookup j c.map)
    length_is :
        (if contains_key key c.map then length c.map else suc (length c.map)) ≡ suc (length l)
    room : length l < c.capacity

  module _ (key : K) (c : LruCache K V) (l : List (K × V)) where
    Ready-present :
        Views c l
        → contains_key key c.map ≡ true
        → Ready key (record c { order = forget key c.order }) (remove key l)
    Ready-present v p = record {
      is_map = v.is_map;
      is_list = IsDict-remove key l v.is_list;
      order_is = keys-remove key l ∙ ap (forget key) v.order_is;
      same = λ j. lookup-remove key j l v.is_list ∙ rw (v.same j);
      length_is = ground (arith, length-remove key l, v.same key);
      room = ground (arith, length-remove key l, v.same key, v.bounded);
    }

    Ready-room : Views c l → contains_key key c.map ≡ false → length l < c.capacity → Ready key c l
    Ready-room v p r = record {
      is_map = v.is_map;
      is_list = v.is_list;
      order_is = v.order_is;
      same = λ j. ground (arith, e.equals_iff key j, v.same j);
      length_is = ground (arith, v.length_is);
      room = r;
    }

  Ready-full :
      (key : K) (c : LruCache K V) (l : List (K × V))
      → Views c l
      → contains_key key c.map ≡ false
      → 0 < length l
      → Ready key (Lru.evict c.order c) (tail l)
  unfolding lookup
  Ready-full key c [] v p r = absurd (omega arith)
  Ready-full key c ((k, x) ∷ l) v p r = rw (← v.order_is) (record {
    is_map = IsDict-remove k c.map v.is_map;
    is_list = v.is_list.1;
    order_is = refl;
    same = λ j. ground (
      arith,
      v.same j,
      v.same key,
      v.is_list.0,
      lookup-remove k j c.map v.is_map,
      e.equals_iff key j,
      e.equals_iff k j,
    );
    length_is = ground (
      arith,
      v.same k,
      v.same key,
      ==_refl k,
      lookup-remove k key c.map v.is_map,
      length-remove k c.map,
      v.length_is,
    );
    room = omega (arith, v.bounded);
  })

  ready :
      (key : K) (c : LruCache K V) (l : List (K × V))
      → 0 < c.capacity
      → Views c l
      → Ready key (Lru.make_room key c) (Spec.make_room c.capacity key l)
  ready key c l pos v = elim (Bool-cases (contains_key key c.map)) [
    | inl present ↦ rw (present, v.same key, present) (Ready-present key c l v present)
    | inr absent ↦ elim (Bool-cases (leb c.capacity (length l))) [
      | inl full ↦
          rw (absent, v.same key, absent, v.length_is, full)
            (Ready-full key c l v absent (ground (arith, v.length_is)))
      | inr free ↦
          rw (absent, v.same key, absent, v.length_is, free)
            (Ready-room key c l v absent (ground arith))
    ]
  ]

  -- A write does to the map and the queue what it does to the list of entries.
  pub put-refines :
      (key : K) (value : V) (c : LruCache K V) (l : List (K × V))
      → 0 < c.capacity
      → Views c l
      → Views (put key value c) (Spec.put c.capacity key value l)
  unfolding put
  put-refines key value c l pos v =
      let c' : LruCache K V = Lru.make_room key c in
      let l' : List (K × V) = Spec.make_room c.capacity key l in
      let r : Ready key c' l' = ready key c l pos v in
      record {
        is_map = IsDict-insert key value c'.map r.is_map;
        is_list = IsDict-append l' key value (r.same key ∙ rw (==_refl key)) r.is_list;
        order_is =
            map-append (λ p. p.0) l' ((key, value) ∷ []) ∙ ap (λ x. x ++ key ∷ []) r.order_is;
        same = λ j.
            ground
              (arith, lookup-append l' key j value, lookup-insert key j value c'.map, r.same j);
        length_is =
            length-insert key value c'.map
            ∙ r.length_is
            ∙ omega (arith, length-append l' ((key, value) ∷ []));
        bounded = omega (arith, length-append l' ((key, value) ∷ []), r.room);
      }

  -- A read returns what the list of entries holds, and moves the entry to its end.
  pub get-refines :
      (key : K) (c : LruCache K V) (l : List (K × V))
      → Views c l
      → ((get key c).0 ≡ (Spec.get key l).0) × Views (get key c).1 (Spec.get key l).1
  unfolding get
  get-refines key c l v = elim (Option-cases (lookup key l)) [
    | inl absent ↦ rw (← v.same key, absent) (refl, v)
    | inr (value, present) ↦
        rw (← v.same key, present)
          (
            refl,
            record {
              is_map = v.is_map;
              is_list =
                  IsDict-append (remove key l) key value
                    (lookup-remove key key l v.is_list ∙ rw (==_refl key))
                    (IsDict-remove key l v.is_list);
              order_is =
                  map-append (λ p. p.0) (remove key l) ((key, value) ∷ [])
                  ∙ ap (λ x. x ++ key ∷ []) (keys-remove key l ∙ ap (forget key) v.order_is);
              same = λ j. ground (
                arith,
                lookup-append (remove key l) key j value,
                lookup-remove key j l v.is_list,
                v.same j,
                v.same key,
                e.equals_iff key j,
              );
              length_is = ground (
                arith,
                v.length_is,
                length-remove key l,
                length-append (remove key l) ((key, value) ∷ []),
              );
              bounded = ground (
                arith,
                v.bounded,
                length-remove key l,
                length-append (remove key l) ((key, value) ∷ []),
              );
            },
          )
  ]
