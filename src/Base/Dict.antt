-- ===== src/Base/Dict.antt =====
-- Dictionaries with distinct keys, as association lists: the `HashMap` of the source, whose order of
-- iteration nothing here observes.
use modo.Base.{
  suc, ◌≡◌, refl, Bool, true, false, List, [], ◌∷◌, ◌++◌, arith, if◌then◌else◌, Eq, ◌==◌, Option,
  none, some,
}
use modo.Base.Lists.{length}

abbrev pub is_some {ℓ} : {A : Type ℓ} → Option A → Bool
is_some none = false
is_some (some _) = true

module _ {K V : Type 0} ⦃e : Eq K⦄ where
  unfoldable pub lookup : K → List (K × V) → Option V
  lookup key [] = none
  lookup key ((other, value) ∷ entries) = if other == key then some value else lookup key entries

  abbrev pub contains_key : K → List (K × V) → Bool
  contains_key k m = is_some (lookup k m)

  unfoldable pub insert : K → V → List (K × V) → List (K × V)
  insert key value [] = (key, value) ∷ []
  insert key value ((other, old) ∷ entries) =
      if other == key then (key, value) ∷ entries else (other, old) ∷ insert key value entries

  unfoldable pub remove : K → List (K × V) → List (K × V)
  remove k [] = []
  remove k ((j, w) ∷ m) = if j == k then m else (j, w) ∷ remove k m

  -- No key occurs twice.
  abbrev pub IsDict : List (K × V) → Type 0
  IsDict [] = Unit
  IsDict ((k, v) ∷ m) = (lookup k m ≡ none) × IsDict m

  pub lookup-insert :
      (key wanted : K) (value : V) (entries : List (K × V))
      → lookup wanted (insert key value entries)
        ≡ (if key == wanted then some value else lookup wanted entries)
  unfolding lookup insert
  lookup-insert key wanted value [] = refl
  lookup-insert key wanted value ((other, old) ∷ entries) = ground (
    arith,
    e.equals_iff key wanted,
    e.equals_iff other key,
    e.equals_iff other wanted,
    lookup-insert key wanted value entries,
  )

  pub lookup-remove :
      (k j : K) (m : List (K × V))
      → IsDict m
      → lookup j (remove k m) ≡ (if k == j then none else lookup j m)
  unfolding lookup remove
  lookup-remove k j [] h = ground arith
  lookup-remove k j ((i, w) ∷ m) h =
      ground (arith, e.equals_iff k j, e.equals_iff i k, e.equals_iff i j, lookup-remove k j m)

  pub length-insert :
      (k : K) (v : V) (m : List (K × V))
      → length (insert k v m) ≡ (if contains_key k m then length m else suc (length m))
  unfolding lookup insert
  length-insert k v [] = refl
  length-insert k v ((i, w) ∷ m) = ground (arith, length-insert k v m)

  pub length-remove :
      (k : K) (m : List (K × V)) → contains_key k m ≡ true → suc (length (remove k m)) ≡ length m
  unfolding lookup remove
  length-remove k [] h = cc
  length-remove k ((i, w) ∷ m) h = ground (arith, length-remove k m)

  pub IsDict-insert : (k : K) (v : V) (m : List (K × V)) → IsDict m → IsDict (insert k v m)
  unfolding lookup insert
  IsDict-insert k v [] h = (refl, tt)
  IsDict-insert k v ((i, w) ∷ m) h =
      ground (arith, e.equals_iff i k, e.equals_iff k i, IsDict-insert k v m, lookup-insert k i v m)

  pub IsDict-remove : (k : K) (m : List (K × V)) → IsDict m → IsDict (remove k m)
  unfolding lookup remove
  IsDict-remove k [] h = tt
  IsDict-remove k ((i, w) ∷ m) h =
      ground (arith, e.equals_iff i k, e.equals_iff k i, IsDict-remove k m, lookup-remove k i m)

  pub lookup-append :
      (m : List (K × V)) (k j : K) (v : V)
      → lookup j (m ++ (k, v) ∷ [])
        ≡ (if is_some (lookup j m) then lookup j m else if k == j then some v else none)
  unfolding lookup
  lookup-append [] k j v = refl
  lookup-append ((i, w) ∷ m) k j v = ground (arith, lookup-append m k j v)

  -- A key that is not there may be put behind the others.
  pub IsDict-append :
      (m : List (K × V)) (k : K) (v : V) → lookup k m ≡ none → IsDict m → IsDict (m ++ (k, v) ∷ [])
  unfolding lookup
  IsDict-append [] k v n h = (refl, tt)
  IsDict-append ((i, w) ∷ m) k v n (p, h) =
      ground (arith, e.equals_iff i k, e.equals_iff k i, IsDict-append m k v, lookup-append m k i v)
