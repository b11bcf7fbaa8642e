-- ===== src/Cache/Lru/Tests.antt =====
-- Runs of the cache, and its theorems at concrete inputs.
use modo.Base.{ℕ, ◌≡◌, ◌≤◌, refl, List, [], ◌∷◌, none, some, arith, nat_eq}
use modo.Base.Lists.{length}
use modo.Base.Dict.{lookup, insert, remove, IsDict}
use modo.Cache.Lru.{LruCache, new, get, put}
use modo.Cache.Lru.History.{Op, read, write, run, run_spec, run-refines}

abbrev ops : List (Op ℕ ℕ)
ops = write 1 10 ∷ write 2 20 ∷ read 1 ∷ write 3 30 ∷ read 2 ∷ read 1 ∷ read 3 ∷ []

-- Key 2 is the least recently used one when key 3 comes.
run-ops : (run ops (new 2)).0 ≡ some 10 ∷ none ∷ some 10 ∷ some 30 ∷ []
unfolding run get put lookup insert remove
run-ops = refl

run-refines_example :
    ((run ops (new 2)).0 ≡ (run_spec 2 ops []).0) × (length (run ops (new 2)).1.map ≤ 2)
run-refines_example = run-refines ops 2 (omega arith)

abbrev full : LruCache ℕ ℕ
full = record { map = (1, 10) ∷ (2, 20) ∷ []; order = 1 ∷ 2 ∷ []; capacity = 2 }

full-IsDict : IsDict full.map
unfolding lookup
full-IsDict = (refl, (refl, tt))
