-- ===== src/Alloc/Dedupe.antt =====
-- `dedupeBest`: one name of each key is left, and no key is lost.
use poly_asian_data.Base.{◌≡◌, String, List, In}
use poly_asian_data.Float.Defs.{Float64}
use poly_asian_data.Best.OneEach.{IsSingle, keep_best-one_each}
use poly_asian_data.Risk.{Config}
use poly_asian_data.Alloc.{Name, beats, dedupe_best}

module _ {F : Type 0} ⦃fl : Float64 F⦄ where
  -- dedupeBest leaves exactly one name of each key: no two names of its result have one key, and
  -- every name of the batch shares its key with a name of the result.
  pub dedupe_best-one_each :
      (cfg : Config F) (key : Name F → String) (batch : List (Name F))
      → IsSingle key (dedupe_best cfg key batch)
        × ((n : Name F)
            → In n batch
            → (m : Name F) × In m (dedupe_best cfg key batch) × (key m ≡ key n))
  unfolding dedupe_best
  dedupe_best-one_each cfg key batch = keep_best-one_each (beats cfg) key batch
