-- ===== src/Base/Dict.antt =====
-- A Go `map[string]V` as an association list. Iteration runs in the order of the list; Go leaves
-- that order open, so a theorem that ranges over every list speaks of every order.
use Prim.Native.Nat.{◌+◌, ◌≤◌}
use Prim.Native.String.{String}
use mathlib.Core.Path.{◌≡◌, refl}
use mathlib.Core.Bool.{Bool}
use mathlib.Core.Option.{Option, none, some}
use mathlib.Core.List.{List, [], ◌∷◌}
use native.Mathlib.Omega.{arith}
use text.Mathlib.TextEquality.{eq_iff}
use poly_asian_data.Base.Tests.{if◌then◌else◌, str_eq, is_some}
use poly_asian_data.Base.Lists.{length, All}

abbrev pub Dict : Type 0 → Type 0
Dict V = List (String × V)

module _ {V : Type 0} where
  abbrev pub lookup : String → Dict V → Option V
  lookup k [] = none
  lookup k ((j, v) ∷ m) = let rest = lookup k m in if str_eq j k then some v else rest

  -- `m[k] = v`
  abbrev pub insert : String → V → Dict V → Dict V
  insert k v [] = (k, v) ∷ []
  insert k v ((j, w) ∷ m) =
      let rest = insert k v m in if str_eq j k then (k, v) ∷ m else (j, w) ∷ rest

  -- `delete(m, k)`
  abbrev pub delete : String → Dict V → Dict V
  delete k [] = []
  delete k ((j, w) ∷ m) = let rest = delete k m in if str_eq j k then rest else (j, w) ∷ rest

  abbrev pub has : String → Dict V → Bool
  has k m = is_some (lookup k m)

  pub lookup-insert :
      (k j : String) (v : V) (m : Dict V)
      → lookup j (insert k v m) ≡ (if str_eq k j then some v else lookup j m)
  lookup-insert k j v [] = refl
  lookup-insert k j v ((i, w) ∷ m) =
      ground (arith, eq_iff k j, eq_iff i k, eq_iff i j, lookup-insert k j v m)

  pub lookup-delete :
      (k j : String) (m : Dict V)
      → lookup j (delete k m) ≡ (if str_eq k j then none else lookup j m)
  lookup-delete k j [] = ground arith
  lookup-delete k j ((i, w) ∷ m) =
      ground (arith, eq_iff k j, eq_iff i k, eq_iff i j, lookup-delete k j m)

  pub lookup-insert_self : (k : String) (v : V) (m : Dict V) → lookup k (insert k v m) ≡ some v
  lookup-insert_self k v m = ground (arith, lookup-insert k k v m, eq_iff k k)

  -- A write to a key that is there keeps the number of entries; any other adds one.
  pub length-insert :
      (k : String) (v : V) (m : Dict V)
      → length (insert k v m) ≡ (if has k m then length m else length m + 1)
  length-insert k v [] = refl
  length-insert k v ((i, w) ∷ m) = ground (arith, length-insert k v m)

  pub length-delete-le : (k : String) (m : Dict V) → length (delete k m) ≤ length m
  length-delete-le k [] = omega arith
  length-delete-le k ((i, w) ∷ m) = ground (arith, length-delete-le k m)

  -- What holds of every entry is kept by a write that satisfies it.
  pub All-insert :
      (P : String × V → Type 0) (k : String) (v : V) (m : Dict V)
      → P (k, v)
      → All P m
      → All P (insert k v m)
  All-insert P k v [] h a = (h, tt)
  All-insert P k v ((i, w) ∷ m) h a = ground (arith, All-insert P k v m h a.1)

  pub All-delete :
      (P : String × V → Type 0) (k : String) (m : Dict V) → All P m → All P (delete k m)
  All-delete P k [] a = a
  All-delete P k ((i, w) ∷ m) a = ground (arith, All-delete P k m a.1)

  -- No key stands twice.
  abbrev pub IsKeyed : Dict V → Type 0
  IsKeyed [] = Unit
  IsKeyed ((k, v) ∷ m) = (lookup k m ≡ none) × IsKeyed m

  pub insert-IsKeyed : (k : String) (v : V) (m : Dict V) → IsKeyed m → IsKeyed (insert k v m)
  insert-IsKeyed k v [] h = (refl, tt)
  insert-IsKeyed k v ((i, w) ∷ m) h =
      ground (arith, insert-IsKeyed k v m h.1, lookup-insert k i v m, eq_iff i k, eq_iff k i)

  pub delete-IsKeyed : (k : String) (m : Dict V) → IsKeyed m → IsKeyed (delete k m)
  delete-IsKeyed k [] h = h
  delete-IsKeyed k ((i, w) ∷ m) h =
      ground (arith, delete-IsKeyed k m h.1, lookup-delete k i m, eq_iff i k, eq_iff k i)
