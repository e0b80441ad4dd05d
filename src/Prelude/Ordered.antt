-- ===== src/Prelude/Ordered.antt =====
-- `std::map<std::string, V>`: an association list with one entry for each key. `set` writes
-- `m[k] = v`: it overwrites the entry of `k`, or inserts one in the order of the keys.
use Prim.Native.Nat.{ℕ, ◌+◌, ◌≤◌}
use mathlib.Core.Path.{◌≡◌, refl}
use mathlib.Core.Bool.{Bool, true, false, not, ◌&&◌}
use mathlib.Core.Logic.{◌⊎◌, inl}
use mathlib.Core.Option.{Option, none, some}
use mathlib.Core.List.{List, [], ◌∷◌}
use native.Mathlib.Omega.{arith}
use launch_cpp.Prelude.Tests.{if◌then◌else◌, is_some}
use launch_cpp.Prelude.Text.{Str, str_eq, str_lt, str_eq_iff, count}

abbrev pub Map {ℓ} : Type ℓ → Type ℓ
Map V = List (Str × V)

module _ {ℓ} {V : Type ℓ} where
  unfoldable pub find : Str → Map V → Option V
  find k [] = none
  find k ((j, v) ∷ m) = if str_eq j k then some v else find k m

  abbrev pub has : Str → Map V → Bool
  has k m = is_some (find k m)

  assign : Str → V → Map V → Map V
  assign k v [] = []
  assign k v ((j, w) ∷ m) = if str_eq j k then (j, v) ∷ m else (j, w) ∷ assign k v m

  insert : Str → V → Map V → Map V
  insert k v [] = (k, v) ∷ []
  insert k v ((j, w) ∷ m) = if str_lt k j then (k, v) ∷ (j, w) ∷ m else (j, w) ∷ insert k v m

  unfoldable pub set : Str → V → Map V → Map V
  unfolding assign insert find
  set k v m = if has k m then assign k v m else insert k v m

  unfoldable pub erase : Str → Map V → Map V
  erase k [] = []
  erase k ((j, w) ∷ m) = if str_eq j k then m else (j, w) ∷ erase k m

  abbrev pub keys : Map V → List Str
  keys [] = []
  keys ((k, v) ∷ m) = k ∷ keys m

  find-assign :
      (k j : Str) (v : V) (m : Map V)
      → find j (assign k v m) ≡ (if has k m && str_eq k j then some v else find j m)
  unfolding find assign
  find-assign k j v [] = refl
  find-assign k j v ((i, w) ∷ m) =
      ground (arith, str_eq_iff k j, str_eq_iff i k, str_eq_iff i j, find-assign k j v m)

  find-insert :
      (k j : Str) (v : V) (m : Map V)
      → find k m ≡ none
      → find j (insert k v m) ≡ (if str_eq k j then some v else find j m)
  unfolding find insert
  find-insert k j v [] h = refl
  find-insert k j v ((i, w) ∷ m) h =
      ground (arith, str_eq_iff k j, str_eq_iff i k, str_eq_iff i j, find-insert k j v m)

  -- A write is read back at its key, and changes no other key.
  pub find-set :
      (k j : Str) (v : V) (m : Map V)
      → find j (set k v m) ≡ (if str_eq k j then some v else find j m)
  unfolding set
  find-set k j v m = ground (arith, find-assign k j v m, find-insert k j v m)

  count-keys-assign :
      (k n : Str) (v : V) (m : Map V) → count n (keys (assign k v m)) ≡ count n (keys m)
  unfolding assign count
  count-keys-assign k n v [] = refl
  count-keys-assign k n v ((i, w) ∷ m) = ground (arith, count-keys-assign k n v m)

  count-keys-insert :
      (k n : Str) (v : V) (m : Map V)
      → count n (keys (insert k v m)) ≡ (if str_eq k n then 1 else 0) + count n (keys m)
  unfolding insert count
  count-keys-insert k n v [] = refl
  count-keys-insert k n v ((i, w) ∷ m) = ground (arith, count-keys-insert k n v m)

  pub count-keys :
      (n : Str) (m : Map V)
      → (count n (keys m) ≡ 0) × (has n m ≡ false) ⊎ (1 ≤ count n (keys m)) × (has n m ≡ true)
  unfolding find count
  count-keys n [] = inl (refl, refl)
  count-keys n ((i, w) ∷ m) = ground (arith, count-keys n m)

  -- Only a key that was not there gets an entry.
  pub count-keys-set :
      (k n : Str) (v : V) (m : Map V)
      → count n (keys (set k v m))
        ≡ (if str_eq k n && not (has k m) then 1 else 0) + count n (keys m)
  unfolding set
  count-keys-set k n v m = ground (arith, count-keys-assign k n v m, count-keys-insert k n v m)

  -- The sum of a weight over the values.
  unfoldable pub total : (V → ℕ) → Map V → ℕ
  total f [] = 0
  total f ((k, v) ∷ m) = f v + total f m

  abbrev pub weight_at : (V → ℕ) → Option V → ℕ
  weight_at f none = 0
  weight_at f (some v) = f v

  total-assign :
      (f : V → ℕ) (k : Str) (v : V) (m : Map V)
      → has k m ≡ true
      → total f (assign k v m) + weight_at f (find k m) ≡ total f m + f v
  unfolding total assign find
  total-assign f k v [] h = cc
  total-assign f k v ((j, w) ∷ m) h = ground (arith, total-assign f k v m)

  total-insert :
      (f : V → ℕ) (k : Str) (v : V) (m : Map V) → total f (insert k v m) ≡ total f m + f v
  unfolding total insert
  total-insert f k v [] = omega arith
  total-insert f k v ((j, w) ∷ m) = ground (arith, total-insert f k v m)

  -- A write trades the weight of the old value for that of the new one.
  pub total-set :
      (f : V → ℕ) (k : Str) (v : V) (m : Map V)
      → total f (set k v m) + weight_at f (find k m) ≡ total f m + f v
  unfolding set
  total-set f k v m = ground (arith, total-assign f k v m, total-insert f k v m)
