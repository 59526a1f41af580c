-- ===== src/Base/Dict.antt =====
-- `std::unordered_map` with a number as its key: an association list. The source's iteration
-- order is unspecified; here it is the order of insertion.
use Prim.Native.Nat.{ℕ, suc, ◌+◌, ◌≤◌}
use mathlib.Core.Path.{◌≡◌, refl}
use mathlib.Core.Bool.{Bool, true, false}
use mathlib.Core.Option.{Option, none, some}
use mathlib.Core.List.{List, [], ◌∷◌, ◌++◌, map}
use native.Mathlib.Omega.{arith}
use cpp_mmo.Base.Tests.{◌==◌, if◌then◌else◌}
use cpp_mmo.Base.Lists.{length, count}

abbrev pub Dict {ℓ} : Type ℓ → Type ℓ
Dict V = List (ℕ × V)

module _ {ℓ} {V : Type ℓ} where
  -- `it = m.find(k)`, with `none` for `m.end()`.
  unfoldable pub find : ℕ → Dict V → Option V
  find k [] = none
  find k ((j, v) ∷ m) = if k == j then some v else find k m

  -- `m[k] = v`
  unfoldable pub store : ℕ → V → Dict V → Dict V
  store k v [] = (k, v) ∷ []
  store k v ((j, w) ∷ m) = if k == j then (j, v) ∷ m else (j, w) ∷ store k v m

  -- `m.erase(k)`
  unfoldable pub erase : ℕ → Dict V → Dict V
  erase k [] = []
  erase k ((j, w) ∷ m) = if k == j then erase k m else (j, w) ∷ erase k m

  -- Whether the key is there.
  abbrev pub has_some : Option V → Bool
  has_some none = false
  has_some (some v) = true

  abbrev pub keys : Dict V → List ℕ
  keys m = map (λ e. e.0) m

  abbrev pub or_default : V → Option V → V
  or_default d none = d
  or_default d (some v) = v

  abbrev pub map_found {κ} : {W : Type κ} → (V → W) → Option V → Option W
  map_found f none = none
  map_found f (some v) = some (f v)

  pub find-store :
      (k j : ℕ) (v : V) (m : Dict V) → find j (store k v m) ≡ (if j == k then some v else find j m)
  unfolding find store
  find-store k j v [] = refl
  find-store k j v ((i, w) ∷ m) = ground (arith, find-store k j v m)

  pub find-erase : (k j : ℕ) (m : Dict V) → find j (erase k m) ≡ (if j == k then none else find j m)
  unfolding find erase
  find-erase k j [] = ground arith
  find-erase k j ((i, w) ∷ m) = ground (arith, find-erase k j m)

  pub find-append :
      (k : ℕ) (m n : Dict V)
      → find k (m ++ n) ≡ elim (find k m) [ none ↦ find k n | some v ↦ some v ]
  unfolding find
  find-append k [] n = refl
  find-append k ((j, w) ∷ m) n = ground (arith, find-append k m n)

  -- Each key stands once.
  abbrev pub IsKeyed : Dict V → Type 0
  IsKeyed m = (k : ℕ) → count k (keys m) ≤ 1

  count-keys-none : (k : ℕ) (m : Dict V) → find k m ≡ none → count k (keys m) ≡ 0
  unfolding find count
  count-keys-none k [] h = refl
  count-keys-none k ((j, w) ∷ m) h = ground (arith, count-keys-none k m)

  pub find-none : (k : ℕ) (m : Dict V) → count k (keys m) ≡ 0 → find k m ≡ none
  unfolding find count
  find-none k [] h = refl
  find-none k ((j, w) ∷ m) h = ground (arith, find-none k m)

  count-keys-store :
      (k j : ℕ) (v : V) (m : Dict V)
      → count j (keys (store k v m)) ≡ (
          if j == k
          then (if has_some (find k m) then count j (keys m) else suc (count j (keys m)))
          else count j (keys m))
  unfolding find store count
  count-keys-store k j v [] = ground arith
  count-keys-store k j v ((i, w) ∷ m) = ground (arith, count-keys-store k j v m)

  count-keys-erase :
      (k j : ℕ) (m : Dict V) → count j (keys (erase k m)) ≡ (if j == k then 0 else count j (keys m))
  unfolding erase count
  count-keys-erase k j [] = ground arith
  count-keys-erase k j ((i, w) ∷ m) = ground (arith, count-keys-erase k j m)

  pub store-IsKeyed : (k : ℕ) (v : V) (m : Dict V) → IsKeyed m → IsKeyed (store k v m)
  store-IsKeyed k v m h j = ground (arith, count-keys-store k j v m, h j, count-keys-none k m)

  erase-IsKeyed : (k : ℕ) (m : Dict V) → IsKeyed m → IsKeyed (erase k m)
  erase-IsKeyed k m h j = ground (arith, count-keys-erase k j m, h j)

  pub length-store-le : (k : ℕ) (v : V) (m : Dict V) → length (store k v m) ≤ length m + 1
  unfolding store
  length-store-le k v [] = omega arith
  length-store-le k v ((i, w) ∷ m) = ground (arith, length-store-le k v m)

  pub length-erase-le : (k : ℕ) (m : Dict V) → length (erase k m) ≤ length m
  unfolding erase
  length-erase-le k [] = omega arith
  length-erase-le k ((i, w) ∷ m) = ground (arith, length-erase-le k m)
