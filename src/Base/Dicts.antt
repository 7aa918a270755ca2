-- ===== src/Base/Dicts.antt =====
-- `java.util.HashMap` as an association list that holds each key once. The order in which a
-- `HashMap` is iterated is not that of the list: see `HashOrder`.
use mathlib.Core.Path.{◌≡◌, refl, ap, subst}
use mathlib.Core.Bool.{Bool, true, false}
use mathlib.Core.Logic.{inl, inr}
use mathlib.Core.Option.{Option, none, some}
use mathlib.Core.List.{List, [], ◌∷◌, Memᴰ}
use native.Mathlib.Omega.{arith}
use distributed_storage_with.Base.Tests.{if◌then◌else◌, Bool-cases}
use distributed_storage_with.Base.Texts.{Text, Eq, ◌==◌}

abbrev pub Dict {ℓ κ} : Type ℓ → Type κ → Type (ℓ ⊔ κ)
Dict K V = List (K × V)

module _ {ℓ κ} {K : Type ℓ} {V : Type κ} ⦃e : Eq K⦄ where
  -- map.get(k), `none` for null
  unfoldable pub lookup : K → Dict K V → Option V
  lookup k [] = none
  lookup k ((j, v) ∷ d) = if j == k then some v else lookup k d

  -- map.put(k, v)
  unfoldable pub insert : K → V → Dict K V → Dict K V
  insert k v [] = (k, v) ∷ []
  insert k v ((j, w) ∷ d) = if j == k then (k, v) ∷ d else (j, w) ∷ insert k v d

  -- map.remove(k)
  unfoldable pub remove : K → Dict K V → Dict K V
  remove k [] = []
  remove k ((j, w) ∷ d) = let rest = remove k d in if j == k then rest else (j, w) ∷ rest

  -- map.containsKey(k)
  unfoldable pub contains_key : K → Dict K V → Bool
  contains_key k [] = false
  contains_key k ((j, v) ∷ d) = if j == k then true else contains_key k d

  pub lookup-insert :
      (k j : K) (v : V) (d : Dict K V)
      → lookup j (insert k v d) ≡ (if k == j then some v else lookup j d)
  unfolding lookup insert
  lookup-insert k j v [] = refl
  lookup-insert k j v ((i, w) ∷ d) =
      ground (arith, e.equals_iff k j, e.equals_iff i k, e.equals_iff i j, lookup-insert k j v d)

  pub lookup-remove :
      (k j : K) (d : Dict K V) → lookup j (remove k d) ≡ (if k == j then none else lookup j d)
  unfolding lookup remove
  lookup-remove k j [] = ground arith
  lookup-remove k j ((i, w) ∷ d) =
      ground (arith, e.equals_iff k j, e.equals_iff i k, e.equals_iff i j, lookup-remove k j d)

  pub contains_key-lookup :
      (k : K) (d : Dict K V) → contains_key k d ≡ elim (lookup k d) [ none ↦ false | some _ ↦ true ]
  unfolding lookup contains_key
  contains_key-lookup k [] = refl
  contains_key-lookup k ((j, v) ∷ d) = ground (arith, contains_key-lookup k d)

  -- Each key stands once, as in a `HashMap`.
  abbrev pub KeysOnce : Dict K V → Type 0
  KeysOnce [] = Unit
  KeysOnce ((j, v) ∷ d) = (contains_key j d ≡ false) × KeysOnce d

  pub contains_key-insert :
      (k j : K) (v : V) (d : Dict K V)
      → contains_key j (insert k v d) ≡ (if k == j then true else contains_key j d)
  unfolding insert contains_key
  contains_key-insert k j v [] = refl
  contains_key-insert k j v ((i, w) ∷ d) =
      ground
        (arith, e.equals_iff k j, e.equals_iff i k, e.equals_iff i j, contains_key-insert k j v d)

  pub insert-KeysOnce : (k : K) (v : V) (d : Dict K V) → KeysOnce d → KeysOnce (insert k v d)
  unfolding insert contains_key
  insert-KeysOnce k v [] h = ground arith
  insert-KeysOnce k v ((i, w) ∷ d) h = elim (Bool-cases (i == k)) [
    | inl same ↦
        rw same (subst (λ x. contains_key x d ≡ false) ((e.equals_iff i k).0 same) h.0, h.1)
    | inr other ↦ rw other (
      ground (arith, contains_key-insert k i v d, e.equals_iff i k, e.equals_iff k i),
      insert-KeysOnce k v d h.1,
    )
  ]

  pub lookup_absent : (k : K) (d : Dict K V) → contains_key k d ≡ false → lookup k d ≡ none
  unfolding lookup contains_key
  lookup_absent k [] h = refl
  lookup_absent k ((j, w) ∷ d) h = ground (arith, lookup_absent k d)

  pub mem-lookup : (k : K) (v : V) (d : Dict K V) → lookup k d ≡ some v → Memᴰ (k, v) d
  unfolding lookup
  mem-lookup k v [] h = absurd (cc)
  mem-lookup k v ((j, w) ∷ d) h = elim (Bool-cases (j == k)) [
    | inl same ↦ Memᴰ.head (ground (arith, e.equals_iff j k))
    | inr other ↦ Memᴰ.tail (mem-lookup k v d (rw other at h))
  ]

  pub contains_key-mem : (k : K) (v : V) (d : Dict K V) → Memᴰ (k, v) d → contains_key k d ≡ true
  unfolding contains_key
  contains_key-mem k v [] p = elim p [ ]
  contains_key-mem k v ((j, w) ∷ d) (Memᴰ.head p) =
      ground (arith, e.equals_iff j k, ap (λ (x : K × V). x.0) p)
  contains_key-mem k v ((j, w) ∷ d) (Memᴰ.tail p) = ground (arith, contains_key-mem k v d p)

  pub lookup-mem : (k : K) (v : V) (d : Dict K V) → KeysOnce d → Memᴰ (k, v) d → lookup k d ≡ some v
  unfolding lookup
  lookup-mem k v [] h p = elim p [ ]
  lookup-mem k v ((j, w) ∷ d) h (Memᴰ.head p) =
      ground (arith, e.equals_iff j k, ap (λ (x : K × V). x.0) p, ap (λ (x : K × V). x.1) p)
  lookup-mem k v ((j, w) ∷ d) h (Memᴰ.tail p) =
      ground (arith, e.equals_iff j k, h.0, contains_key-mem k v d p, lookup-mem k v d h.1 p)

-- The order in which a `HashMap<String, String>` is iterated: the library fixes it by hash codes
-- and capacity, the program may rely only on every entry, and nothing else, being visited.
pub record HashOrder : Type 0 where
  pub order : Dict Text Text → Dict Text Text
  pub visits : (d : Dict Text Text) (x : Text × Text) → Memᴰ x d → Memᴰ x (order d)
  pub only : (d : Dict Text Text) (x : Text × Text) → Memᴰ x (order d) → Memᴰ x d
