-- ===== src/Ring/Sorting.antt =====
-- The positions of distinct servers, sorted.
use distributed_storage_with.Base.{
  ℕ, ◌<◌, ◌≡◌, ◌≢◌, refl, List, [], ◌∷◌, arith, leb, Bool-cases, inl, inr, All,
}
use distributed_storage_with.Ring.Metadata.{insert_sorted, sort}

abbrev pub Distinct : List ℕ → Type 0
Distinct [] = Unit
Distinct (x ∷ xs) = All (λ y. x ≢ y) xs × Distinct xs

abbrev pub Increasing : List ℕ → Type 0
Increasing [] = Unit
Increasing (x ∷ xs) = All (λ y. x < y) xs × Increasing xs

pub All-map {ℓ} :
    {A : Type 0} {P Q : A → Type ℓ} (xs : List A) → ((x : A) → P x → Q x) → All P xs → All Q xs
All-map [] f h = tt
All-map (x ∷ xs) f h = (f x h.0, All-map xs f h.1)

All-zip :
    {P Q R : ℕ → Type 0} (xs : List ℕ)
    → ((x : ℕ) → P x → Q x → R x)
    → All P xs
    → All Q xs
    → All R xs
All-zip [] f h k = tt
All-zip (x ∷ xs) f h k = (f x h.0 k.0, All-zip xs f h.1 k.1)

insert_sorted-All :
    (P : ℕ → Type 0) (h : ℕ) (xs : List ℕ) → P h → All P xs → All P (insert_sorted h xs)
unfolding insert_sorted
insert_sorted-All P h [] p ps = (p, tt)
insert_sorted-All P h (x ∷ xs) p ps = elim (Bool-cases (leb h x)) [
  | inl le ↦ rw le (p, ps)
  | inr gt ↦ rw gt (ps.0, insert_sorted-All P h xs p ps.1)
]

pub sort-All : (P : ℕ → Type 0) (xs : List ℕ) → All P xs → All P (sort xs)
unfolding sort
sort-All P [] ps = tt
sort-All P (x ∷ xs) ps = insert_sorted-All P x (sort xs) ps.0 (sort-All P xs ps.1)

insert_sorted-Increasing :
    (h : ℕ) (xs : List ℕ) → All (λ y. h ≢ y) xs → Increasing xs → Increasing (insert_sorted h xs)
unfolding insert_sorted
insert_sorted-Increasing h [] ne inc = (tt, tt)
insert_sorted-Increasing h (x ∷ xs) ne inc = elim (Bool-cases (leb h x)) [
  | inl le ↦
      let below : h < x = ground (arith, ne.0) in
      rw le ((below, All-map xs (λ y lt. omega arith) inc.0), inc)
  | inr gt ↦ rw gt (
    insert_sorted-All (λ y. x < y) h xs (ground arith) inc.0,
    insert_sorted-Increasing h xs ne.1 inc.1,
  )
]

pub sort-Increasing : (xs : List ℕ) → Distinct xs → Increasing (sort xs)
unfolding sort
sort-Increasing [] d = tt
sort-Increasing (x ∷ xs) d =
    insert_sorted-Increasing x (sort xs) (sort-All (λ y. x ≢ y) xs d.0) (sort-Increasing xs d.1)

-- A non-empty list sorts to a non-empty list.
pub sort-cons : (x : ℕ) (xs : List ℕ) → (y : ℕ) × (ys : List ℕ) × (sort (x ∷ xs) ≡ y ∷ ys)
unfolding sort
sort-cons x xs = cons_of (sort xs)
  where
    cons_of : (zs : List ℕ) → (y : ℕ) × (ys : List ℕ) × (insert_sorted x zs ≡ y ∷ ys)
    cons_of [] = (x, [], unfold insert_sorted in refl)
    cons_of (z ∷ zs) = elim (Bool-cases (leb x z)) [
      | inl le ↦ (x, z ∷ zs, unfold insert_sorted in rw le)
      | inr gt ↦ (z, insert_sorted x zs, unfold insert_sorted in rw gt)
    ]
