-- ===== src/Cluster/Changes.antt =====
-- A table of machines under their addresses, some of which change.
use distributed_storage_with.Base.{
  ◌≡◌, refl, ap, ◌∙◌, Bool, true, false, Bool-cases, inl, inr, List, [], ◌∷◌, Option, none, some,
  if◌then◌else◌, Text, text_eq, text_eq_iff, text_Eq, contains, Dict, lookup, insert, lookup-insert,
  subst, All,
}

module _ {A : Type 0} where
  abbrev pub map_found : (A → A) → Option A → Option A
  map_found f none = none
  map_found f (some a) = some (f a)

  -- Some machine is reached under the address.
  abbrev pub IsReached : Dict Text A → Text → Type 0
  IsReached table addr = (x : A) × (lookup addr table ≡ some x)

  abbrev pub changed : (A → A) → Text → Option A → Dict Text A → Dict Text A
  changed f addr none table = table
  changed f addr (some x) table = insert addr (f x) table

  abbrev pub change : (A → A) → Text → Dict Text A → Dict Text A
  change f addr table = changed f addr (lookup addr table) table

  unfoldable pub change_all : (A → A) → List Text → Dict Text A → Dict Text A
  change_all f [] table = table
  change_all f (addr ∷ addrs) table = change_all f addrs (change f addr table)

  lookup-changed :
      (f : A → A) (addr a : Text) (table : Dict Text A) (o : Option A)
      → lookup addr table ≡ o
      → lookup a (changed f addr o table)
        ≡ (if text_eq addr a then map_found f (lookup a table) else lookup a table)
  lookup-changed f addr a table none e = elim (Bool-cases (text_eq addr a)) [
    | inl same ↦
        let there : lookup a table ≡ none =
          subst (λ x. lookup x table ≡ none) ((text_eq_iff addr a).0 same) e in
        rw (same, there)
    | inr other ↦ rw other
  ]
  lookup-changed f addr a table (some x) e =
      lookup-insert addr a (f x) table ∙ elim (Bool-cases (text_eq addr a)) [
        | inl same ↦
            let there : lookup a table ≡ some x =
              subst (λ y. lookup y table ≡ some x) ((text_eq_iff addr a).0 same) e in
            rw (same, there)
        | inr other ↦ rw other
      ]

  twice :
      (f : A → A) (o : Option A)
      → ((x : A) → f (f x) ≡ f x)
      → map_found f (map_found f o) ≡ map_found f o
  twice f none h = refl
  twice f (some x) h = ap some (h x)

  -- What is at an address when those of a list have changed.
  abbrev pub changed_at : (A → A) → List Text → Text → Dict Text A → Option A
  changed_at f addrs a table =
      if contains a addrs then map_found f (lookup a table) else lookup a table

  pub lookup-change_all :
      (f : A → A) (addrs : List Text) (a : Text) (table : Dict Text A)
      → ((x : A) → f (f x) ≡ f x)
      → lookup a (change_all f addrs table) ≡ changed_at f addrs a table
  unfolding change_all
  lookup-change_all f [] a table h = refl
  lookup-change_all f (addr ∷ addrs) a table h =
      lookup-change_all f addrs a (change f addr table) h
      ∙ ap (λ o. if contains a addrs then map_found f o else o)
          (lookup-changed f addr a table (lookup addr table) refl)
      ∙ elim (Bool-cases (text_eq addr a)) [
        | inl same ↦ elim (Bool-cases (contains a addrs)) [
          | inl again ↦ rw (same, again, twice f (lookup a table) h)
          | inr once ↦ rw (same, once)
        ]
        | inr other ↦ rw other
      ]

  found_if :
      (b : Bool) (f : A → A) (o : Option A) (x : A)
      → o ≡ some x
      → (y : A) × ((if b then map_found f o else o) ≡ some y)
  found_if true f o x e = (f x, ap (map_found f) e)
  found_if false f o x e = (x, e)

  change-IsReached :
      (f : A → A) (addr a : Text) (table : Dict Text A)
      → IsReached table a
      → IsReached (change f addr table) a
  change-IsReached f addr a table (x, there) =
      let (y, e) = found_if (text_eq addr a) f (lookup a table) x there in
      (y, lookup-changed f addr a table (lookup addr table) refl ∙ e)

  pub change-All_IsReached :
      (f : A → A) (addr : Text) (table : Dict Text A) (addrs : List Text)
      → All (IsReached table) addrs
      → All (IsReached (change f addr table)) addrs
  change-All_IsReached f addr table [] h = tt
  change-All_IsReached f addr table (a ∷ addrs) h =
      (change-IsReached f addr a table h.0, change-All_IsReached f addr table addrs h.1)
