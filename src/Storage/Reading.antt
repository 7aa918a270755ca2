-- ===== src/Storage/Reading.antt =====
-- Reading may make a storage file that is missing, and changes nothing else.
use distributed_storage_with.Base.{
  ◌≡◌, refl, ap, sym, [], none, some, arith, Text, lookup, text_Eq, Option-cases, inl, inr, ◌∙◌,
}
use distributed_storage_with.Storage.{
  JsonSimple, Storage, get_kv_object, in_storage, fetch, initialize_storage,
}
use distributed_storage_with.Storage.Laws.{view}

module _ (json : JsonSimple) where
  open json use {Document, blank, parse, parse-blank}

  view_absent : (s : Storage json) (j : Text) → s.file ≡ none → view json s j ≡ none
  unfolding view get_kv_object lookup
  view_absent s j h = rw h

  view_blank : (s : Storage json) (j : Text) → s.file ≡ some blank → view json s j ≡ none
  unfolding view get_kv_object lookup
  view_blank s j h = rw h (rw parse-blank)

  file-get_kv_object :
      (s : Storage json) (d : Document) → s.file ≡ some d → (get_kv_object json s).1 ≡ s
  unfolding get_kv_object
  file-get_kv_object s d h = ground arith

  file-created :
      (s : Storage json) → s.file ≡ none → s.plan ≡ [] → (get_kv_object json s).1.file ≡ some blank
  unfolding get_kv_object initialize_storage
  file-created s h p = ground arith

  -- Reading leaves what is read, while writes succeed.
  pub view-get_kv_object :
      (s : Storage json) (j : Text)
      → s.plan ≡ []
      → view json (get_kv_object json s).1 j ≡ view json s j
  view-get_kv_object s j p = elim (Option-cases s.file) [
    | inl absent ↦
        view_blank (get_kv_object json s).1 j (file-created s absent p)
        ∙ sym (view_absent s j absent)
    | inr (d, there) ↦ ap (λ (x : Storage json). view json x j) (file-get_kv_object s d there)
  ]

  pub state-in_storage :
      (key : Text) (s : Storage json) → (in_storage json none key s).1 ≡ (get_kv_object json s).1
  unfolding in_storage
  state-in_storage key s = refl

  pub state-fetch :
      (key : Text) (s : Storage json) → (fetch json key s).1 ≡ (get_kv_object json s).1
  unfolding fetch in_storage
  state-fetch key s = refl
