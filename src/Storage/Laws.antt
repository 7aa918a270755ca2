-- ===== src/Storage/Laws.antt =====
-- What the storage file holds, as a map, and how the operations of KVStorage change that map.
use distributed_storage_with.Base.{
  contains, ◌≡◌, refl, ap, ◌∙◌, true, false, not, ◌&&◌, List, [], ◌∷◌, Option, none, some,
  if◌then◌else◌, arith, Text, Dict, lookup, insert, remove, contains_key, lookup-insert,
  lookup-remove, contains_key-lookup, Result, ok, throw, io_exception, text_Eq, ◌==◌, Bool-cases,
  inl, inr,
}
use distributed_storage_with.Storage.{
  JsonSimple, Write, not_opened, cut_off, is_delete, value_or_empty, Storage, write_as, write_file,
  get_kv_object, in_storage, is_empty, fetch, store, flush_data, clear_kv_storage,
  initialize_storage,
}

module _ (json : JsonSimple) where
  open json use {Document, blank, braces, to_json_string, parse, parse-to_json_string, parse-braces}

  -- The value that the file holds for a key.
  unfoldable pub view : Storage json → Text → Option Text
  view s key = lookup key (get_kv_object json s).0

  guarded_lookup :
      (object : Dict Text Text) (key : Text)
      → (if not (is_empty json object) && contains_key key object then lookup key object else none)
        ≡ lookup key object
  unfolding is_empty lookup
  guarded_lookup [] key = refl
  guarded_lookup (x ∷ xs) key = ground (arith, contains_key-lookup key (x ∷ xs))

  -- Reading gives the value in the file.
  pub fetch-view : (key : Text) (s : Storage json) → (fetch json key s).0 ≡ view s key
  unfolding fetch view in_storage
  fetch-view key s = guarded_lookup (get_kv_object json s).0 key

  -- KVStorage.inStorage tells whether the file holds a value for the key.
  pub in_storage-view :
      (key : Text) (s : Storage json)
      → (in_storage json none key s).0 ≡ elim (view s key) [ none ↦ false | some _ ↦ true ]
  unfolding view in_storage is_empty lookup
  in_storage-view key s = guarded_contains (get_kv_object json s).0
    where
      guarded_contains :
          (object : Dict Text Text)
          → (not (is_empty json object) && contains_key key object)
            ≡ elim (lookup key object) [ none ↦ false | some _ ↦ true ]
      guarded_contains [] = refl
      guarded_contains (x ∷ xs) = contains_key-lookup key (x ∷ xs)

  -- What a printed object reads back as.
  view_printed :
      (object : Dict Text Text) (s : Storage json) (key : Text)
      → s.file ≡ some (to_json_string object)
      → view s key ≡ lookup key object
  unfolding view get_kv_object
  view_printed object s key h =
      let (parsed, reads, same) = parse-to_json_string object in rw (h) (rw reads (same key))

  write_file_ok :
      (document : Document) (s : Storage json)
      → s.plan ≡ []
      → write_file json document s ≡ (ok tt, record s { file = some document })
  unfolding write_file write_as
  write_file_ok document s h = rw h

  pub plan-get_kv_object : (s : Storage json) → s.plan ≡ [] → (get_kv_object json s).1.plan ≡ []
  unfolding get_kv_object initialize_storage
  plan-get_kv_object s h = ground arith

  -- What a put leaves under its key.
  abbrev pub stored : Option Text → Option Text
  stored value = if is_delete value then none else some (value_or_empty value)

  -- The new document of a put, and what it reads back as.
  new_document : Text → Option Text → Dict Text Text → Dict Text Text
  new_document key value object =
      if is_delete value then remove key object else insert key (value_or_empty value) object

  lookup-new_document :
      (key : Text) (value : Option Text) (object : Dict Text Text) (j : Text)
      → lookup j (new_document key value object)
        ≡ (if key == j then stored value else lookup j object)
  unfolding new_document
  lookup-new_document key value object j = elim (Bool-cases (is_delete value)) [
    | inl deletes ↦ rw deletes (lookup-remove key j object)
    | inr keeps ↦ rw keeps (lookup-insert key j (value_or_empty value) object)
  ]

  store-write_file :
      (key : Text) (value : Option Text) (s : Storage json)
      → store json key value s
        ≡ write_file json
            (to_json_string (new_document key value (get_kv_object json s).0))
            (get_kv_object json s).1
  unfolding store new_document
  store-write_file key value s = elim (Bool-cases (is_delete value)) [
    | inl deletes ↦ rw deletes
    | inr keeps ↦ rw keeps
  ]

  -- While writes succeed, a put returns, the next writes succeed too, its key then holds the value,
  -- or nothing if the value is a request to delete, and every other key holds what it held.
  pub store_lem :
      (key : Text) (value : Option Text) (s : Storage json)
      → s.plan ≡ []
      → ((store json key value s).0 ≡ ok tt)
        × ((store json key value s).1.plan ≡ [])
        × ((j : Text)
            → view (store json key value s).1 j ≡ (if key == j then stored value else view s j))
  store_lem key value s h =
      let (object, s') = get_kv_object json s in
      let text = to_json_string (new_document key value object) in
      let plan' = plan-get_kv_object s h in
      let e = store-write_file key value s ∙ write_file_ok text s' plan' in
      (
        rw e,
        rw e plan',
        λ j. rw e (
            view_printed (new_document key value object) (record s' { file = some text }) j refl
            ∙ lookup-new_document key value object j
            ∙ (unfold view in refl)),
      )

  stored-none : stored none ≡ none
  unfolding is_delete
  stored-none = refl

  -- While writes succeed, flushing a list of keys returns, and takes out the keys of the list and
  -- no others.
  pub flush_data_lem :
      (keys : List Text) (s : Storage json)
      → s.plan ≡ []
      → ((flush_data json keys s).0 ≡ ok tt)
        × ((flush_data json keys s).1.plan ≡ [])
        × ((j : Text)
            → view (flush_data json keys s).1 j ≡ (if contains j keys then none else view s j))
  unfolding flush_data
  flush_data_lem [] s h = (refl, h, λ j. refl)
  flush_data_lem (key ∷ keys) s h =
      let s' = (store json key none s).1 in
      let (returns, plan', stores) = store_lem key none s h in
      let (rest, plan'', flushes) = flush_data_lem keys s' plan' in
      let e : store json key none s ≡ (ok tt, s') = λ i. (returns i, s') in
      rw e (rest, plan'', λ j. ground (arith, flushes j, stores j, stored-none))

  -- If the file is there and cannot be opened for writing, a put throws, and the file holds what it
  -- held.
  pub store_not_opened :
      (key : Text) (value : Option Text) (s : Storage json) (plan : List (Write Document))
      (d : Document)
      → s.file ≡ some d
      → s.plan ≡ not_opened ∷ plan
      → ((store json key value s).0 ≡ throw io_exception)
        × ((j : Text) → view (store json key value s).1 j ≡ view s j)
  unfolding view get_kv_object write_file write_as
  store_not_opened key value s plan d there next =
      rw (store-write_file key value s) (rw there (rw next (refl, λ j. refl)))

  -- The writing is cut off: the put throws, and what the file held is lost, for every key, unless the
  -- document that is left holds it.
  pub store_cut_off :
      (key : Text) (value : Option Text) (s : Storage json) (plan : List (Write Document))
      (d left : Document)
      → s.file ≡ some d
      → s.plan ≡ cut_off left ∷ plan
      → ((store json key value s).0 ≡ throw io_exception)
        × ((store json key value s).1.file ≡ some left)
  unfolding view get_kv_object write_file write_as
  store_cut_off key value s plan d left there next =
      rw (store-write_file key value s) (rw there (rw next (refl, refl)))

  view_braces : (s : Storage json) (j : Text) → s.file ≡ some braces → view s j ≡ none
  unfolding view get_kv_object lookup
  view_braces s j h = rw h (rw parse-braces)

  -- While writes succeed, a cleared storage holds nothing.
  pub clear_kv_storage_lem :
      (s : Storage json) (j : Text) → s.plan ≡ [] → view (clear_kv_storage json s) j ≡ none
  unfolding clear_kv_storage
  clear_kv_storage_lem s j h =
      view_braces (clear_kv_storage json s) j
        (ap (λ (r : Result (Unit {0}) × Storage json). r.1.file) (write_file_ok braces s h))
