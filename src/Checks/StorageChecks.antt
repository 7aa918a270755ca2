-- ===== src/Checks/StorageChecks.antt =====
-- The storage at concrete inputs.
use distributed_storage_with.Base.{
  ◌≡◌, refl, if◌then◌else◌, [], ◌∷◌, none, some, Text, codes, contains, ◌==◌, text_Eq, ok,
}
use distributed_storage_with.Storage.{Storage, not_opened, store, flush_data}
use distributed_storage_with.Storage.Laws.{view, stored, store_lem, flush_data_lem}
use distributed_storage_with.Checks.Fixtures.{plain_json, braces_doc, two_pairs}

store_lem_example :
    let r = store plain_json (codes "a") (some (codes "3")) two_pairs in
    (r.0 ≡ ok tt)
    × (r.1.plan ≡ [])
    × ((j : Text)
        → view plain_json r.1 j ≡ (
            if codes "a" == j
            then stored plain_json (some (codes "3"))
            else view plain_json two_pairs j))
store_lem_example = store_lem plain_json (codes "a") (some (codes "3")) two_pairs refl

flush_data_lem_example :
    let r = flush_data plain_json (codes "a" ∷ []) two_pairs in
    (r.0 ≡ ok tt)
    × (r.1.plan ≡ [])
    × ((j : Text)
        → view plain_json r.1 j
          ≡ (if contains j (codes "a" ∷ []) then none else view plain_json two_pairs j))
flush_data_lem_example = flush_data_lem plain_json (codes "a" ∷ []) two_pairs refl

abbrev full_disk : Storage plain_json
full_disk = record { file = some braces_doc; plan = not_opened ∷ [] }
