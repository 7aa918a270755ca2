-- ===== src/Storage.antt =====
-- KVStorage: a server's key-value pairs in a JSON file that is read and written whole.
pub mod Laws
pub mod Reading
use distributed_storage_with.Base.{
  ◌≡◌, Bool, true, false, not, ◌&&◌, ◌||◌, List, [], ◌∷◌, Option, none, some, if◌then◌else◌, Text,
  codes, text_eq, Dict, lookup, insert, remove, contains_key, KeysOnce, Result, ok, throw,
  io_exception, ◌>>=◌, text_Eq,
}

-- json-simple, which prints an object and parses a document. A parsed object is a `HashMap`.
pub record JsonSimple : Type 1 where
  pub Document : Type 0
  pub blank : Document  -- an empty file
  pub braces : Document  -- "{}"
  pub to_json_string : Dict Text Text → Document
  pub parse : Document → Option (Dict Text Text)
  pub parse-blank : parse blank ≡ none
  pub parse-braces : parse braces ≡ some []
  pub parse-to_json_string :
      (object : Dict Text Text)
      → (parsed : Dict Text Text) × (parse (to_json_string object) ≡ some parsed)
        × ((key : Text) → lookup key parsed ≡ lookup key object)
  pub parse-KeysOnce :
      (document : Document) (object : Dict Text Text)
      → parse document ≡ some object
      → KeysOnce object

-- What becomes of one opening of the file for writing: it is written; it cannot be opened, and stays
-- as it was; or it is opened, which empties it, and the writing fails and leaves some other document.
pub data Write (D : Type 0) : Type 0 where
  written : Write D
  not_opened : Write D
  cut_off : D → Write D

-- value == null || value.equals("null") || value.equals(""), the request to delete
unfoldable pub is_delete : Option Text → Bool
is_delete none = true
is_delete (some value) = text_eq value (codes "null") || text_eq value []

-- value.equals of the value behind a reference that is not null
abbrev pub value_or_empty : Option Text → Text
value_or_empty none = []
value_or_empty (some value) = value

module _ (json : JsonSimple) where
  open json use {Document, blank, braces, to_json_string, parse}

  -- The file, if it exists, and what the next writes will come to; when the list ends, all succeed.
  pub record Storage : Type 0 where
    pub file : Option Document
    pub plan : List (Write Document)

  abbrev file_after : Document → Option Document → Write Document → Option Document
  file_after document old written = some document
  file_after document old not_opened = old
  file_after document old (cut_off left) = some left

  abbrev outcome : Write Document → Result (Unit {0})
  outcome written = ok tt
  outcome _ = throw io_exception

  write_as : Document → Storage → List (Write Document) → Result (Unit {0}) × Storage
  write_as document s [] = (ok tt, record s { file = some document })
  write_as document s (w ∷ plan) =
      (outcome w, record { file = file_after document s.file w; plan = plan })

  -- try (FileWriter file = new FileWriter(fileName)) { file.write(…); file.flush(); }
  unfoldable pub write_file : Document → Storage → Result (Unit {0}) × Storage
  unfolding write_as
  write_file document s = write_as document s s.plan

  abbrev created : Result (Unit {0}) × Storage → Storage → Storage
  created (ok _, s') s = s'
  created (throw _, s') s = record s' { file = none }

  -- storage.createNewFile(); an IOException is logged, and there is still no file
  create_storage_file : Storage → Storage
  unfolding write_file
  create_storage_file s = created (write_file blank s) s

  unfoldable pub storage_exists : Storage → Bool
  storage_exists s = elim s.file [ none ↦ false | some _ ↦ true ]

  unfoldable pub initialize_storage : Storage → Storage
  unfolding create_storage_file storage_exists
  initialize_storage s = if storage_exists s then s else create_storage_file s

  abbrev parsed_or_empty : Option (Dict Text Text) → Dict Text Text
  parsed_or_empty none = []
  parsed_or_empty (some object) = object

  -- KVStorage.getKVObject; a parse exception is caught, and gives the empty object.
  unfoldable pub get_kv_object : Storage → Dict Text Text × Storage
  unfolding initialize_storage
  get_kv_object s = elim s.file [
    | some document ↦ (parsed_or_empty (parse document), s)
    | none ↦ ([], initialize_storage s)
  ]

  unfoldable pub is_empty : Dict Text Text → Bool
  is_empty [] = true
  is_empty (_ ∷ _) = false

  unfoldable pub in_storage : Option (Dict Text Text) → Text → Storage → Bool × Storage
  unfolding get_kv_object is_empty
  in_storage (some object) key s = (not (is_empty object) && contains_key key object, s)
  in_storage none key s =
      let (object, s') = get_kv_object s in (not (is_empty object) && contains_key key object, s')

  -- KVStorage.get
  unfoldable pub fetch : Text → Storage → Option Text × Storage
  unfolding get_kv_object in_storage
  fetch key s =
      let (object, s') = get_kv_object s in
      let (found, s'') = in_storage (some object) key s' in
      (if found then lookup key object else none, s'')

  -- KVStorage.put
  unfoldable pub store : Text → Option Text → Storage → Result (Unit {0}) × Storage
  unfolding get_kv_object write_file is_delete
  store key value s =
      let (object, s') = get_kv_object s in
      if not (is_delete value)
      then write_file (to_json_string (insert key (value_or_empty value) object)) s'
      else write_file (to_json_string (remove key object)) s'

  abbrev then_flush :
      Result (Unit {0}) × Storage
      → (Storage → Result (Unit {0}) × Storage)
      → Result (Unit {0}) × Storage
  then_flush (ok _, s) rest = rest s
  then_flush (throw e, s) rest = (throw e, s)

  -- The loop of KVStorage.flushData: the first exception ends it.
  unfoldable pub flush_data : List Text → Storage → Result (Unit {0}) × Storage
  flush_data [] s = (ok tt, s)
  flush_data (key ∷ keys) s = then_flush (store key none s) (flush_data keys)

  -- KVStorage.clearKVStorage; an IOException is logged
  unfoldable pub clear_kv_storage : Storage → Storage
  unfolding write_file
  clear_kv_storage s = (write_file braces s).1
