-- ===== src/Comm/Serve.antt =====
-- CommModule.serve: the answer to a client's message.
pub mod Puts
pub mod Refusals
pub mod Replies
use distributed_storage_with.Base.{
  ℕ, zero, suc, ◌+◌, ◌≡◌, Bool, true, false, not, ◌&&◌, ◌||◌, List, [], ◌∷◌, Option, none, some,
  if◌then◌else◌, ltb, leb, Text, Result, ok, throw, null_pointer, Effect, proceed,
}
use distributed_storage_with.Messages.{
  StatusType, KvMsg, get, get_error, get_success, put, put_success, put_update, put_error,
  delete_success, delete_error, server_stopped, server_write_lock, server_not_responsible,
}
use distributed_storage_with.Storage.{JsonSimple, is_delete}
use distributed_storage_with.Server.{Server, is_responsible, get_kv, put_kv, holds_key}

-- The length of s.getBytes(UTF_8): a surrogate pair takes four bytes, and a surrogate that stands
-- alone is replaced by one question mark.
abbrev is_high_surrogate : ℕ → Bool
is_high_surrogate c = leb 0xd800 c && ltb c 0xdc00

abbrev is_low_surrogate : ℕ → Bool
is_low_surrogate c = leb 0xdc00 c && ltb c 0xe000

unit_bytes : ℕ → ℕ
unit_bytes c =
    if ltb c 0x80
    then 1
    else if ltb c 0x800
    then 2
    else if leb 0xd800 c && ltb c 0xe000
    then 1
    else 3

unfoldable pub utf8_length : Text → ℕ
unfolding unit_bytes
utf8_length [] = 0
utf8_length (c ∷ []) = unit_bytes c
utf8_length (c ∷ d ∷ s) =
    let pair = 4 + utf8_length s in
    let one = unit_bytes c + utf8_length (d ∷ s) in
    if is_high_surrogate c && is_low_surrogate d then pair else one

abbrev pub answer : StatusType → Text → Option Text → KvMsg
answer status key value = record {
  status = some status;
  key = some key;
  value = value;
  metadata = none;
}

-- `val_len` is computed from the key, as in the source.
unfoldable pub size_violated : Text → Option Text → Bool
size_violated key value =
    let key_len = utf8_length key in
    let val_len = utf8_length key in ltb key_len 1 || ltb 20 key_len || ltb 122880 val_len

-- The answer to a get, from the value that was found.
abbrev pub got : Text → Option Text → KvMsg
got key none = answer get_error key none
got key (some value) = answer get_success key (some value)

module _ (json : JsonSimple) (hash : Text → ℕ) where
  -- new KVMsg(SERVER_NOT_RESPONSIBLE, key, null, this.server.getMetadata())
  abbrev pub not_responsible : Text → Server json → KvMsg
  not_responsible key s = record {
    status = some server_not_responsible;
    key = some key;
    value = none;
    metadata = s.metadata;
  }

  unfoldable pub serve_get : Text → Server json → Effect (Server json) KvMsg
  serve_get key s = proceed (is_responsible json hash key s) s λ responsible.
      if not responsible
      then (ok (not_responsible key s), s)
      else (let (value, s') = get_kv json key s in (ok (got key value), s'))

  abbrev then_answer : Effect (Server json) (Unit {0}) → KvMsg → Effect (Server json) KvMsg
  then_answer (r, s) reply = proceed r s (λ _. (ok reply, s))

  -- The key is in the storage, or not, and the value is a request to delete, or not.
  unfoldable pub serve_stored :
      Bool → Bool → Text → Option Text → Server json → Effect (Server json) KvMsg
  serve_stored true true key value s =
      then_answer (put_kv json key value true true s) (answer delete_success key value)
  serve_stored true false key value s =
      then_answer (put_kv json key value true false s) (answer put_update key value)
  serve_stored false true key value s = (ok (answer delete_error key value), s)
  serve_stored false false key value s =
      then_answer (put_kv json key value false false s) (answer put_success key value)

  unfoldable pub serve_put : Text → Option Text → Server json → Effect (Server json) KvMsg
  unfolding serve_stored
  serve_put key value s =
      if s.write_lock
      then (ok (answer server_write_lock key none), s)
      else if size_violated key value
      then (ok (answer put_error key none), s)
      else proceed (is_responsible json hash key s) s λ responsible.
        if not responsible
        then (ok (not_responsible key s), s)
        else (let (found, s') = holds_key json key s in
            serve_stored found (is_delete value) key value s')

  -- A status that is neither GET nor PUT gets a reply whose status is null.
  serve_status : Option StatusType → Text → Option Text → Server json → Effect (Server json) KvMsg
  unfolding serve_get serve_put
  serve_status none key value s = (throw null_pointer, s)
  serve_status (some get) key value s = serve_get key s
  serve_status (some put) key value s = serve_put key value s
  serve_status (some _) key value s =
      (ok (record { status = none; key = some key; value = none; metadata = none }), s)

  serve_key : Option Text → KvMsg → Server json → Effect (Server json) KvMsg
  unfolding serve_status
  serve_key none msg s = (throw null_pointer, s)
  serve_key (some key) msg s =
      if s.stopped
      then (ok (answer server_stopped key none), s)
      else serve_status msg.status key msg.value s

  unfoldable pub serve : KvMsg → Server json → Effect (Server json) KvMsg
  unfolding serve_key
  serve msg s = serve_key msg.key msg s
