-- ===== src/Checks/CommChecks.antt =====
-- The communication module at concrete inputs.
use distributed_storage_with.Base.{
  ℕ, zero, suc, ◌^◌, ◌%◌, ◌≡◌, refl, arith, true, false, [], ◌∷◌, replicate, length, ◌+◌, ◌-◌, ap,
  none, some, Text, codes, lookup, ok,
}
use distributed_storage_with.Messages.{KvMessage, client, get, put, put_success, get_success}
use distributed_storage_with.Ring.Metadata.{addr_port}
use distributed_storage_with.Radix.{natural_to_string, parse16}
use distributed_storage_with.Ring.Range.{parse_range, in_range}
use distributed_storage_with.Storage.{Storage, is_delete, get_kv_object}
use distributed_storage_with.Storage.Laws.{view}
use distributed_storage_with.Server.{is_responsible}
use distributed_storage_with.Comm.Serve.{serve, answer, got, size_violated, utf8_length}
use distributed_storage_with.Comm.Serve.Puts.{IsServing, contents, held, put_status, PutDone}
use distributed_storage_with.Comm.Serve.Refusals.{request}
use distributed_storage_with.Comm.Serve.Replies.{
  serve_put_lem, serve_get_lem, serve_get-serve_put, serve_put_oversized,
}
use distributed_storage_with.Comm.Modular.{fast_mod_exp, fast_mod_exp_lem}
use distributed_storage_with.Comm.KeyExchange.{Bytes, agreed_key}
use distributed_storage_with.Comm.Secure.{Crypto, send, receive, session, receive_forged}
use distributed_storage_with.Checks.Encoding.{
  write_message, read_message, read_message-write_message,
}
use distributed_storage_with.Checks.Fixtures.{plain_json, digest, empty_storage, two_pairs, alone}

alone-responsible :
    (storage : Storage plain_json)
    → is_responsible plain_json digest (codes "a") (alone storage) ≡ ok true
unfolding is_responsible addr_port lookup parse_range in_range natural_to_string parse16
alone-responsible storage = refl

alone-IsServing : IsServing plain_json digest (codes "a") (alone two_pairs)
alone-IsServing = record {
  started = refl;
  healthy = refl;
  connected = refl;
  responsible = alone-responsible two_pairs;
}

serve_put_lem_example :
    let s = alone two_pairs in
    let r = serve plain_json digest (request put (codes "a") (some (codes "3"))) s in
    (r.0
      ≡ ok (
          answer
            (put_status (held (contents plain_json s (codes "a"))) (is_delete (some (codes "3"))))
            (codes "a")
            (some (codes "3"))))
    × PutDone plain_json (codes "a") (some (codes "3")) s r.1
unfolding size_violated utf8_length
serve_put_lem_example =
    serve_put_lem plain_json digest (codes "a") (some (codes "3")) (alone two_pairs) alone-IsServing
      refl refl

serve_get_lem_example :
    let r = serve plain_json digest (request get (codes "a") none) (alone two_pairs) in
    (r.0 ≡ ok (got (codes "a") (contents plain_json (alone two_pairs) (codes "a"))))
    × ((j : Text) → contents plain_json r.1 j ≡ contents plain_json (alone two_pairs) j)
serve_get_lem_example =
    serve_get_lem plain_json digest (codes "a") none (alone two_pairs) alone-IsServing

serve_get-serve_put_example :
    (serve plain_json digest
      (request get (codes "a") none)
      (serve plain_json digest (request put (codes "a") (some (codes "3"))) (alone two_pairs)).1).0
    ≡ ok (answer get_success (codes "a") (some (codes "3")))
unfolding size_violated is_delete utf8_length
serve_get-serve_put_example =
    serve_get-serve_put plain_json digest (codes "a") (codes "3") none (alone two_pairs)
      alone-IsServing refl refl refl

letters-length : (n : ℕ) → utf8_length (replicate n 97) ≡ n
unfolding utf8_length
letters-length zero = refl
letters-length (suc zero) = refl
letters-length (suc (suc n)) = omega (arith, letters-length (suc n))

long_value : Text
long_value = replicate 122881 97

long_value-length : utf8_length long_value ≡ 122881
unfolding long_value
long_value-length = letters-length 122881

serve_put_oversized_example :
    let r =
      serve plain_json digest (request put (codes "a") (some long_value)) (alone empty_storage) in
    (r.0 ≡ ok (answer put_success (codes "a") (some long_value)))
    × (contents plain_json r.1 (codes "a") ≡ some long_value)
unfolding utf8_length is_delete long_value view get_kv_object lookup
serve_put_oversized_example =
    serve_put_oversized plain_json digest (codes "a") long_value (alone empty_storage)
      (record {
        started = refl;
        healthy = refl;
        connected = refl;
        responsible = alone-responsible empty_storage;
      })
      refl (omega arith, omega arith) (omega (arith, long_value-length)) refl refl

fast_mod_exp_lem_example : fast_mod_exp 3 5 7 ≡ some (3 ^ 5 % 7)
fast_mod_exp_lem_example = fast_mod_exp_lem 3 5 7 (omega arith)

-- A cipher that adds the key's length to every byte, and a sum in place of each digest.
abbrev shift : ℕ → Bytes → Bytes
shift n [] = []
shift n (b ∷ bs) = (b + n) ∷ shift n bs

abbrev shift_back : ℕ → Bytes → Bytes
shift_back n [] = []
shift_back n (b ∷ bs) = (b - n) ∷ shift_back n bs

shift_back-shift : (n : ℕ) (bs : Bytes) → shift_back n (shift n bs) ≡ bs
shift_back-shift n [] = refl
shift_back-shift n (b ∷ bs) = rw (shift_back-shift n bs) (ap (λ x. x ∷ bs) (omega arith))

abbrev total : Bytes → ℕ
total [] = 0
total (b ∷ bs) = b + total bs

abbrev plain_crypto : Crypto
plain_crypto = record {
  serialize = write_message;
  deserialize = read_message;
  encrypt = λ key plain. shift (length key) plain;
  decrypt = λ key bytes. some (shift_back (length key) bytes);
  hmac = λ bytes key. total bytes ∷ total key ∷ [];
  sha256 = λ n. replicate 32 (n % 256);
  deserialize-serialize = read_message-write_message;
  decrypt-encrypt = λ key plain. ap some (shift_back-shift (length key) plain);
}

abbrev get_message : KvMessage
get_message = client (request get (codes "a") none)

session_example :
    (key : Bytes) × (other : Bytes) × (agreed_key plain_crypto.sha256 12 34 ≡ some key)
    × (agreed_key plain_crypto.sha256 34 12 ≡ some other)
    × (receive plain_crypto other (some (send plain_crypto key get_message))
        ≡ record { message = some get_message; logged = false })
session_example = session plain_crypto 12 34 get_message

receive_forged_example :
    receive plain_crypto
      (1 ∷ 2 ∷ [])
      (some (record { message = (send plain_crypto (1 ∷ 2 ∷ []) get_message).message; hmac = [] }))
    ≡ record { message = some get_message; logged = true }
unfolding send
receive_forged_example = receive_forged plain_crypto (1 ∷ 2 ∷ []) [] get_message (λ e. absurd cc)
