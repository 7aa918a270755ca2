-- ===== src/Comm/KeyExchange.antt =====
-- The Diffie-Hellman exchange of CommModule: sendSecret, setKey, and the two ends of a connection.
use mathlib.Core.Option
use distributed_storage_with.Base.{ℕ, ◌≡◌, ◌<◌, ap, Option, some, List, take, ◌^◌, ◌%◌, arith}
use distributed_storage_with.Comm.Modular.{fast_mod_exp, fast_mod_exp_lem, fast_mod_exp_comm}

-- The bytes of an array.
abbrev pub Bytes : Type 0
Bytes = List ℕ

-- `g` and `p` of CommModule
abbrev pub generator : ℕ
generator = 2

pub group_prime : ℕ
group_prime =
    0xFFFFFFFFFFFFFFFFC90FDAA22168C234C4C6628B80DC1CD129024E088A67CC74020BBEA63B139B22514A08798E3404DDEF9519B3CD3A431B302B0A6DF25F14374FE1356D6D51C245E485B576625E7EC6F44C42E9A637ED6B0BFF5CB6F406B7EDEE386BFB5A899FA5AE9F24117C4B1FE649286651ECE45B3DC2007CB8A163BF0598DA48361C55D39A69163FA8FD24CF5F83655D23DCA3AD961C62F356208552BB9ED529077096966D670C354E4ABC9804F1746C08CA237327FFFFFFFFFFFFFFFF

group_prime_large : 1 < group_prime
unfolding group_prime
group_prime_large = omega arith

-- What sendSecret writes to the other end.
unfoldable pub public_value : ℕ → Option ℕ
public_value secret_int = fast_mod_exp generator secret_int group_prime

module _ (sha256 : ℕ → Bytes) where
  -- setKey: `sha256` is the SHA-256 digest of the bytes of a BigInteger, of which the first eight are
  -- the key.
  unfoldable pub set_key : ℕ → ℕ → Option Bytes
  set_key secret_int received =
      Option.map (λ shared. take 8 (sha256 shared)) (fast_mod_exp received secret_int group_prime)

  -- Each end gets the other's public value, and sets its key.
  unfoldable pub agreed_key : ℕ → ℕ → Option Bytes
  unfolding set_key public_value Option.bind Option.map
  agreed_key own other = Option.bind (public_value other) (set_key own)

  -- The exchange ends for all secrets, and the key is made from the power with both exponents.
  pub agreed_key_lem :
      (x y : ℕ)
      → agreed_key x y ≡ some (take 8 (sha256 ((generator ^ y % group_prime) ^ x % group_prime)))
  unfolding agreed_key Option.bind Option.map
  agreed_key_lem x y =
      rw (fast_mod_exp_lem generator y group_prime group_prime_large)
        (rw (fast_mod_exp_lem (generator ^ y % group_prime) x group_prime group_prime_large))

  -- Whatever secrets the two ends of a connection draw, they set the same key.
  pub agreed_key_comm : (x y : ℕ) → agreed_key x y ≡ agreed_key y x
  unfolding agreed_key Option.bind Option.map
  agreed_key_comm x y = rw (fast_mod_exp_lem generator y group_prime group_prime_large) (
      rw (fast_mod_exp_lem generator x group_prime group_prime_large) (
        ap (Option.map (λ shared. take 8 (sha256 shared)))
          (fast_mod_exp_comm generator y x group_prime group_prime_large)))
