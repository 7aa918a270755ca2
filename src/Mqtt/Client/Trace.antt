-- ===== src/Mqtt/Client/Trace.antt =====
-- _trace, startTrace and stopTrace: a buffer of the last entries.
use distributed_storage_with.Base.{
  ℕ, zero, suc, ◌+◌, List, [], ◌∷◌, ◌++◌, Option, none, some, if◌then◌else◌, nat_eq, length,
}

-- An argument of _trace. What is not undefined is printed by JSON.stringify, except the first.
pub data Argument {ℓ} (A : Type ℓ) : Type ℓ where
  undefined : Argument A
  given : A → Argument A

-- What stands in the buffer: an argument as it is, or two spaces and its JSON
pub data Entry {ℓ} (A : Type ℓ) : Type ℓ where
  plain : Argument A → Entry A
  printed : A → Entry A

-- _MAX_TRACE_ENTRIES
unfoldable pub max_trace_entries : ℕ
max_trace_entries = 100

module _ {ℓ} {A : Type ℓ} where
  abbrev pub shift : List (Entry A) → List (Entry A)
  shift [] = []
  shift (x ∷ xs) = xs

  abbrev pub push_within : ℕ → Entry A → List (Entry A) → List (Entry A)
  push_within limit entry buffer =
      (if nat_eq (length buffer) limit then shift buffer else buffer) ++ entry ∷ []

  unfoldable pub push_entry : Entry A → List (Entry A) → List (Entry A)
  unfolding max_trace_entries
  push_entry = push_within max_trace_entries

  abbrev pub entry_of : ℕ → Argument A → Entry A
  entry_of zero argument = plain argument
  entry_of (suc i) undefined = plain undefined
  entry_of (suc i) (given a) = printed a

  -- The loop over the arguments, from the one with number `i` on
  unfoldable pub trace_from : ℕ → List (Argument A) → List (Entry A) → List (Entry A)
  unfolding push_entry
  trace_from i [] buffer = buffer
  trace_from i (a ∷ arguments) buffer =
      trace_from (i + 1) arguments (push_entry (entry_of i a) buffer)

  -- _trace; there is no buffer while nothing is traced.
  abbrev pub trace : List (Argument A) → Option (List (Entry A)) → Option (List (Entry A))
  trace arguments none = none
  trace arguments (some buffer) = some (trace_from 0 arguments buffer)

  -- startTrace and stopTrace
  abbrev pub start_trace : List (Argument A) → Option (List (Entry A)) → Option (List (Entry A))
  start_trace arguments none = trace arguments (some [])
  start_trace arguments (some buffer) = trace arguments (some buffer)

  abbrev pub stop_trace : Option (List (Entry A)) → Option (List (Entry A))
  stop_trace buffer = none
