-- ===== src/Mqtt/Client/LastEntries.antt =====
-- The trace buffer holds the last entries.
use distributed_storage_with.Base.{
  ℕ, ◌+◌, ◌≤◌, ◌<◌, ◌≡◌, refl, sym, ap, ◌∙◌, true, false, List, [], ◌∷◌, ◌++◌, Option, none, some,
  inl, inr, if◌then◌else◌, ltb, ltb→lt, nat_eq, length, length-append, Bool-cases, arith,
}
use mathlib.Core.List.{append_assoc, append-nil}
use distributed_storage_with.Mqtt.Client.Trace.{
  Argument, Entry, max_trace_entries, shift, push_within, push_entry, entry_of, trace_from, trace,
  start_trace,
}

module _ {ℓ} {A : Type ℓ} where
  -- The last `limit` elements, or all
  abbrev pub newest : ℕ → List A → List A
  newest limit [] = []
  newest limit (x ∷ xs) = if ltb (length xs) limit then x ∷ xs else newest limit xs

  newest_all : (limit : ℕ) (xs : List A) → length xs ≤ limit → newest limit xs ≡ xs
  newest_all limit [] short = refl
  newest_all limit (x ∷ xs) short = ground (arith)

  pub length-newest : (limit : ℕ) (xs : List A) → length (newest limit xs) ≤ limit
  length-newest limit [] = omega arith
  length-newest limit (x ∷ xs) = ground (arith, length-newest limit xs)

module _ {ℓ} {A : Type ℓ} where
  newest_full :
      (limit : ℕ) (xs : List (Entry A)) → limit ≤ length xs → length (newest limit xs) ≡ limit
  newest_full limit [] full = omega arith
  newest_full limit (x ∷ xs) full = ground (arith, newest_full limit xs)

  shift-newest :
      (limit : ℕ) (e : Entry A) (xs : List (Entry A))
      → 0 < limit
      → limit ≤ length xs
      → shift (newest limit xs) ++ e ∷ [] ≡ newest limit (xs ++ e ∷ [])
  shift-newest limit e [] positive full = absurd (omega arith)
  shift-newest limit e (x ∷ xs) positive full = elim (Bool-cases (ltb (length xs) limit)) [
    | inl last_one ↦
        let count = length-append xs (e ∷ []) in
        let longer : ltb (length (xs ++ e ∷ [])) limit ≡ false =
          ground (arith, ltb→lt (length xs) limit last_one) in
        let all =
          newest_all limit (xs ++ e ∷ []) (ground (arith, ltb→lt (length xs) limit last_one)) in
        rw last_one (rw longer (sym all))
    | inr more ↦
        let count = length-append xs (e ∷ []) in
        let longer : ltb (length (xs ++ e ∷ [])) limit ≡ false = ground arith in
        rw more (rw longer (shift-newest limit e xs positive (ground arith)))
  ]

  push_within-newest :
      (limit : ℕ) (e : Entry A) (xs : List (Entry A))
      → 0 < limit
      → push_within limit e (newest limit xs) ≡ newest limit (xs ++ e ∷ [])
  push_within-newest limit e xs positive = elim (Bool-cases (ltb (length xs) limit)) [
    | inl short ↦
        let below = ltb→lt (length xs) limit short in
        let kept = newest_all limit xs (omega (arith, below)) in
        let room : nat_eq (length xs) limit ≡ false = ground (arith, below) in
        let count = length-append xs (e ∷ []) in
        let all = newest_all limit (xs ++ e ∷ []) (omega (arith, below, count)) in
        rw kept (rw room (sym all))
    | inr full ↦
        let above : limit ≤ length xs = ground arith in
        let whole : nat_eq (length (newest limit xs)) limit ≡ true =
          ground (arith, newest_full limit xs above) in
        rw whole (shift-newest limit e xs positive above)
  ]

  -- What a call of _trace writes
  abbrev pub entries_from : ℕ → List (Argument A) → List (Entry A)
  entries_from i [] = []
  entries_from i (a ∷ arguments) = entry_of i a ∷ entries_from (i + 1) arguments

  trace_from-newest :
      (i : ℕ) (arguments : List (Argument A)) (xs : List (Entry A))
      → trace_from i arguments (newest max_trace_entries xs)
        ≡ newest max_trace_entries (xs ++ entries_from i arguments)
  unfolding trace_from push_entry
  trace_from-newest i [] xs = ap (newest max_trace_entries) (sym (append-nil xs))
  trace_from-newest i (a ∷ arguments) xs =
      let positive : 0 < max_trace_entries = unfold max_trace_entries in omega arith in
      ap (trace_from (i + 1) arguments)
        (push_within-newest max_trace_entries (entry_of i a) xs positive)
      ∙ trace_from-newest (i + 1) arguments (xs ++ entry_of i a ∷ [])
      ∙ ap (newest max_trace_entries)
          (append_assoc xs (entry_of i a ∷ []) (entries_from (i + 1) arguments))

  -- Calls of _trace, one after the other, and all that they write
  abbrev pub traces : List (List (Argument A)) → Option (List (Entry A)) → Option (List (Entry A))
  traces [] buffer = buffer
  traces (arguments ∷ calls) buffer = traces calls (trace arguments buffer)

  abbrev pub all_entries : List (List (Argument A)) → List (Entry A)
  all_entries [] = []
  all_entries (arguments ∷ calls) = entries_from 0 arguments ++ all_entries calls

  traces-newest :
      (calls : List (List (Argument A))) (xs : List (Entry A))
      → traces calls (some (newest max_trace_entries xs))
        ≡ some (newest max_trace_entries (xs ++ all_entries calls))
  traces-newest [] xs = ap (λ ys. some (newest max_trace_entries ys)) (sym (append-nil xs))
  traces-newest (arguments ∷ calls) xs =
      ap (λ buffer. traces calls (some buffer)) (trace_from-newest 0 arguments xs)
      ∙ traces-newest calls (xs ++ entries_from 0 arguments)
      ∙ ap (λ ys. some (newest max_trace_entries ys))
          (append_assoc xs (entries_from 0 arguments) (all_entries calls))

  -- From startTrace on, whatever is traced, the buffer holds the last entries that were written, in their
  -- order: all of them up to _MAX_TRACE_ENTRIES, and never more than that.
  pub start_trace-newest :
      (first : List (Argument A)) (calls : List (List (Argument A)))
      → (traces calls (start_trace first none)
          ≡ some (newest max_trace_entries (all_entries (first ∷ calls))))
        × (length (newest max_trace_entries (all_entries (first ∷ calls))) ≤ max_trace_entries)
  start_trace-newest first calls = (
    traces-newest (first ∷ calls) [],
    length-newest max_trace_entries (all_entries (first ∷ calls)),
  )
