-- ===== src/Ring/Range.antt =====
-- A range of the ring is written `start:end` in hexadecimal. Every reader splits the text at the
-- colon, puts a zero in front of either part and parses it (KVServer.inRange, KVServer.moveData,
-- KVStore.connectCorrServer, ECSClient.getNodeByKey).
use distributed_storage_with.Base.{
  ℕ, zero, suc, Bool-cases, inl, inr, nat_eq_iff, ◌≡◌, refl, subst, ◌≢◌, Bool, true, false, ◌&&◌,
  ◌||◌, List, [], ◌∷◌, ◌++◌, arith, nat_eq, ltb, if◌then◌else◌, ℤ, pos, negsuc, leb_ℤ, Text,
  index_out_of_bounds, number_format, Result, ok, throw, ◌>>=◌, All,
}
use distributed_storage_with.Radix.{
  to_string16, parse16, parse16-to_string16, parse16-negative, natural_to_string-All,
  natural_to_string-cons,
}

is_empty : {A : Type 0} → List A → Bool
is_empty [] = true
is_empty (x ∷ xs) = false

add_front : ℕ → List Text → List Text
add_front c [] = (c ∷ []) ∷ []
add_front c (p ∷ ps) = (c ∷ p) ∷ ps

-- All pieces between colons, the empty ones too.
pieces : Text → List Text
pieces [] = [] ∷ []
pieces (c ∷ s) = let rest = pieces s in if nat_eq c b':' then [] ∷ rest else add_front c rest

drop_empty : List Text → List Text
drop_empty [] = []
drop_empty (p ∷ ps) =
    let rest = drop_empty ps in if is_empty p && is_empty rest then [] else p ∷ rest

split_kept : List Text → List Text
split_kept [] = []
split_kept (p ∷ []) = p ∷ []
split_kept (p ∷ q ∷ ps) = drop_empty (p ∷ q ∷ ps)

-- s.split(":"): trailing empty pieces are dropped, unless nothing was split.
unfoldable pub split_colon : Text → List Text
unfolding pieces add_front drop_empty is_empty split_kept
split_colon s = split_kept (pieces s)

-- parts[i]
unfoldable pub piece : ℕ → List Text → Result Text
piece i [] = throw index_out_of_bounds
piece zero (p ∷ ps) = ok p
piece (suc i) (p ∷ ps) = piece i ps

-- `rangeStart` and `rangeEnd`, in the order in which they are computed.
unfoldable pub parse_range : Text → Result (ℕ × ℕ)
unfolding split_colon piece
parse_range range = do
  first ← piece 0 (split_colon range)
  start ← parse16 first
  second ← piece 1 (split_colon range)
  end ← parse16 second
  ok (start, end)

-- The test of KVServer.inRange; compareTo(x) != -1 is "at least x", compareTo(x) != 1 "at most x".
unfoldable pub in_range : ℕ → ℕ → ℤ → Bool
in_range start end key_hash =
    if ltb start end
    then leb_ℤ (pos start) key_hash && leb_ℤ key_hash (pos end)
    else leb_ℤ (pos start) key_hash || leb_ℤ key_hash (pos end)

-- server_predecessor_pos.toString(16) + ":" + server_pos.toString(16)
unfoldable pub format_range : ℤ → ℕ → Text
format_range start end = to_string16 start ++ b':' ∷ to_string16 (pos end)

pieces-append : (s t : Text) → All (λ c. c ≢ b':') s → pieces (s ++ b':' ∷ t) ≡ s ∷ pieces t
unfolding pieces add_front
pieces-append [] t h = refl
pieces-append (c ∷ s) t h = elim (Bool-cases (nat_eq c b':')) [
  | inl colon ↦ absurd (h.0 ((nat_eq_iff c b':').0 colon))
  | inr other ↦ rw (other, pieces-append s t h.1)
]

pieces_single : (s : Text) → All (λ c. c ≢ b':') s → pieces s ≡ s ∷ []
unfolding pieces add_front
pieces_single [] h = refl
pieces_single (c ∷ s) h = elim (Bool-cases (nat_eq c b':')) [
  | inl colon ↦ absurd (h.0 ((nat_eq_iff c b':').0 colon))
  | inr other ↦ rw (other, pieces_single s h.1)
]

split_kept_two : (s t : Text) (c : ℕ) → split_kept (s ∷ (c ∷ t) ∷ []) ≡ s ∷ (c ∷ t) ∷ []
unfolding split_kept drop_empty is_empty
split_kept_two [] t c = refl
split_kept_two (d ∷ s) t c = refl

-- Two parts without a colon, the second of them not empty, are split where they were joined.
pub split_colon-append :
    (s t : Text) (c : ℕ)
    → All (λ c. c ≢ b':') s
    → All (λ c. c ≢ b':') (c ∷ t)
    → split_colon (s ++ b':' ∷ c ∷ t) ≡ s ∷ (c ∷ t) ∷ []
unfolding split_colon
split_colon-append s t c hs ht =
    rw (pieces-append s (c ∷ t) hs, pieces_single (c ∷ t) ht) (split_kept_two s t c)

-- `s` is any text without a colon.
split_colon-printed :
    (s : Text) (end : ℕ)
    → All (λ c. c ≢ b':') s
    → split_colon (s ++ b':' ∷ to_string16 (pos end)) ≡ s ∷ to_string16 (pos end) ∷ []
unfolding to_string16
split_colon-printed s end h =
    let (d, t, e) = natural_to_string-cons 16 end in
    rw e (
      split_colon-append s t d h
        (subst (All (λ c. c ≢ b':')) e (natural_to_string-All 16 end (omega arith) (omega arith))))

to_string16-All : (n : ℤ) → All (λ c. c ≢ b':') (to_string16 n)
unfolding to_string16
to_string16-All (pos n) = natural_to_string-All 16 n (omega arith) (omega arith)
to_string16-All (negsuc n) =
    (omega arith, natural_to_string-All 16 (suc n) (omega arith) (omega arith))

-- A range that begins at a natural number is read back as it was written.
pub parse_range-format_range :
    (start end : ℕ) → parse_range (format_range (pos start) end) ≡ ok (start, end)
unfolding parse_range format_range piece
parse_range-format_range start end =
    rw (split_colon-printed (to_string16 (pos start)) end (to_string16-All (pos start)))
      (rw (parse16-to_string16 start) (rw (parse16-to_string16 end)))

-- A range that begins below zero, as the predecessor position 0 minus one does, is not read back.
pub parse_range-negative :
    (n end : ℕ) → parse_range (format_range (negsuc n) end) ≡ throw number_format
unfolding parse_range format_range piece
parse_range-negative n end =
    rw (split_colon-printed (to_string16 (negsuc n)) end (to_string16-All (negsuc n)))
      (rw (parse16-negative n))
