-- ===== src/Ring/Assignment.antt =====
-- The loop of ECSClient.calc_metadata that gives every server its range: which entries it leaves
-- alone, and what the entries that it writes accept.
use distributed_storage_with.Base.{
  ℕ, ◌+◌, ◌-◌, ◌<◌, ◌≡◌, ◌≢◌, ◌⊎◌, refl, subst, ◌∙◌, Bool, true, false, List, [], ◌∷◌, none, some,
  arith, Bool-cases, Option-cases, inl, inr, pos, Text, Dict, lookup, insert, KeysOnce,
  lookup-insert, insert-KeysOnce, ok, All, nat_Eq, text_Eq, equals_refl,
}
use distributed_storage_with.Ring.Range.{
  parse_range, format_range, in_range, parse_range-format_range,
}
use distributed_storage_with.Ring.Metadata.{Metadata, range_start, assign_range, assign_ranges}
use distributed_storage_with.Ring.Sorting.{All-map}
use distributed_storage_with.Ring.Addresses.{IsHashed, IsPresent}

-- The range text reads as `start` and `end`, and the hash is between them on the ring.
pub record Accepts (range : Text) (h : ℕ) : Type 0 where
  pub start : ℕ
  pub end : ℕ
  pub parsed : parse_range range ≡ ok (start, end)
  pub inside : in_range start end (pos h) ≡ true

-- Some entry of the metadata accepts the hash.
pub record Covers (metadata : Metadata) (h : ℕ) : Type 0 where
  pub addr : Text
  pub range : Text
  pub entry : lookup addr metadata ≡ some range
  pub accepts : Accepts range h

-- Every range of the metadata can be read.
abbrev pub Readable : Metadata → Type 0
Readable metadata =
    (addr range : Text)
    → lookup addr metadata ≡ some range
    → (start : ℕ) × (end : ℕ) × (parse_range range ≡ ok (start, end))

range_start_pos :
    (first : Bool) (predecessor : ℕ)
    → (first ≡ true) ⊎ (0 < predecessor)
    → (start : ℕ) × (range_start first predecessor ≡ pos start)
unfolding range_start
range_start_pos true predecessor h = (predecessor + 1, refl)
range_start_pos false predecessor h = (predecessor - 1, ground arith)

insert-Readable :
    (b : Text) (start p : ℕ) (metadata : Metadata)
    → Readable metadata
    → Readable (insert b (format_range (pos start) p) metadata)
insert-Readable b start p metadata readable a range h = elim (Bool-cases (text_Eq.equals b a)) [
  | inl same ↦
      let e : format_range (pos start) p ≡ range =
        ground (arith, lookup-insert b a (format_range (pos start) p) metadata) in
      (start, p, subst (λ r. parse_range r ≡ ok (start, p)) e (parse_range-format_range start p))
  | inr other ↦
      readable a range (ground (arith, lookup-insert b a (format_range (pos start) p) metadata))
]

module _ (addrs : Dict ℕ Text) (first : Bool) (predecessor p : ℕ) (metadata : Metadata) where
  assign_range_missing :
      lookup p addrs ≡ none → assign_range addrs first predecessor p metadata ≡ metadata
  unfolding assign_range
  assign_range_missing h = rw (h, assign_range)

  assign_range_found :
      (b : Text)
      → lookup p addrs ≡ some b
      → assign_range addrs first predecessor p metadata
        ≡ insert b (format_range (range_start first predecessor) p) metadata
  unfolding assign_range
  assign_range_found b h = rw (h, assign_range)

module _ (hash : Text → ℕ) (addrs : Dict ℕ Text) (hashed : IsHashed hash addrs) where
  assign_range-frame :
      (first : Bool) (predecessor p : ℕ) (metadata : Metadata) (a : Text)
      → p ≢ hash a
      → lookup a (assign_range addrs first predecessor p metadata) ≡ lookup a metadata
  assign_range-frame first predecessor p metadata a ne = elim (Option-cases (lookup p addrs)) [
    | inl missing ↦ rw (assign_range_missing addrs first predecessor p metadata missing)
    | inr (b, found) ↦ rw (assign_range_found addrs first predecessor p metadata b found) (
        ground (
          arith,
          lookup-insert b a (format_range (range_start first predecessor) p) metadata,
          hashed p b found,
          text_Eq.equals_iff b a,
        ))
  ]

  -- The entry of an address whose position is not in the list is left alone.
  pub assign_ranges-frame :
      (first : Bool) (predecessor : ℕ) (ps : List ℕ) (metadata : Metadata) (a : Text)
      → All (λ p. p ≢ hash a) ps
      → lookup a (assign_ranges addrs first predecessor ps metadata) ≡ lookup a metadata
  unfolding assign_ranges
  assign_ranges-frame first predecessor [] metadata a ne = refl
  assign_ranges-frame first predecessor (p ∷ ps) metadata a ne =
      assign_ranges-frame false p ps (assign_range addrs first predecessor p metadata) a ne.1
      ∙ assign_range-frame first predecessor p metadata a ne.0

  pub assign_ranges-KeysOnce :
      (first : Bool) (predecessor : ℕ) (ps : List ℕ) (metadata : Metadata)
      → KeysOnce metadata
      → KeysOnce (assign_ranges addrs first predecessor ps metadata)
  unfolding assign_ranges
  assign_ranges-KeysOnce first predecessor [] metadata h = h
  assign_ranges-KeysOnce first predecessor (p ∷ ps) metadata h =
      assign_ranges-KeysOnce false p ps (assign_range addrs first predecessor p metadata)
        (elim (Option-cases (lookup p addrs)) [
          | inl missing ↦ rw (assign_range_missing addrs first predecessor p metadata missing) h
          | inr (b, found) ↦
              rw (assign_range_found addrs first predecessor p metadata b found)
                (insert-KeysOnce b (format_range (range_start first predecessor) p) metadata h)
        ])

  assign_range-Readable :
      (first : Bool) (predecessor p : ℕ) (metadata : Metadata)
      → (first ≡ true) ⊎ (0 < predecessor)
      → Readable metadata
      → Readable (assign_range addrs first predecessor p metadata)
  assign_range-Readable first predecessor p metadata h readable =
      elim (Option-cases (lookup p addrs)) [
        | inl missing ↦
            rw (assign_range_missing addrs first predecessor p metadata missing) readable
        | inr (b, found) ↦
            let (start, begins) = range_start_pos first predecessor h in
            rw (assign_range_found addrs first predecessor p metadata b found, begins)
              (insert-Readable b start p metadata readable)
      ]

  pub assign_ranges-Readable :
      (first : Bool) (predecessor : ℕ) (ps : List ℕ) (metadata : Metadata)
      → (first ≡ true) ⊎ (0 < predecessor)
      → All (λ p. 0 < p) ps
      → Readable metadata
      → Readable (assign_ranges addrs first predecessor ps metadata)
  unfolding assign_ranges
  assign_ranges-Readable first predecessor [] metadata h positive readable = readable
  assign_ranges-Readable first predecessor (p ∷ ps) metadata h positive readable =
      assign_ranges-Readable false p ps (assign_range addrs first predecessor p metadata)
        (inr positive.0) positive.1 (assign_range-Readable first predecessor p metadata h readable)

  -- The first position of the list gets a range, which no later position overwrites.
  pub assign_ranges-Covers :
      (first : Bool) (predecessor p : ℕ) (ps : List ℕ) (metadata : Metadata) (start h : ℕ)
      → IsPresent hash addrs p
      → All (λ q. p < q) ps
      → range_start first predecessor ≡ pos start
      → in_range start p (pos h) ≡ true
      → (c : Covers (assign_ranges addrs first predecessor (p ∷ ps) metadata) h) × (hash c.addr ≡ p)
  unfolding assign_ranges
  assign_ranges-Covers first predecessor p ps metadata start h (b, found) above begins inside = (
    record {
      addr = b;
      range = format_range (pos start) p;
      entry =
          assign_ranges-frame false p ps (assign_range addrs first predecessor p metadata) b
            (All-map ps (λ q lt. λ e. absurd (omega (arith, hashed p b found))) above)
          ∙ rw
              (assign_range_found addrs first predecessor p metadata b found, begins, lookup-insert)
              (rw (equals_refl b));
      accepts = record {
        start = start;
        end = p;
        parsed = parse_range-format_range start p;
        inside = inside;
      };
    },
    hashed p b found,
  )
