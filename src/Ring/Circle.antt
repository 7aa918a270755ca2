-- ===== src/Ring/Circle.antt =====
-- The range test of the servers and clients against the circle of hashes.
use distributed_storage_with.Base.{
  ℕ, ◌+◌, ◌-◌, ◌%◌, ◌^◌, ◌≤◌, ◌<◌, ◌≡◌, ◌≢◌, arith, leb, pos, true, Bool-cases, inl, inr,
}
use distributed_storage_with.Ring.Range.{in_range}

-- The number of MD5 digests.
abbrev pub circle : ℕ
circle = 2 ^ 128

-- How far it is from one position to another, clockwise.
abbrev pub distance : ℕ → ℕ → ℕ
distance from to = (to + circle - from) % circle

distance_up : (from to : ℕ) → from ≤ to → to < circle → distance from to ≡ to - from
distance_up from to h k = omega arith

distance_round : (from to : ℕ) → to < from → from < circle → distance from to ≡ to + circle - from
distance_round from to h k = omega arith

-- Between two distinct positions of the circle, the test accepts exactly the hashes that one meets on
-- the way clockwise from the first to the second, both included.
pub in_range_circular :
    (start end h : ℕ)
    → start < circle
    → end < circle
    → h < circle
    → start ≢ end
    → in_range start end (pos h) ≡ leb (distance start h) (distance start end)
unfolding in_range
in_range_circular start end h s e k ne = elim (Bool-cases (leb start h)) [
  | inl up ↦ elim (Bool-cases (leb start end)) [
    | inl up' ↦
        rw (distance_up start h (ground arith) k, distance_up start end (ground arith) e)
          (ground arith)
    | inr round' ↦
        rw (distance_up start h (ground arith) k, distance_round start end (ground arith) s)
          (ground arith)
  ]
  | inr round ↦ elim (Bool-cases (leb start end)) [
    | inl up' ↦
        rw (distance_round start h (ground arith) s, distance_up start end (ground arith) e)
          (ground arith)
    | inr round' ↦
        rw (distance_round start h (ground arith) s, distance_round start end (ground arith) s)
          (ground arith)
  ]
]

-- A range that begins where it ends accepts every hash, where a walk from the position to itself
-- would meet that position only.
pub in_range_same : (position h : ℕ) → in_range position position (pos h) ≡ true
unfolding in_range
in_range_same position h = ground arith
