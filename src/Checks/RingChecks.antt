-- ===== src/Checks/RingChecks.antt =====
-- The hash ring at concrete inputs.
use distributed_storage_with.Base.{
  ◌<◌, ◌≡◌, refl, arith, [], ◌∷◌, ◌++◌, pos, negsuc, leb, false, ok, throw, number_format,
}
use distributed_storage_with.Radix.{natural_to_string}
use distributed_storage_with.Ring.Range.{
  in_range, parse_range, format_range, parse_range-format_range, parse_range-negative,
}
use distributed_storage_with.Ring.Circle.{distance, in_range_circular}
use distributed_storage_with.Ring.Metadata.{hash_list, sort, calc_metadata, range_start, node_addr}
use distributed_storage_with.Ring.Coverage.{IsRing}
use distributed_storage_with.Ring.Overlap.{AcceptsAt, calc_metadata_overlap}
use distributed_storage_with.Ring.Routing.{Routes, calc_metadata-Routes}
use distributed_storage_with.Checks.Fixtures.{digest, plain_order, three_nodes}

three_nodes-positions : hash_list digest three_nodes ≡ 642 ∷ 654 ∷ 666 ∷ []
unfolding hash_list node_addr natural_to_string
three_nodes-positions = refl

three_nodes-IsRing : IsRing digest three_nodes
three_nodes-IsRing = record {
  some_node = λ e. absurd cc;
  distinct =
      rw three_nodes-positions
        (((λ e. omega arith), ((λ e. omega arith), tt)), (((λ e. omega arith), tt), (tt, tt)));
  positive = rw three_nodes-positions (omega arith, (omega arith, (omega arith, tt)));
}

three_nodes-sorted : sort (hash_list digest three_nodes) ≡ [] ++ 642 ∷ 654 ∷ 666 ∷ []
unfolding sort
three_nodes-sorted = rw three_nodes-positions refl

calc_metadata-Routes_example : Routes plain_order (calc_metadata digest three_nodes) 700
calc_metadata-Routes_example =
    calc_metadata-Routes digest plain_order three_nodes 700 three_nodes-IsRing

calc_metadata_overlap_example :
    (642 < 654)
    × AcceptsAt digest (calc_metadata digest three_nodes) 642 642
    × AcceptsAt digest (calc_metadata digest three_nodes) 654 642
calc_metadata_overlap_example =
    calc_metadata_overlap digest three_nodes [] (666 ∷ []) 642 654 three_nodes-IsRing
      three_nodes-sorted

in_range_circular_example : in_range 900 100 (pos 50) ≡ leb (distance 900 50) (distance 900 100)
in_range_circular_example =
    in_range_circular 900 100 50 (omega arith) (omega arith) (omega arith) (λ e. omega arith)

parse_range-format_range_example : parse_range (format_range (pos 3000) 17) ≡ ok (3000, 17)
parse_range-format_range_example = parse_range-format_range 3000 17

parse_range-negative_example : parse_range (format_range (negsuc 0) 17) ≡ throw number_format
parse_range-negative_example = parse_range-negative 0 17

-- The start of a range after the position 0.
start_after_zero : range_start false 0 ≡ negsuc 0
unfolding range_start
start_after_zero = refl
