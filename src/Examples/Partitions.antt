-- ===== src/Examples/Partitions.antt =====
-- Runs on the partitions of a description.
use rpi_fastbootd.Prelude.{ℕ, ◌+◌, ◌%◌, ◌^◌, ◌≤◌, ◌<◌, ◌≡◌, refl, ◌≢◌, ◌⊎◌, true, none, some, arith}
use rpi_fastbootd.Prelude.Outcome.{ok, throw, overflow_error}
use rpi_fastbootd.Idp.Luks
use rpi_fastbootd.Idp.Partition.{get_size_fuel, container_size}
use rpi_fastbootd.Idp.Storage.{gpt, align_up, block_dev}
use rpi_fastbootd.Idp.Storage.Align.{align_up_lem, block_dev-AreDistinct}
use rpi_fastbootd.Idp.Partition.{links, IsNested, get_size, own_size, add_children}
use rpi_fastbootd.Idp.Partition.Size.{AllAligned, get_size-total, get_size-eq-sum, SumOfChildren}
use rpi_fastbootd.Idp.WalkTree.{walk_tree}
use rpi_fastbootd.Idp.WalkTree.Numbers.{num_at-walk_tree_child}
use rpi_fastbootd.Idp.WalkTree.Numbers.Links.{num_at}
use rpi_fastbootd.Examples.Fixtures.{test_partitions, test_storage, container_part, inner_part}

test_partitions-IsNested : IsNested 0 (links test_partitions)
test_partitions-IsNested =
    (refl, (λ j h. cc), (refl, (λ j h. cc), (refl, (λ j h. ground arith), tt)))

test_partitions-AllAligned : AllAligned test_partitions
test_partitions-AllAligned = (tt, (omega arith, (tt, tt)))

get_size-total_example : (n : ℕ) × (get_size true test_partitions container_part ≡ ok n)
get_size-total_example =
    get_size-total true test_partitions container_part 1 test_partitions-IsNested
      test_partitions-AllAligned refl (omega arith) (omega arith)

sums : SumOfChildren (get_size true test_partitions) 1 test_partitions 1048576
unfolding get_size get_size_fuel add_children own_size
sums = (1048576, 0, refl, refl, refl)

alone : own_size true container_part ≡ ok 18874368
unfolding own_size container_size Luks.header_size Luks.align_up Luks.raw_header_size
alone = refl

get_size-eq-sum_example :
    get_size true test_partitions container_part ≡ ok ((18874368 + 1048576) % 2 ^ 64)
get_size-eq-sum_example =
    get_size-eq-sum true test_partitions container_part 1 18874368 1048576 test_partitions-IsNested
      refl (omega arith) alone (omega arith) sums

num_at-walk_tree_child_example : num_at (walk_tree gpt test_partitions) 2 ≡ some 1
num_at-walk_tree_child_example =
    num_at-walk_tree_child gpt test_partitions 2 inner_part test_partitions-IsNested refl 1
      container_part refl refl refl

align_up_lem_example :
    ((2 ^ 64 < 1000 + 1048576) × (align_up test_storage 1000 ≡ throw overflow_error))
    ⊎ ((1000 + 1048576 ≤ 2 ^ 64)
        × ((r : ℕ) × (align_up test_storage 1000 ≡ ok r)
            × (r % 1048576 ≡ 0)
            × (1000 ≤ r)
            × (r < 1000 + 1048576)))
align_up_lem_example = align_up_lem test_storage 1000 (omega arith) (omega arith)

block_dev-AreDistinct_example :
    (block_dev test_storage (some 1) ≢ block_dev test_storage (some 12))
    × (block_dev test_storage (some 1) ≢ block_dev test_storage none)
block_dev-AreDistinct_example =
    block_dev-AreDistinct test_storage 1 12 (omega arith) (omega arith)
      (λ e. absurd (omega (arith, e)))
