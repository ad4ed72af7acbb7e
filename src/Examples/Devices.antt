-- ===== src/Examples/Devices.antt =====
-- Runs of an IDPdevice.
use rpi_fastbootd.Prelude.{
  ℕ, ◌+◌, ◌%◌, ◌^◌, ◌≤◌, ◌<◌, ◌≡◌, refl, ◌↔◌, true, none, some, List, [], ◌∷◌,
}
use rpi_fastbootd.Prelude.Text.{
  codes, text_eq, decimal, to_lower, starts_with, contains, after_last_slash,
}
use rpi_fastbootd.Prelude.Outcome.{ok}
use rpi_fastbootd.Idp.Luks
use rpi_fastbootd.Idp.Luks.{Luks}
use rpi_fastbootd.Idp.Partition.{IdpPartition, get_size}
use rpi_fastbootd.Idp.Device.Platform.{Device, ready, config, partitioned, luks_parted_open}
use rpi_fastbootd.Parted.Reread.{reread_dev}
use rpi_fastbootd.Idp.Storage.{block_dev, base_dev}
use rpi_fastbootd.Idp.Partition.{add_children, container_size, get_size_fuel, own_size}
use rpi_fastbootd.Idp.Device.Validate.{capacity_bytes, validate_device_storage, table_size}
use rpi_fastbootd.Idp.Device.Physical.{init_physical_partitions, table_name, attributes}
use rpi_fastbootd.Idp.Partition.{has_children}
use rpi_fastbootd.Parted.Ops.{open_device, create_partition_table, append_partition, commit}
use rpi_fastbootd.Parted.Device.{size_in_sectors}
use rpi_fastbootd.Idp.Device.Lifecycle.{start_provision}
use rpi_fastbootd.Idp.Device.Capacity.{SumOfRoots, validate_device_storage_exact}
use rpi_fastbootd.Idp.Device.Hidden.{Unopenable, start_provision-hides_failure}
use rpi_fastbootd.Examples.Fixtures.{
  test_platform, test_partitions, parser_of, device_of, test_storage, container_part, inner_part,
  test_luks,
}

abbrev configured : Device (parser_of test_partitions)
configured = device_of test_partitions config

abbrev container_bytes : ℕ
container_bytes = 16777216 + 2097152 + 1048576

roots_sum : SumOfRoots test_partitions test_partitions (1048576 + container_bytes)
unfolding get_size get_size_fuel add_children own_size container_size Luks.header_size Luks.align_up
    Luks.raw_header_size
roots_sum = (1048576, container_bytes, refl, (container_bytes, 0, refl, refl, refl), refl)

known_capacity : capacity_bytes test_platform test_storage 0 ≡ some 1024000000
unfolding capacity_bytes after_last_slash block_dev base_dev codes contains starts_with
known_capacity = refl

validate_device_storage_exact_example :
    ((validate_device_storage test_platform configured 0).0 ≡ ok true) ↔ (
      (0 < 1024000000)
      × ((1048576 + container_bytes + table_size test_storage) % 2 ^ 64 ≤ 1024000000))
validate_device_storage_exact_example =
    validate_device_storage_exact test_platform configured 0 (1048576 + container_bytes) 1024000000
      roots_sum known_capacity

-- A container alone, with the one partition inside it.
abbrev sealed : List IdpPartition
sealed =
    record container_part { index = some 0 }
    ∷ record inner_part { index = some 1; parent_index = some 0 }
    ∷ []

abbrev sealed_ready : Device (parser_of sealed)
sealed_ready = device_of sealed ready

physical_done :
    init_physical_partitions test_platform test_storage sealed 0 ≡ (ok (true, none), sealed, 0)
unfolding init_physical_partitions open_device starts_with codes block_dev create_partition_table
    text_eq to_lower table_name attributes get_size Luks.header_size append_partition
    size_in_sectors commit reread_dev decimal
physical_done = refl

unopenable :
    Unopenable test_platform test_storage
      (record container_part { index = some 0 })
      test_luks
      sealed
      0
      tt
unfolding has_children open_device starts_with codes Luks.block_dev
unopenable = record {
  is_container = refl;
  is_partitioned = refl;
  with_children = refl;
  created = refl;
  opened = refl;
  has_context = refl;
  unopened = refl;
}

start_provision-hides_failure_example :
    let (verdict, d', w2) = start_provision test_platform sealed_ready 0 in
    (verdict ≡ ok (true, some (luks_parted_open (Luks.block_dev test_luks (some 0)))))
    × (d'.state ≡ partitioned)
    × (d'.partitions ≡ sealed)
start_provision-hides_failure_example =
    start_provision-hides_failure test_platform sealed_ready 0 0
      (record container_part { index = some 0 })
      (record inner_part { index = some 1; parent_index = some 0 } ∷ []) test_luks tt none refl
      physical_done unopenable
