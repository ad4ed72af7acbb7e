-- ===== src/Fastboot/Fetch/Laws.antt =====
-- What FetchHandler fetches.
use rpi_fastbootd.Prelude.{
  ℕ, zero, suc, ◌-◌, ◌≤◌, ◌≡◌, refl, ap, ◌∙◌, true, false, none, some, List, ◌∷◌, ◌++◌, arith,
}
use rpi_fastbootd.Prelude.Text.{Text, codes}
use Prim.Native.Nat.{min}
use rpi_fastbootd.Idp.Device.Platform.{Parser}
use rpi_fastbootd.Fastboot.Transport.{Transport, Base, FastbootDevice, okay, fail}
use rpi_fastbootd.Fastboot.Transfer.{answer, get_device_lock_status}
use rpi_fastbootd.Fastboot.Files.{
  Files, no_fd, size_or_zero, find_physical_partition, new_handle, get_block_device_size,
}
use rpi_fastbootd.Fastboot.Flash.Erase.{open_partition_lem}
use rpi_fastbootd.Fastboot.Fetch.{
  is_allowed, chunk_max, ended, open_sized, open_named, open_fetcher, send_chunk, fetch_loop,
  after_open, fetch_handler,
}

module _ {World : Type 0} (base : Base) (files : Files World) where
  open_named_new :
      (name path : Text) (args : List Text) (w : World)
      → files.get_size64 no_fd w ≡ none
      → open_named base files name (some (new_handle path)) args w
        ≡ ended okay (codes "Partition " ++ name ++ codes " has size 0")
  unfolding open_named open_sized get_block_device_size
  open_named_new name path args w closed = rw (ap size_or_zero closed) refl

module _ {P : Parser} {World : Type 0} (t : Transport World) (base : Base)
    (files : Files World) where
  -- Any fuel from the number of bytes on gives what the loop gives.
  fetch_loop_fuel :
      (fuel more fd remaining : ℕ) (fb : FastbootDevice P) (w : World)
      → remaining ≤ fuel
      → remaining ≤ more
      → fetch_loop t base files fuel fd remaining fb w
        ≡ fetch_loop t base files more fd remaining fb w
  unfolding fetch_loop
  fetch_loop_fuel zero zero fd remaining fb w h h' = refl
  fetch_loop_fuel zero (suc more) fd zero fb w h h' = refl
  fetch_loop_fuel zero (suc more) fd (suc remaining) fb w h h' = absurd (omega (arith, h))
  fetch_loop_fuel (suc fuel) zero fd zero fb w h h' = refl
  fetch_loop_fuel (suc fuel) zero fd (suc remaining) fb w h h' = absurd (omega (arith, h'))
  fetch_loop_fuel (suc fuel) (suc more) fd remaining fb w h h' =
      let (sent, fb1, w1) = send_chunk t base files fd (min chunk_max remaining) fb w in
      rw
        (fetch_loop_fuel fuel more fd (remaining - min chunk_max remaining) fb1 w1
          (ground (arith, h)) (ground (arith, h')))
        refl

  -- FetchHandler fetches no byte of a partition, though it may be fetched and is there. Built
  -- without FB_ENABLE_FETCH, as CMake builds it, it refuses and leaves the device alone; built with
  -- it, as Android.bp does, it answers that the partition has size 0, when the size of no file
  -- cannot be read: OpenPartition opens no file.
  pub fetch_handler_fetches_nothing :
      (command name path : Text) (args : List Text) (fb : FastbootDevice P) (w : World)
      → is_allowed name ≡ true
      → files.get_size64 no_fd w ≡ none
      → find_physical_partition files name w ≡ some path
      → (fetch_handler t base files false (command ∷ name ∷ args) fb w
          ≡ answer t fail (codes "Fetch is not allowed on user build") fb w)
        × (fetch_handler t base files true (command ∷ name ∷ args) fb w
            ≡ answer t okay (codes "Partition " ++ name ++ codes " has size 0") fb w)
  unfolding fetch_handler get_device_lock_status open_fetcher
  fetch_handler_fetches_nothing command name path args fb w allowed closed found =
      (refl, ap (λ o. after_open t base files o (command ∷ name ∷ args) fb w) opened)
    where
      opened :
          open_fetcher base files (command ∷ name ∷ args) w
          ≡ ended okay (codes "Partition " ++ name ++ codes " has size 0")
      opened = rw allowed (
          ap (λ h. open_named base files name h args w) (open_partition_lem files name path w found)
          ∙ open_named_new base files name path args w closed)
