-- ===== src/Fastboot/Flash/Erase.antt =====
-- What EraseHandler does, and which paths the handlers come to.
use rpi_fastbootd.Prelude.{
  ◌≡◌, refl, ap, subst, ◌∙◌, ◌⊎◌, inl, inr, true, false, not, ◌||◌, none, some, List, ◌∷◌, ◌++◌,
  arith, if◌then◌else◌, if-elim,
}
use rpi_fastbootd.Prelude.Text.{Text, codes, starts_with, contains}
use rpi_fastbootd.Parted.Fdisk.{Kernel}
use rpi_fastbootd.Parted.Reread.{reread_fd}
use rpi_fastbootd.Idp.Device.Platform.{Parser}
use rpi_fastbootd.Fastboot.Transport.{Transport, FastbootDevice, okay}
use rpi_fastbootd.Fastboot.Transfer.{answer, get_device_lock_status}
use rpi_fastbootd.Fastboot.Files.{
  Files, no_fd, size_or_zero, find_physical_partition, open_partition, new_handle,
  get_block_device_size, wipe_block_device,
}
use rpi_fastbootd.Fastboot.Flash.{Sparse}
use rpi_fastbootd.Fastboot.Flash.Handler.{erase_handle, erase_handler}

starts_with-dev : (name : Text) → starts_with (codes "/dev/" ++ name) (codes "/dev") ≡ true
unfolding starts_with codes
starts_with-dev name = refl

contains-dev :
    (name : Text)
    → starts_with name (codes "../") || contains name (codes "/../") ≡ false
    → contains (codes "/dev/" ++ name) (codes "/../") ≡ false
unfolding contains starts_with codes
contains-dev name plain = ground (arith, plain)

module _ {World : Type 0} (files : Files World) where
  -- A path that FindPhysicalPartition gives is the name, or the name behind "/dev/". It begins with
  -- the characters "/dev", has "/../" nowhere, so it goes up a directory at most with its last
  -- component, and can be written to.
  pub find_physical_partition-IsInside :
      (name path : Text) (w : World)
      → find_physical_partition files name w ≡ some path
      → ((path ≡ name) ⊎ (path ≡ codes "/dev/" ++ name))
        × (contains path (codes "/../") ≡ false)
        × (starts_with path (codes "/dev") ≡ true)
        × (files.is_writable path w ≡ true)
  unfolding find_physical_partition
  find_physical_partition-IsInside name path w =
      if-elim (λ r. r ≡ some path → Inside)
        (starts_with name (codes "../") || contains name (codes "/../")) (λ _ e. absurd (cc e))
        (λ plain.
          if-elim (λ r. r ≡ some path → Inside) (not (files.is_writable made w))
            (λ _ e. absurd (cc e))
            (λ writable e.
              let same : made ≡ path = cc e in
              (
                subst (λ p. (p ≡ name) ⊎ (p ≡ codes "/dev/" ++ name)) same from_name,
                subst (λ p. contains p (codes "/../") ≡ false) same (stays plain),
                subst (λ p. starts_with p (codes "/dev") ≡ true) same in_dev,
                subst (λ p. files.is_writable p w ≡ true) same (ground (arith, writable)),
              )))
    where
      made : Text
      made = if starts_with name (codes "/dev") then name else codes "/dev/" ++ name

      Inside : Type 0
      Inside =
          ((path ≡ name) ⊎ (path ≡ codes "/dev/" ++ name))
          × (contains path (codes "/../") ≡ false)
          × (starts_with path (codes "/dev") ≡ true)
          × (files.is_writable path w ≡ true)

      from_name : (made ≡ name) ⊎ (made ≡ codes "/dev/" ++ name)
      from_name =
          if-elim (λ p. (p ≡ name) ⊎ (p ≡ codes "/dev/" ++ name)) (starts_with name (codes "/dev"))
            (λ _. inl refl) (λ _. inr refl)

      stays :
          starts_with name (codes "../") || contains name (codes "/../") ≡ false
          → contains made (codes "/../") ≡ false
      stays plain =
          if-elim (λ p. contains p (codes "/../") ≡ false) (starts_with name (codes "/dev"))
            (λ _. ground (arith, plain)) (λ _. contains-dev name plain)

      in_dev : starts_with made (codes "/dev") ≡ true
      in_dev =
          if-elim (λ p. starts_with p (codes "/dev") ≡ true) (starts_with name (codes "/dev"))
            (λ e. e) (λ _. starts_with-dev name)

  wipe_no_fd :
      (w : World) → files.get_size64 no_fd w ≡ none → wipe_block_device files no_fd w ≡ (true, w)
  unfolding wipe_block_device get_block_device_size
  wipe_no_fd w closed = rw (ap size_or_zero closed) refl

  pub open_partition_lem :
      (name path : Text) (w : World)
      → find_physical_partition files name w ≡ some path
      → open_partition files name w ≡ some (new_handle path)
  unfolding open_partition starts_with codes
  open_partition_lem name path w found = rw found refl

module _ {P : Parser} {World : Type 0} (t : Transport World) (files : Files World)
    (sparse : Sparse World) (k : Kernel World) where
  erase_new_handle :
      (path : Text) (args : List Text) (fb : FastbootDevice P) (w : World)
      → files.get_size64 no_fd w ≡ none
      → erase_handle t files sparse k (some (new_handle path)) args fb w
        ≡ answer t okay (codes "Erasing succeeded") fb (reread_fd k no_fd 5 w).1
  unfolding erase_handle
  erase_new_handle path args fb w closed = rw (wipe_no_fd files w closed) refl

  -- EraseHandler answers that erasing has succeeded for each partition that is there, and has
  -- discarded nothing: OpenPartition opens no file, and the size of no file is 0. Only the partition
  -- table of no file has been asked for.
  pub erase_handler_erases_nothing :
      (name partition_name : Text) (args : List Text) (fb : FastbootDevice P) (w : World)
      (path : Text)
      → files.get_size64 no_fd w ≡ none
      → find_physical_partition files (codes "/dev/" ++ partition_name) w ≡ some path
      → erase_handler t files sparse k (name ∷ partition_name ∷ args) fb w
        ≡ answer t okay (codes "Erasing succeeded") fb (reread_fd k no_fd 5 w).1
  unfolding erase_handler get_device_lock_status
  erase_handler_erases_nothing name partition_name args fb w path closed found =
      ap (λ h. erase_handle t files sparse k h args fb w)
        (open_partition_lem files (codes "/dev/" ++ partition_name) path w found)
      ∙ erase_new_handle path args fb w closed
