-- ===== src/Idp/Device/Capacity.antt =====
-- The size that IDPdevice compares with the capacity of the storage.
use rpi_fastbootd.Prelude.{
  ℕ, ◌+◌, ◌%◌, ◌^◌, ◌≤◌, ◌<◌, ◌≡◌, refl, ap, ◌∙◌, ◌↔◌, inl, inr, true, not, ◌&&◌, some, List, [],
  ◌∷◌, arith, leb, ◌==◌, if◌then◌else◌, Bool-cases, u64_mod, u64,
}
use rpi_fastbootd.Prelude.Outcome.{Outcome-cases, Fault, ok, throw}
use rpi_fastbootd.Idp.Storage.{Storage}
use rpi_fastbootd.Idp.Partition.{IdpPartition, is_root, get_size}
use rpi_fastbootd.Idp.Device.Validate.{
  compute_image_storage_size, add_roots, table_size, capacity_bytes, validate_device_storage,
}
use rpi_fastbootd.Idp.Device.Platform.{Parser, Platform, Device}

-- The sum of the sizes of the root partitions in unbounded numbers, where each has one.
abbrev pub SumOfRoots : List IdpPartition → List IdpPartition → ℕ → Type 0
SumOfRoots all [] total = total ≡ 0
SumOfRoots all (p ∷ rest) total =
    if is_root p
    then ((n m : ℕ) × (get_size true all p ≡ ok n) × SumOfRoots all rest m × (total ≡ n + m))
    else SumOfRoots all rest total

wrap_sum : (size n m total : ℕ) → total ≡ n + m → u64 (u64 (size + n) + m) ≡ u64 (size + total)
wrap_sum size n m total e = omega arith

add_roots-mod :
    (all rest : List IdpPartition) (total size : ℕ)
    → size < u64_mod
    → SumOfRoots all rest total
    → add_roots all rest size ≡ ok (u64 (size + total))
unfolding add_roots
add_roots-mod all [] total size h e = ground arith
add_roots-mod all (p ∷ rest) total size h e = elim (Bool-cases (is_root p)) [
  | inl top ↦
      let (n, m, own, more, sum) = rw top at e in
      rw (top, own)
        (add_roots-mod all rest m (u64 (size + n)) (omega arith) more
          ∙ ap ok (wrap_sum size n m total sum))
  | inr inner ↦ rw inner (add_roots-mod all rest total size h (rw inner at e))
]

-- When every root partition has a size, the image size is the sum of their sizes and of the
-- partition table's, modulo 2^64.
pub compute_image_storage_size-mod :
    (s : Storage) (all : List IdpPartition) (total : ℕ)
    → SumOfRoots all all total
    → compute_image_storage_size s all ≡ ok (u64 (total + table_size s))
unfolding compute_image_storage_size
compute_image_storage_size-mod s all total e =
    rw (add_roots-mod all all total 0 (omega arith) e) (ap ok (omega arith))

-- A sum that is computed is one of partitions that each have a size.
add_roots-inv :
    (all rest : List IdpPartition) (size n : ℕ)
    → size < u64_mod
    → add_roots all rest size ≡ ok n
    → (total : ℕ) × SumOfRoots all rest total × (n ≡ u64 (size + total))
unfolding add_roots
add_roots-inv all [] size n h e = (0, refl, ground arith)
add_roots-inv all (p ∷ rest) size n h e = elim (Bool-cases (is_root p)) [
  | inr inner ↦ rw inner (add_roots-inv all rest size n h (rw inner at e))
  | inl top ↦ elim (Outcome-cases (get_size true all p)) [
    | inr (x, thrown) ↦ absurd (clash (rw (top, thrown) at e))
    | inl (m, own) ↦
        let (total, more, sum) =
          add_roots-inv all rest (u64 (size + m)) n (omega arith) (rw (top, own) at e) in
        rw top
          (m + total, (m, total, own, more, refl), sum ∙ wrap_sum size m total (m + total) refl)
  ]
]
  where
    clash : {x : Fault} → throw x ≡ ok n → ⊥
    clash e = cc

pub compute_image_storage_size-inv :
    (s : Storage) (all : List IdpPartition) (n : ℕ)
    → compute_image_storage_size s all ≡ ok n
    → (total : ℕ) × SumOfRoots all all total × (n ≡ (total + table_size s) % 2 ^ 64)
unfolding compute_image_storage_size
compute_image_storage_size-inv s all n e = elim (Outcome-cases (add_roots all all 0)) [
  | inr (x, thrown) ↦ absurd (clash (rw thrown at e))
  | inl (m, added) ↦
      let (total, sum, wraps) = add_roots-inv all all 0 m (omega arith) added in
      (total, sum, wrapped total m wraps (rw added at e))
]
  where
    clash : {x : Fault} → throw x ≡ ok n → ⊥
    clash e = cc

    wrapped :
        (total m : ℕ)
        → m ≡ u64 (0 + total)
        → ok (u64 (m + table_size s)) ≡ ok n
        → n ≡ (total + table_size s) % 2 ^ 64
    wrapped total m wraps e = let same : u64 (m + table_size s) ≡ n = cc e in omega arith

fits_exact :
    (capacity n : ℕ)
    → (ok (not (capacity == 0) && leb n capacity) ≡ ok true) ↔ ((0 < capacity) × (n ≤ capacity))
fits_exact capacity n = ground arith

-- When every root partition has a size and the capacity of the storage is known, the storage
-- check passes exactly when the capacity is not zero and the sum of all sizes, modulo 2^64, is at
-- most the capacity.
pub validate_device_storage_exact :
    {P : Parser} {World : Type 0} (p : Platform World) (d : Device P) (w : World)
    (total capacity : ℕ)
    → SumOfRoots d.partitions d.partitions total
    → capacity_bytes p d.image.device_storage w ≡ some capacity
    → ((validate_device_storage p d w).0 ≡ ok true)
      ↔ ((0 < capacity) × ((total + table_size d.image.device_storage) % 2 ^ 64 ≤ capacity))
unfolding validate_device_storage
validate_device_storage_exact p d w total capacity sum known =
    rw
      (
        known,
        compute_image_storage_size-mod d.image.device_storage d.partitions total sum,
        validate_device_storage,
      )
      (fits_exact capacity (u64 (total + table_size d.image.device_storage)))
