-- ===== src/Idp/Partition.antt =====
-- struct IDPpartition of rpiidp/include/idpparser.h, with its methods of rpiidp/src/parser.cpp.
pub mod Size
use rpi_fastbootd.Prelude.{
  ℕ, zero, suc, ◌+◌, ◌-◌, ◌*◌, ◌/◌, ◌%◌, ◌^◌, ◌≤◌, ◌<◌, ◌≡◌, refl, sym, ap, subst, ◌∙◌, fun_ext,
  ◌≢◌, ◌↔◌, ◌⊎◌, inl, inr, Bool, true, false, not, ◌&&◌, ◌||◌, Option, none, some, List, [], ◌∷◌,
  ◌++◌, map, append_assoc, append-nil, arith, ltb, leb, ◌==◌, if◌then◌else◌, ltb→lt, le→leb, ==_iff,
  Bool-cases, Option-cases, has_value, u64_mod, u64, if-elim, length, get_elem?, set, take,
  length-append, length-take, length-set, get_elem?-set_self, get_elem?-set_ne, get_elem?-lt-length,
  get_elem?-eq-none, ℕ_discrete,
}
use rpi_fastbootd.Prelude.Text.{
  Text, codes, text_eq, text_eq_sound, text_eq_refl, is_empty, is_digit, decimal, decimal_fuel,
  digits_value, digits_value-decimal, decimal-injective, to_lower, starts_with, contains,
  after_last_slash,
}
use rpi_fastbootd.Prelude.Outcome.{
  Outcome, Outcome-cases, Fault, ok, throw, deref, overflow_error, invalid_argument, out_of_range,
  logic_error, div_by_zero, bad_optional, runtime_error, stack_exhausted, ◌>>=◌, ◌>>◌,
}
use rpi_fastbootd.Idp.Luks.{Luks, EncapType, raw, partitioned, header_size}

-- `index` and `parent_index` are -1 where they are `none`.
pub record IdpPartition : Type 0 where
  pub expand_to_fit : Bool
  pub num : ℕ
  pub img : Option Text
  pub simg : Option Text
  pub size : ℕ
  pub aligned_size : ℕ
  pub typecode : Option Text
  pub gptlabel : Option Text
  pub gptuuid : Option Text
  pub luks : Option Luks
  pub index : Option ℕ
  pub parent_index : Option ℕ
  pub blkdev : Option Text

-- The comparison of two indices.
abbrev pub same_index : Option ℕ → Option ℕ → Bool
same_index none none = true
same_index (some i) (some j) = i == j
same_index _ _ = false

-- IDPpartition::isCryptContainer
abbrev pub is_crypt_container : IdpPartition → Bool
is_crypt_container p = has_value p.luks

-- The test `getParentIndex() == -1`.
abbrev pub is_root : IdpPartition → Bool
is_root p = not (has_value p.parent_index)

abbrev is_crypt_at : Option IdpPartition → Bool
is_crypt_at none = false
is_crypt_at (some q) = is_crypt_container q

-- IDPpartition::isEncrypted, from the index of the parent on.
abbrev is_encrypted_by : Option ℕ → List IdpPartition → Bool
is_encrypted_by none all = false
is_encrypted_by (some i) all = is_crypt_at (get_elem? all i)

-- IDPpartition::isEncrypted
unfoldable pub is_encrypted : IdpPartition → List IdpPartition → Bool
is_encrypted p all = is_encrypted_by p.parent_index all

-- IDPpartition::hasChildren
unfoldable pub has_children : IdpPartition → List IdpPartition → Bool
has_children p [] = false
has_children p (c ∷ all) = same_index c.parent_index p.index || has_children p all

-- The loop of IDPpartition::foreachChild with the callback of getSize: `child_size` is the
-- recursive call.
unfoldable pub add_children :
    (IdpPartition → Outcome ℕ) → Option ℕ → List IdpPartition → ℕ → Outcome ℕ
add_children child_size i [] total = ok total
add_children child_size i (c ∷ all) total =
    if same_index c.parent_index i
    then (do s ← child_size c; add_children child_size i all (u64 (total + s)))
    else add_children child_size i all total

-- What a container of this kind holds besides its children.
unfoldable pub container_size : Luks → Outcome ℕ
container_size l = do
  header ← header_size l
  ok (elim l.etype [ raw ↦ header | partitioned ↦ u64 (header + l.p_alignment_bytes * 2) ])

-- The first half of IDPpartition::getSize: the partition without its children.
unfoldable pub own_size : Bool → IdpPartition → Outcome ℕ
unfolding container_size
own_size aligned p = elim p.luks [
  | some l ↦ container_size l
  | none ↦ ok (if aligned then p.aligned_size else p.size)
]

-- IDPpartition::getSize with the partitions at hand; the fuel is the depth of the stack.
unfoldable pub get_size_fuel : ℕ → Bool → List IdpPartition → IdpPartition → Outcome ℕ
unfolding own_size add_children
get_size_fuel zero aligned all p = throw stack_exhausted
get_size_fuel (suc f) aligned all p = do
  total ← own_size aligned p
  add_children (get_size_fuel f aligned all) p.index all total

-- IDPpartition::getSize: no chain of children is longer than the list.
unfoldable pub get_size : Bool → List IdpPartition → IdpPartition → Outcome ℕ
unfolding get_size_fuel
get_size aligned all p = get_size_fuel (suc (length all)) aligned all p

-- The indices of the partitions: of each, its own and its parent's.
abbrev pub links : List IdpPartition → List (Option ℕ × Option ℕ)
links [] = []
links (p ∷ all) = (p.index, p.parent_index) ∷ links all

-- Every partition stands at its index, behind its parent; what IDPparser::parseIGv2 builds.
abbrev pub IsNested : ℕ → List (Option ℕ × Option ℕ) → Type 0
IsNested pos [] = Unit {0}
IsNested pos ((i, parent) ∷ ls) =
    (i ≡ some pos) × ((j : ℕ) → parent ≡ some j → j < pos) × IsNested (pos + 1) ls
