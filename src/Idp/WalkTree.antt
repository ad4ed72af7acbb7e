-- ===== src/Idp/WalkTree.antt =====
-- IDPparser::walkTree of rpiidp/src/parser.cpp: numbers and type codes of the partitions.
pub mod Kept
pub mod Numbers
use rpi_fastbootd.Prelude.{
  ℕ, zero, suc, ◌+◌, ◌-◌, ◌*◌, ◌/◌, ◌%◌, ◌^◌, ◌≤◌, ◌<◌, ◌≡◌, refl, sym, ap, subst, ◌∙◌, fun_ext,
  ◌≢◌, ◌↔◌, ◌⊎◌, inl, inr, Bool, true, false, not, ◌&&◌, ◌||◌, Option, none, some, List, [], ◌∷◌,
  ◌++◌, map, append_assoc, append-nil, arith, ltb, leb, ◌==◌, if◌then◌else◌, ltb→lt, le→leb, ==_iff,
  Bool-cases, Option-cases, has_value, u64_mod, u64, if-elim, length, get_elem?, set, take,
  length-append, length-take, length-set, get_elem?-set_self, get_elem?-set_ne, get_elem?-lt-length,
  get_elem?-eq-none, ℕ_discrete,
}
use rpi_fastbootd.Prelude.Text.{
  Text, codes, text_eq, text_eq_sound, text_eq_refl, is_empty, is_digit, decimal, decimal_fuel,
  digits_value, digits_value-decimal, decimal-injective, to_lower, starts_with, contains,
  after_last_slash,
}
use rpi_fastbootd.Idp.Luks.{Luks}
use rpi_fastbootd.Idp.Storage.{PtableType, dos, gpt}
use rpi_fastbootd.Idp.Partition.{IdpPartition, same_index, is_root, is_crypt_container}

-- snprintf(label, 36, "rpi-crypt%02d", n)
unfoldable pub fallback_label : ℕ → Text
fallback_label n = codes "rpi-crypt" ++ (if ltb n 10 then codes "0" ++ decimal n else decimal n)

abbrev label_of : Option Luks → Option Text
label_of none = none
label_of (some l) = l.label

-- The type code and the GPT label of a container, and the next fallback number.
unfoldable pub label_container : PtableType → ℕ → IdpPartition → IdpPartition × ℕ
unfolding fallback_label
label_container dos crypt_num p = (record p { typecode = some (codes "0x83") }, crypt_num)
label_container gpt crypt_num p =
    let p' : IdpPartition = record p {
      typecode = some (codes "0fc63daf-8483-4772-8e79-3d69d8477de4");
    } in
    elim (label_of p.luks) [
      | some label ↦ (record p' { gptlabel = some label }, crypt_num)
      | none ↦ (record p' { gptlabel = some (fallback_label crypt_num) }, crypt_num + 1)
    ]

-- The inner loop: children of the partition at `i` are numbered from `child_num` on.
unfoldable pub number_children : Option ℕ → ℕ → List IdpPartition → List IdpPartition
number_children i child_num [] = []
number_children i child_num (c ∷ all) =
    if same_index c.parent_index i
    then record c { num = child_num } ∷ number_children i (child_num + 1) all
    else c ∷ number_children i child_num all

-- One root partition: its number, and the attributes of a container.
unfoldable pub number_root : PtableType → ℕ → ℕ → IdpPartition → IdpPartition × ℕ
unfolding label_container
number_root table root_num crypt_num p =
    let p' : IdpPartition = record p { num = root_num } in
    if is_crypt_container p' then label_container table crypt_num p' else (p', crypt_num)

-- The body of the outer loop at `p`, which stands at `pos`: the partitions and both counters.
unfoldable pub visit :
    PtableType → ℕ → ℕ → ℕ → List IdpPartition → IdpPartition → List IdpPartition × ℕ × ℕ
unfolding number_root number_children
visit table pos root_num crypt_num all p =
    if is_root p
    then (
      number_children p.index 1 (set all pos (number_root table root_num crypt_num p).0),
      root_num + 1,
      (number_root table root_num crypt_num p).1,
    )
    else (all, root_num, crypt_num)

-- The outer loop, at position `pos` with `rounds` partitions left.
unfoldable pub walk_from : PtableType → ℕ → ℕ → ℕ → ℕ → List IdpPartition → List IdpPartition
walk_from table zero pos root_num crypt_num all = all
walk_from table (suc rounds) pos root_num crypt_num all = elim (get_elem? all pos) [
  | none ↦ all
  | some p ↦
      let (all', root_num', crypt_num') = visit table pos root_num crypt_num all p in
      walk_from table rounds (suc pos) root_num' crypt_num' all'
]

-- IDPparser::walkTree
unfoldable pub walk_tree : PtableType → List IdpPartition → List IdpPartition
unfolding walk_from
walk_tree table all = walk_from table (length all) 0 1 1 all
