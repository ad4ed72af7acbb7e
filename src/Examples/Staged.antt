-- ===== src/Examples/Staged.antt =====
-- A file that is staged and written, two bytes in each write at most.
use rpi_fastbootd.Prelude.{
  ℕ, zero, suc, ◌≡◌, refl, sym, ap, ◌∙◌, true, Option, none, some, [], ◌∷◌, ◌++◌, arith, has_value,
  length, take,
}
use rpi_fastbootd.Prelude.Text.{Text, codes}
use rpi_fastbootd.Fastboot.Flash
use rpi_fastbootd.Fastboot.FileWrite.{FileSystem, write_file}
use rpi_fastbootd.Fastboot.FileWrite.Laws.{Appends, write_file_lem}
use rpi_fastbootd.Fastboot.FileWrite.Ends.{write_file_ends}

abbrev short_write : Text → Text → Option ℕ × Text
short_write s w = (some (length (take 2 s)), w ++ take 2 s)

-- A file system with one file.
abbrev one_file : FileSystem Text
one_file = record {
  create = λ path mode w. (some 3, []);
  fchmod = λ fd mode w. (true, w);
  fstat_mode = λ fd w. (some 384, w);
  write = λ fd s w. short_write s w;
  fsync = λ fd w. (true, w);
  close = λ fd w. (true, w);
  errno = λ w. 0;
  strerror = λ e. [];
}

take-length : (n : ℕ) (s : Text) → take (length (take n s)) s ≡ take n s
take-length zero s = refl
take-length (suc n) [] = refl
take-length (suc n) (c ∷ s) = ap (λ t. c ∷ t) (take-length n s)

one_file-Appends : Appends one_file
one_file-Appends = record {
  contents = λ w. w;
  create_empty = λ path mode w fd e. refl;
  write_appends =
      λ fd s w n e. ap (λ t. w ++ t) (sym (take-length 2 s) ∙ ap (λ k. take k s) (same _ _ e));
  write_fails = λ fd s w e. absurd (cc e);
  fchmod_kept = λ fd mode w. refl;
  fstat_kept = λ fd w. refl;
  fsync_kept = λ fd w. refl;
  close_kept = λ fd w. refl;
}
  where
    same : (m n : ℕ) → some m ≡ some n → m ≡ n
    same m n e = cc e

abbrev staged : Text
staged = 7 ∷ 8 ∷ 9 ∷ []

writes : write_file one_file 3 (codes "/boot/key") staged (some 384) [] ≡ some (none, staged)
unfolding write_file Flash.drop
writes = refl

write_file_lem_example : one_file-Appends.contents staged ≡ staged
write_file_lem_example =
    write_file_lem one_file one_file-Appends 3 (codes "/boot/key") staged (some 384) [] staged
      writes

write_file_ends_example :
    has_value (write_file one_file 3 (codes "/boot/key") staged (some 384) []) ≡ true
write_file_ends_example =
    write_file_ends one_file (λ fd s w e. absurd (cc e)) 3 (codes "/boot/key") staged (some 384) []
      (omega arith)
