-- ===== src/Fildes/Tests.antt =====
-- Tables with one open file, and the theorems of file descriptors on them.
use brainix_old.Base.{◌≡◌, refl, none, some, update}
use brainix_old.Base.Int.{pos}
use brainix_old.Fildes.{Files, no_file, do_fs_dup, fildes_to_open_descr}
use brainix_old.Fildes.Lowest.{Duplicated, do_fs_dup_lem}

abbrev opened : Files
opened = record {
  file_ptr = update (λ p. no_file) 0 (record no_file { inode_ptr = some 2; count = 1 });
  root_dir = λ p. none;
  work_dir = λ p. none;
  cmask = λ p. 0;
  open_descr = update (λ p k. none) 0 (update (λ k. none) 0 (some 0));
}

opened_0 : fildes_to_open_descr opened (pos 0) ≡ some 0
unfolding fildes_to_open_descr
opened_0 = refl

do_fs_dup_lem_example : Duplicated opened 0 (do_fs_dup opened (pos 0))
do_fs_dup_lem_example = do_fs_dup_lem opened (pos 0) 0 opened_0
