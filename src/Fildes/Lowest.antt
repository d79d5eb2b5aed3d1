-- ===== src/Fildes/Lowest.antt =====
-- Which descriptors are handed out: the lowest that are free.
use brainix_old.Base.{
  ℕ, ◌+◌, ◌%◌, ◌^◌, ◌≡◌, refl, Bool, false, Option, none, some, ◌==◌, arith, if◌then◌else◌,
}
use brainix_old.Base.Int.{ℤ, pos}
use brainix_old.Base.Table.{First, first_where-First}
use brainix_old.Fildes.{
  Files, Reply, done, failed, fault, descr, set_descr, is_null, free_descr, free_file, get_with,
  descr_get, do_fs_dup, do_fs_fcntl, fcntl_with, dup_fd, dup_with, dup_at, fildes_to_open_descr,
  open_max, num_file_ptrs, emfile, enfile,
}

abbrev pub unused : Files → ℕ → Bool
unused s k = is_null (descr s k)

abbrev pub unreferenced : Files → ℕ → Bool
unreferenced s p = (s.file_ptr p).count == 0

-- What `descr_get` may come to.
abbrev pub Given : Files → Reply × Files → Type 0
Given s (done k, t) =
    First (unused s) 0 open_max (some k)
    × ((p : ℕ) × First (unreferenced s) 0 num_file_ptrs (some p) × (t ≡ set_descr s k (some p)))
Given s (failed e, t) =
    (t ≡ s)
    × (if e == emfile
        then First (unused s) 0 open_max none
        else (e ≡ enfile) × First (unreferenced s) 0 num_file_ptrs none)
Given s (fault, t) = ⊥

get_with-Given :
    (s : Files) (k p : Option ℕ)
    → First (unused s) 0 open_max k
    → First (unreferenced s) 0 num_file_ptrs p
    → Given s (get_with s k p)
unfolding get_with
get_with-Given s none p fk fp = (refl, fk)
get_with-Given s (some k) none fk fp = (refl, (refl, fp))
get_with-Given s (some k) (some p) fk fp = (fk, (p, fp, refl))

-- `descr_get` hands out the lowest descriptor that is free, for the first file pointer without a
-- reference, and changes nothing else. It fails with EMFILE only if every descriptor is in use, and
-- otherwise with ENFILE only if every file pointer is, and then nothing has changed.
pub descr_get_lem : (s : Files) → Given s (descr_get s)
unfolding descr_get
descr_get_lem s =
    get_with-Given s (free_descr s) (free_file s) (first_where-First (unused s) 0 open_max)
      (first_where-First (unreferenced s) 0 num_file_ptrs)

-- What duplicating the descriptor of the file pointer p may come to.
abbrev pub Duplicated : Files → (p : ℕ) → Reply × Files → Type 0
Duplicated s p (done k, t) =
    First (unused s) 0 open_max (some k)
    × (fildes_to_open_descr t (pos k) ≡ some p)
    × ((j : ℕ) → (j == k) ≡ false → descr t j ≡ descr s j)
    × ((t.file_ptr p).count ≡ ((s.file_ptr p).count + 1) % 2 ^ 8)
    × ((q : ℕ) → (q == p) ≡ false → t.file_ptr q ≡ s.file_ptr q)
Duplicated s p (failed e, t) = (t ≡ s) × (e ≡ emfile) × First (unused s) 0 open_max none
Duplicated s p (fault, t) = ⊥

dup_with-Duplicated :
    (s : Files) (p : ℕ) (k : Option ℕ)
    → First (unused s) 0 open_max k
    → Duplicated s p (dup_with s p k)
unfolding dup_with dup_at fildes_to_open_descr
dup_with-Duplicated s p none f = (refl, refl, f)
dup_with-Duplicated s p (some k) f =
    (f, ground (arith, f.1), λ j ne. ground arith, ground arith, λ q ne. ground arith)

do_fs_dup-dup_with :
    (s : Files) (fildes : ℤ) (p : ℕ)
    → fildes_to_open_descr s fildes ≡ some p
    → do_fs_dup s fildes ≡ dup_with s p (free_descr s)
unfolding do_fs_dup do_fs_fcntl fcntl_with dup_fd
do_fs_dup-dup_with s fildes p e = rw e refl

-- Of a descriptor that is open, `do_fs_dup` makes the lowest descriptor that is free one more descriptor for the same file, and
-- counts one more reference; every other descriptor and file pointer stays as it was. It fails, with
-- EMFILE and no change, only if every descriptor is in use.
pub do_fs_dup_lem :
    (s : Files) (fildes : ℤ) (p : ℕ)
    → fildes_to_open_descr s fildes ≡ some p
    → Duplicated s p (do_fs_dup s fildes)
do_fs_dup_lem s fildes p e =
    rw (do_fs_dup-dup_with s fildes p e)
      (dup_with-Duplicated s p (free_descr s) (first_where-First (unused s) 0 open_max))
