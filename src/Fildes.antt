-- ===== src/Fildes.antt =====
-- File descriptors: src/fs/fildes.c, and the part of do_fs_close (src/fs/open.c) that changes the
-- tables of that file. An `inode_t *` is a number, a `file_ptr_t *` an index into `file_ptr`, and an
-- `off_t` its 32-bit word. An error number is also left in `err_code`. `OPEN_DESCR(fildes)` is
-- `fs_proc[fildes].open_descr[fildes]`, as inc/fs/fildes.h has it: it does not depend on the caller.
pub mod Lowest
mod Tests
use brainix_old.Base.{
  ℕ, zero, suc, ◌+◌, ◌%◌, ◌^◌, Bool, true, false, not, ◌&&◌, Option, none, some, ltb, ◌==◌,
  if◌then◌else◌, update,
}
use brainix_old.Base.Table.{first_where}
use brainix_old.Base.Int.{ℤ, pos, negsuc}
use brainix_old.Process.{num_procs}

abbrev pub num_file_ptrs : ℕ
num_file_ptrs = 128

abbrev pub open_max : ℕ
open_max = 20

abbrev pub ebadf : ℕ
ebadf = 8

abbrev pub einval : ℕ
einval = 28

abbrev pub emfile : ℕ
emfile = 33

abbrev pub enfile : ℕ
enfile = 41

pub record FilePtr : Type 0 where
  pub inode_ptr : Option ℕ
  pub count : ℕ
  pub offset : ℕ
  pub status : ℕ
  pub mode : ℕ

-- The tables `file_ptr` and `fs_proc`.
pub record Files : Type 0 where
  pub file_ptr : ℕ → FilePtr
  pub root_dir : ℕ → Option ℕ
  pub work_dir : ℕ → Option ℕ
  pub cmask : ℕ → ℕ
  pub open_descr : ℕ → ℕ → Option ℕ

-- What a call returns; `fault` is a dereference of NULL or a write outside a table.
pub data Reply : Type 0 where
  done failed : ℕ → Reply
  fault : Reply

abbrev pub no_file : FilePtr
no_file = record { inode_ptr = none; count = 0; offset = 0; status = 0; mode = 0 }

unfoldable pub descr_init : Files → Files
descr_init s = record {
  file_ptr = λ k. if ltb k num_file_ptrs then no_file else s.file_ptr k;
  root_dir = λ p. if ltb p num_procs then none else s.root_dir p;
  work_dir = λ p. if ltb p num_procs then none else s.work_dir p;
  cmask = λ p. if ltb p num_procs then 0 else s.cmask p;
  open_descr = λ p k.
      if ltb p num_procs
      then (if ltb k open_max then none else s.open_descr p k)
      else s.open_descr p k;
}

abbrev pub descr : Files → ℕ → Option ℕ
descr s k = s.open_descr k k

abbrev pub set_descr : Files → ℕ → Option ℕ → Files
set_descr s k p = record s { open_descr = update s.open_descr k (update (s.open_descr k) k p) }

abbrev pub is_null : Option ℕ → Bool
is_null none = true
is_null (some p) = false

abbrev pub free_descr : Files → Option ℕ
free_descr s = first_where (λ k. is_null (descr s k)) 0 open_max

abbrev pub free_file : Files → Option ℕ
free_file s = first_where (λ k. (s.file_ptr k).count == 0) 0 num_file_ptrs

pub get_with : Files → Option ℕ → Option ℕ → Reply × Files
get_with s none file = (failed emfile, s)
get_with s (some k) none = (failed enfile, s)
get_with s (some k) (some p) = (done k, set_descr s k (some p))

unfoldable pub descr_get : Files → Reply × Files
unfolding get_with first_where
descr_get s = get_with s (free_descr s) (free_file s)

unfoldable pub descr_put : Files → ℤ → Files
descr_put s (negsuc k) = s
descr_put s (pos k) = if ltb k open_max then set_descr s k none else s

unfoldable pub fildes_to_open_descr : Files → ℤ → Option ℕ
fildes_to_open_descr s (negsuc k) = none
fildes_to_open_descr s (pos k) = if ltb k open_max then descr s k else none

-- The outer result is none for a dereference of NULL.
unfoldable pub fildes_to_inode : Files → ℤ → Option (Option ℕ)
fildes_to_inode s (negsuc k) = some none
fildes_to_inode s (pos k) =
    if ltb k open_max
    then elim (descr s k) [ none ↦ none | some p ↦ some (s.file_ptr p).inode_ptr ]
    else some none

-- The descriptor k becomes one more for the file pointer p.
pub dup_at : Files → (p k : ℕ) → Reply × Files
dup_at s p k =
    let t = set_descr s k (some p) in
    let f = t.file_ptr p in
    (
      done k,
      record t { file_ptr = update t.file_ptr p (record f { count = (f.count + 1) % 2 ^ 8 }) },
    )

pub dup_with : Files → (p : ℕ) → Option ℕ → Reply × Files
unfolding dup_at
dup_with s p none = (failed emfile, s)
dup_with s p (some k) = dup_at s p k

-- F_DUPFD for the file pointer p. The descriptor `arg` is not checked.
pub dup_fd : Files → (p : ℕ) → ℤ → Reply × Files
unfolding dup_with dup_at first_where
dup_fd s p (pos zero) = dup_with s p (free_descr s)
dup_fd s p (pos (suc k)) = if ltb (suc k) open_max then dup_at s p (suc k) else (fault, s)
dup_fd s p (negsuc k) = (fault, s)

-- F_DUPFD is 0. The other commands do nothing.
pub fcntl_with : Files → (cmd : ℕ) → ℤ → Option ℕ → Reply × Files
unfolding dup_fd
fcntl_with s cmd arg none = (failed ebadf, s)
fcntl_with s cmd arg (some p) = if cmd == 0 then dup_fd s p arg else (failed einval, s)

unfoldable pub do_fs_fcntl : Files → ℤ → (cmd : ℕ) → ℤ → Reply × Files
unfolding fcntl_with
do_fs_fcntl s fildes cmd arg = fcntl_with s cmd arg (fildes_to_open_descr s fildes)

unfoldable pub do_fs_dup : Files → ℤ → Reply × Files
do_fs_dup s fildes = do_fs_fcntl s fildes 0 (pos 0)

-- What `do_fs_close` does to the tables, for the process `from`.
unfoldable pub close_files : Files → (from : ℕ) → ℕ → Files
close_files s from k = elim (s.open_descr from k) [
  | none ↦ s
  | some p ↦
      descr_put
        (if (s.file_ptr p).count == 1
          then record s { file_ptr = update s.file_ptr p no_file }
          else s)
        (pos k)
]

abbrev same_file : Option ℕ → Option ℕ → Bool
same_file none q = false
same_file (some p) none = false
same_file (some p) (some q) = p == q

unfoldable pub do_fs_dup2 : Files → (from : ℕ) → ℤ → ℤ → Reply × Files
do_fs_dup2 s from fildes (negsuc k) = (failed ebadf, s)
do_fs_dup2 s from (negsuc j) (pos k) = (failed ebadf, s)
do_fs_dup2 s from (pos j) (pos k) =
    if not (ltb k open_max && ltb j open_max)
    then (failed ebadf, s)
    else if same_file (descr s j) (descr s k)
    then (done k, s)
    else do_fs_fcntl (close_files s from k) (pos j) 0 (pos k)

pub seek_to : Files → (p : ℕ) → (start offset : ℕ) → Reply × Files
seek_to s p start offset =
    let here = (start + offset) % 2 ^ 32 in
    (
      done here,
      record s { file_ptr = update s.file_ptr p (record (s.file_ptr p) { offset = here }) },
    )

pub seek_with : (i_size : ℕ → ℕ) → Files → (offset whence : ℕ) → Option ℕ → Reply × Files
unfolding seek_to
seek_with i_size s offset whence none = (failed ebadf, s)
seek_with i_size s offset whence (some p) =
    if whence == 0
    then seek_to s p (s.file_ptr p).offset offset
    else if whence == 1
    then elim (s.file_ptr p).inode_ptr [
      | none ↦ (fault, s)
      | some i ↦ seek_to s p (i_size i) offset
    ]
    else if whence == 2
    then seek_to s p 0 offset
    else (failed einval, s)

-- `i_size` is the field of the inodes.
unfoldable pub do_fs_lseek : (i_size : ℕ → ℕ) → Files → ℤ → (offset whence : ℕ) → Reply × Files
unfolding seek_with
do_fs_lseek i_size s fildes offset whence =
    seek_with i_size s offset whence (fildes_to_open_descr s fildes)
