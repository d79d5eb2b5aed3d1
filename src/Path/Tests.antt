-- ===== src/Path/Tests.antt =====
-- The path "bin/ls" from the root directory, and the theorems on it.
use brainix_old.Base.{
  ℕ, ◌<◌, ◌≡◌, refl, true, false, Option, some, [], ◌∷◌, ◌==◌, arith, if◌then◌else◌,
}
use brainix_old.Inode.{Fs, Bytes}
use brainix_old.Inode.Tests.{sevens, fs}
use brainix_old.Perm.Tests.{procs}
use brainix_old.Path.{Text, path_to_inode, one_more, search_entries, starts_slash}
use brainix_old.Path.Components.{components, follow, path_to_inode_lem}
use brainix_old.Path.Search.{DirEntry, IsEntry, ino_of, search_entries_lem}

abbrev pub bin_ls : Text
bin_ls = b'b' ∷ b'i' ∷ b'n' ∷ b'/' ∷ b'l' ∷ b's' ∷ []

two_names : components bin_ls ≡ (b'b' ∷ b'i' ∷ b'n' ∷ [], true) ∷ (b'l' ∷ b's' ∷ [], false) ∷ []
unfolding components starts_slash
two_names = refl

-- Slot 0 has a directory with links, and everyone starts there.
abbrev pub dirs : Fs ℕ
dirs = record fs { inode = λ k. record (fs.inode k) { raw = λ a. 66 } }

abbrev pub at_root : ℕ → Option ℕ
at_root p = some 0

abbrev pub no_memory : Bytes
no_memory a = 0

path_to_inode_lem_example :
    path_to_inode sevens 100 2 9 no_memory procs 5 false at_root at_root dirs bin_ls
    ≡ follow sevens 100 2 9 no_memory procs 5 false
        (one_more sevens 100 2 9 no_memory procs 5 false dirs 0)
        0
        9
        0
        []
        (components bin_ls)
unfolding starts_slash
path_to_inode_lem_example =
    path_to_inode_lem sevens 100 2 9 no_memory procs 5 false at_root at_root dirs bin_ls 0
      (omega arith) (omega arith) refl (omega arith)

few_users : (j : ℕ) → (dirs.inode j).count < 255
few_users j = ground arith

-- A block with an entry for "ls", whose name stands at 100, and nothing behind it.
abbrev pub ls : Text
ls = b'l' ∷ b's' ∷ []

abbrev pub ls_memory : Bytes
ls_memory a = if a == 100 then b'l' else if a == 101 then b's' else 0

abbrev pub ls_block : Bytes
ls_block a =
    if a == 0 then 11 else if a == 4 then 12 else if a == 6 then 2 else if a == 8 then 100 else 0

abbrev ls_entry : DirEntry
ls_entry = record { name_len = 2; name = 100; inode = 11 }

ls-IsEntry : IsEntry ls_memory ls_block 0 ls_entry
ls-IsEntry = record {
  fits = omega arith;
  len = refl;
  named = refl;
  number = refl;
  used = omega arith;
}

search_entries_lem_example :
    search_entries 1 ls_memory ls_block 0 ls ≡ some (ino_of ls_memory ls_block ls (ls_entry ∷ []))
search_entries_lem_example =
    search_entries_lem ls_memory ls_block 1 0 ls ls_entry [] (ls-IsEntry, (omega arith, refl))
      (omega arith)
