-- ===== src/Perm.antt =====
-- Permissions: src/fs/perm.c, over the inode table and the process table. `from` is the process
-- that sent the message, `super_user` the flag that src/fs/main.c sets for it, and `found` the
-- inode that path_to_inode() gives for the path, none for NULL. No result is a fault of inode_put.
pub mod Grant
pub mod Tests
use Prim.Native.Nat.{bit_and, bit_or}
use brainix_old.Base.{
  ℕ, ◌+◌, ◌-◌, ◌*◌, ◌/◌, ◌%◌, ◌^◌, Bool, true, false, ◌&&◌, ◌||◌, not, Option, none, some, ◌==◌,
  if◌then◌else◌, update, ◌>>=◌,
}
pub use brainix_old.Base.Bytes.{set_half}
use brainix_old.Process.{Proc, Procs}
use brainix_old.Block.{DevRw}
use brainix_old.Inode.{Fs, Inode, Bytes, i_mode, i_uid, i_gid, set_word, set_inode, inode_put}

abbrev pub f_ok : ℕ
f_ok = 0

abbrev pub eacces : ℕ
eacces = 2

abbrev pub eperm : ℕ
eperm = 62

-- (uid_t) -1 and (gid_t) -1
abbrev pub no_id : ℕ
no_id = 2 ^ 32 - 1

-- S_ISUID | S_ISGID | S_IRWXU | S_IRWXG | S_IRWXO
abbrev pub perm_bits : ℕ
perm_bits = 3583

-- What a system call returns: 0, or minus an error number, which for `unresolved` is err_code as
-- path_to_inode() left it.
pub data Answer : Type 0 where
  success : Answer
  failed : ℕ → Answer
  unresolved : Answer

-- Which three bits of the mode count: the last test that succeeds decides.
pub permitted : Inode → (gid uid : ℕ) → ℕ
permitted i gid uid =
    if uid == i_uid i
    then i_mode i / 64 % 8
    else if gid == i_gid i
    then i_mode i / 8 % 8
    else i_mode i % 8

unfoldable pub perm :
    Procs
    → (from : ℕ) → (super_user : Bool) → Option Inode
    → (requested : ℕ) → (access : Bool) → Bool
unfolding permitted
perm s from super_user none requested access = false
perm s from super_user (some i) requested access =
    let p = s.proc from in
    let bits = permitted i (if access then p.gid else p.egid) (if access then p.uid else p.euid) in
    super_user || (bit_or requested bits == bits)

module _ {Dev : Type 0} (dev_rw : DevRw Dev Bytes) (now : ℕ) where
  -- inode_put(), and what is returned then.
  abbrev pub put_and : Fs Dev → Option ℕ → Answer → Option (Answer × Fs Dev)
  put_and s ip a = do s' ← inode_put dev_rw now s ip; some (a, s')

  module _ (procs : Procs) (from : ℕ) (super_user : Bool) where
    unfoldable pub do_fs_access :
        Fs Dev → (found : Option ℕ) → (amode : ℕ) → Option (Answer × Fs Dev)
    do_fs_access s none amode = put_and s none unresolved
    do_fs_access s (some k) amode = put_and s (some k) (
        if (amode == f_ok) || perm procs from super_user (some (s.inode k)) amode true
        then success
        else failed eacces)

    -- The new mode, with S_ISGID cleared for a caller of another group.
    pub new_mode : Inode → (mode : ℕ) → ℕ
    new_mode i mode =
        let m = mode % 2 ^ 16 in
        if not super_user && not ((procs.proc from).egid == i_gid i)
        then m - m / 1024 % 2 * 1024
        else m

    -- The access rights, the time of the change, and the mark.
    unfoldable pub chmoded : Inode → (mode : ℕ) → Inode
    unfolding new_mode
    chmoded i mode = record i {
      raw = set_word (set_half i.raw 0 (new_mode i mode)) 12 now;
      dirty = true;
    }

    unfoldable pub do_fs_chmod : Fs Dev → (found : Option ℕ) → (mode : ℕ) → Option (Answer × Fs Dev)
    unfolding chmoded
    do_fs_chmod s none mode = put_and s none unresolved
    do_fs_chmod s (some k) mode =
        if not super_user && not ((procs.proc from).euid == i_uid (s.inode k))
        then put_and s (some k) (failed eperm)
        else put_and (set_inode s k (chmoded (s.inode k) mode)) (some k) success

    unfoldable pub chowned : Inode → (owner group : ℕ) → Inode
    chowned i owner group =
        let uid = (if owner == no_id then i_uid i else owner) in
        let gid = (if group == no_id then i_gid i else group) in
        let raw = set_half (set_half i.raw 2 uid) 24 gid in
        if (owner == no_id) && (group == no_id)
        then record i { raw = raw }
        else record i { raw = set_word raw 12 now; dirty = true }

    unfoldable pub do_fs_chown :
        Fs Dev → (found : Option ℕ) → (owner group : ℕ) → Option (Answer × Fs Dev)
    unfolding chowned
    do_fs_chown s none owner group = put_and s none unresolved
    do_fs_chown s (some k) owner group =
        let euid = (procs.proc from).euid in
        if not super_user && not (euid == i_uid (s.inode k))
        then put_and s (some k) (failed eperm)
        else if not super_user && not (euid == owner)
        then put_and s (some k) (failed eperm)
        else put_and (set_inode s k (chowned (s.inode k) owner group)) (some k) success

-- The masks of all processes, and the old mask.
unfoldable pub do_fs_umask : (cmask : ℕ → ℕ) → (from : ℕ) → (mask : ℕ) → (ℕ → ℕ) × ℕ
do_fs_umask cmask from mask =
    let old = cmask from in
    (update cmask from (bit_or (old - bit_and old perm_bits) (bit_and mask perm_bits)), old)
