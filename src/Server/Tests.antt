-- ===== src/Server/Tests.antt =====
-- A file system in which every process starts at the inode in slot 0, and the theorems on it.
use brainix_old.Base.{ℕ, ◌<◌, ◌≡◌, false, none, arith, Whenever}
use brainix_old.Fildes.{no_file}
use brainix_old.Inode.Tests.{sevens}
use brainix_old.Perm.Tests.{procs}
use brainix_old.Path.Tests.{dirs, at_root, no_memory, ls, ls_memory, ls_block}
use brainix_old.Server.{Env, State}
use brainix_old.Base.{true}
use brainix_old.Server.Calls.{run, link_call, Balanced, run-Balanced}
use brainix_old.Server.Users.{Rooted}
use brainix_old.Server.Mounted.{Mounting}
use brainix_old.Server.Once.{Once, table, mounting, unmounting, calls, calls-Once, mount-Mounted}
use brainix_old.Server.Mount.{mount}
use brainix_old.Server.{look_up, put}
use brainix_old.Path.{
  path_to_inode, walk, take_name, enter, search_dir, search_blocks, search_block, arrive, begins,
  cross_mount, search_entries, skip_slashes, starts_slash, walk_from,
}
use brainix_old.Perm.{perm}
use brainix_old.Super.{super_get, search_from}
use brainix_old.Inode.{
  block_find, with_block, descend, group_find, inode_get, inode_put, inode_rw, is_blk, is_chr,
  is_dir, raise,
}
use brainix_old.Block.{block_get, block_init, block_rw, block_put, transfer, recently_used}
use brainix_old.Ring.Walk.{ring_walk}
use brainix_old.Base.Table.{first_where}
use brainix_old.Device.{dev_to_maj_min, inode_to_dev}
use brainix_old.Server.Disk.{super_read}
use brainix_old.Server.Mount.{device_of, finish_mount, mount_on, mount_read, mounted_super}
use brainix_old.Server.Open.{dev_open_close}
use brainix_old.Ring.{insert_before, unlink}
use brainix_old.Block.{DevRw}
use brainix_old.Inode.{Bytes}
use brainix_old.Path.{Text, slash}
use brainix_old.Base.{refl, not, ◌&&◌, ◌||◌, Option, some, ◌==◌, if◌then◌else◌, [], ◌∷◌}

abbrev pub env : Env ℕ
env = record {
  dev_rw = sevens;
  driver_open = λ d pid min open_it. (d, 0);
  driver_rw = λ d pid min off size read b. (d, (b, size));
  now = 100;
  deep = 2;
  entries = 9;
  memory = no_memory;
  procs = procs;
  from = 5;
  super_user = false;
}

abbrev pub state : State ℕ
state = record {
  fs = dirs;
  files = record {
    file_ptr = λ p. no_file;
    root_dir = at_root;
    work_dir = at_root;
    cmask = λ p. 0;
    open_descr = λ p k. none;
  };
  driver_pid = λ k. k;
}

-- Device 9 has the root directory, with the special file "ls" for the device 513, and is mounted;
-- device 513 has a file system.
abbrev disk : DevRw ℕ Bytes
disk dev d read off buffer = (
  dev,
  (
    (if not read then buffer else if d == 9 then ls_block else λ a.
        if off == 1024
        then if a == 40
          then 100
          else if a == 56
          then 83
          else if a == 57
          then 239
          else if a == 58
          then 1
          else if a == 88
          then 128
          else 0
        else if (off == 2048) && (a == 8)
        then 5
        else 0),
    1024,
  ),
)

abbrev directory : Bytes
directory a =
    if a == 1 then 64 else if a == 26 then 1 else if a == 28 then 2 else if a == 40 then 7 else 0

abbrev special : Bytes
special a =
    if a == 1 then 96 else if a == 26 then 1 else if a == 40 then 1 else if a == 41 then 2 else 0

-- The super user.
abbrev pub super_env : Env ℕ
super_env = record env { dev_rw = disk; memory = ls_memory; super_user = true }

abbrev pub one_mounted : State ℕ
one_mounted = record state {
  fs = record {
    inode = λ k. record {
      raw = (if k == 0 then directory else special);
      dev = (if (k == 0) || (k == 3) then 9 else 0);
      ino = (if k == 0 then 2 else if k == 3 then 11 else 0);
      count = (if (k == 0) || (k == 3) then 1 else 0);
      mounted = false;
      dirty = false;
    };
    cache = record dirs.cache {
      supers = λ k. record (dirs.cache.supers k) { dev = if k == 0 then 9 else 0 };
    };
  };
}

abbrev root_path : Text
root_path = slash ∷ []

abbrev result : Option (ℕ × State ℕ) → ℕ
result none = 99
result (some (r, s)) = r

mount_done : result (mount super_env one_mounted ls root_path) ≡ 0
unfolding mount look_up path_to_inode walk take_name enter perm search_dir super_get search_blocks
    block_find search_block with_block block_get ring_walk block_init block_rw first_where block_put
    transfer dev_to_maj_min inode_to_dev descend group_find inode_get inode_put inode_rw is_blk
    is_chr is_dir raise arrive begins cross_mount search_entries skip_slashes starts_slash walk_from
    super_read device_of finish_mount mount_on mount_read mounted_super dev_open_close put
    search_from recently_used insert_before unlink
mount_done = refl

one_mounted-Once : Once (table super_env one_mounted)
one_mounted-Once = (λ j k lt lt' mounted eq. ground arith, λ j k m lt lt' e e'. ground arith)

calls-Once_example :
    Whenever
      (λ t. Once (table super_env t))
      (calls super_env (mounting ls root_path ∷ unmounting ls ∷ []) one_mounted)
calls-Once_example =
    calls-Once super_env (mounting ls root_path ∷ unmounting ls ∷ []) one_mounted one_mounted-Once

mount-Mounted_example :
    Whenever
      (Mounting super_env (table super_env one_mounted))
      (mount super_env one_mounted ls root_path)
mount-Mounted_example = mount-Mounted super_env one_mounted ls root_path

pub few_users : (j : ℕ) → (one_mounted.fs.inode j).count < 254
few_users j = ground arith

pub one_mounted-Rooted : Rooted super_env one_mounted
one_mounted-Rooted k at = (ground arith, ground arith)

run-Balanced_example :
    Whenever (Balanced super_env one_mounted) (run super_env (link_call ls root_path) one_mounted)
run-Balanced_example =
    run-Balanced super_env one_mounted few_users one_mounted-Rooted (link_call ls root_path)
