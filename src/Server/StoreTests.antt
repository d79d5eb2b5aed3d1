-- ===== src/Server/StoreTests.antt =====
-- A changed superblock on a device that keeps what is written.
use brainix_old.Base.{
  ℕ, List, [], ◌∷◌, Option, some, none, inr, ◌≡◌, ◌≢◌, refl, true, ◌==◌, arith, if◌then◌else◌,
}
use brainix_old.Base.Bytes.{Bytes}
use brainix_old.Block.{Cache, block_init, block_off}
use brainix_old.Inode.Accesses.{Access, AllMounted, accesses, block_init-Stores}
use brainix_old.Inode.Ready.{Ready}
use brainix_old.Super.{super_get, search_from}
use brainix_old.Inode.Tests.{Disk, disk_rw, look, disk_rw-IsStore, unset}
use brainix_old.Path.Tests.{no_memory}
use brainix_old.Perm.Tests.{procs}
use brainix_old.Server.{Env}
use brainix_old.Server.Disk.{super_read, super_write}
use brainix_old.Server.WrittenBack.{ReadBack, Untouched, super_read-write}

abbrev env : Env Disk
env = record {
  dev_rw = disk_rw;
  driver_open = λ d pid min open_it. (d, 0);
  driver_rw = λ d pid min off size read b. (d, (b, size));
  now = 100;
  deep = 2;
  entries = 9;
  memory = no_memory;
  procs = procs;
  from = 5;
  super_user = true;
}

-- Only device 9 is mounted.
abbrev fresh : Cache Disk Bytes
fresh = record unset {
  supers = λ k. record (unset.supers k) { dev = (if k == 0 then 9 else 0); dirty = (k == 0) };
}

nine : ((block_init fresh).supers 0).dev ≢ 0
unfolding block_init
nine e = absurd (ground arith)

changed : ((block_init fresh).supers 0).dirty ≡ true
unfolding block_init
changed = refl

fresh-Ready : Ready (block_init fresh)
unfolding block_init
fresh-Ready k lt = (ground arith, λ e. absurd (ground arith))

mounted : super_get (block_init fresh).supers ((block_init fresh).supers 0).dev ≢ none
unfolding block_init super_get search_from
mounted e = absurd (cc)

-- Block 4 of device 9 is zeroed in between.
abbrev one : List Access
one = record { dev = 9; blk = 4; edit = some (λ b a. 0) } ∷ []

one-AllMounted : AllMounted (block_init fresh) one
unfolding block_init
one-AllMounted = ((λ e. omega arith), mounted, omega arith, tt)

one-Untouched : Untouched env look disk_rw-IsStore ((block_init fresh).supers 0).dev 1 one
one-Untouched = (inr (λ e. omega (arith, e.1)), tt)

super_read-write_example :
    (t : Cache Disk Bytes) × (r : List Bytes × Cache Disk Bytes) × (q : Option ℕ × Cache Disk Bytes)
    × (super_write env (block_init fresh) 0 ≡ some t)
    × (accesses look disk_rw 100 disk_rw-IsStore one t ≡ some r)
    × (super_read env r.1 ((block_init fresh).supers 0).dev ≡ some q)
    × ReadBack env look disk_rw-IsStore (t.supers 0).raw r.1 q
super_read-write_example =
    super_read-write env look disk_rw-IsStore (block_init fresh) 0
      (λ d n. look fresh.device d (block_off n)) one changed nine
      (block_init-Stores look disk_rw 100 disk_rw-IsStore fresh) fresh-Ready mounted one-AllMounted
      one-Untouched
