-- ===== src/Server/Open.antt =====
-- Opening, closing and inheriting files: src/fs/open.c, src/fs/proc.c less do_fs_execve, and the
-- exchanges with drivers of src/fs/device.c but for the transfer of blocks. `fildes` is a
-- descriptor. No result is a panic, a dereference of NULL, or an index outside a table.
use brainix_old.Base.{
  ℕ, zero, suc, ◌+◌, ◌-◌, ◌%◌, ◌^◌, Bool, true, false, ◌||◌, not, Option, none, some, leb, ◌==◌,
  if◌then◌else◌, update, ◌>>=◌,
}
use brainix_old.Base.Int.{ℤ, pos, negsuc}
use brainix_old.Inode.{is_blk, is_chr, set_inode}
use brainix_old.Device.{cell, dev_to_maj_min, inode_to_dev, no_pid}
use brainix_old.Super.{no_dev}
use brainix_old.Fildes.{
  Files, FilePtr, Reply, done, failed, fault, open_max, ebadf, descr_get, descr_put, close_files,
  fildes_to_open_descr,
}
use brainix_old.Path.{Text, Lookup, found, missing}
use brainix_old.Server.{set_err, Env, State, look_up, put, minus}

abbrev pub enxio : ℕ
enxio = 59

abbrev pub enotty : ℕ
enotty = 58

module _ {Dev : Type 0} (e : Env Dev) where
  -- What a driver's answer does to err_code.
  abbrev pub heeded : State Dev → ℕ → State Dev
  heeded s ret = if leb (2 ^ 31) ret then set_err s (2 ^ 32 - ret) else s

  abbrev pub dev_state : State Dev → Dev
  dev_state s = s.fs.cache.device

  abbrev pub with_device : State Dev → Dev → State Dev
  with_device s d = record s { fs = record s.fs { cache = record s.fs.cache { device = d } } }

  unfoldable pub dev_open_close : State Dev → (dev : ℕ) → (block open_it : Bool) → ℕ × State Dev
  dev_open_close s dev block open_it =
      let (maj, min) = dev_to_maj_min dev in
      let pid = s.driver_pid (cell block maj) in
      if pid == no_pid
      then (minus enxio, set_err s enxio)
      else let (d, ret) = e.driver_open (dev_state s) pid min open_it in
        (ret, heeded (with_device s d) ret)

  -- The transfer of any number of bytes.
  unfoldable pub dev_transfer :
      State Dev
      → (dev : ℕ) → (block read : Bool) → (off size : ℕ) → (ℕ → ℕ)
      → (ℕ × (ℕ → ℕ)) × State Dev
  dev_transfer s dev block read off size buf =
      let (maj, min) = dev_to_maj_min dev in
      let pid = s.driver_pid (cell block maj) in
      if pid == no_pid
      then ((minus enxio, buf), set_err s enxio)
      else let (d, (buf', ret)) = e.driver_rw (dev_state s) pid min off size read buf in
        ((ret, buf'), heeded (with_device s d) ret)

  -- The exchange for ioctl(), `driver_ioctl`, leaves err_code negative.
  unfoldable pub do_fs_ioctl :
      (driver_ioctl : Dev → (pid min request arg : ℕ) → Dev × ℕ)
      → State Dev
      → ℤ
      → (request arg : ℕ) → ℕ × State Dev
  do_fs_ioctl driver_ioctl s fildes request arg = elim (fildes_to_open_descr s.files fildes) [
    | none ↦ (minus ebadf, set_err s ebadf)
    | some p ↦
        let i = (s.files.file_ptr p).inode_ptr >>= λ k. some (s.fs.inode k) in
        let dev = inode_to_dev i in
        let (maj, min) = dev_to_maj_min dev in
        let pid = s.driver_pid (cell (is_blk i) maj) in
        if dev == no_dev
        then (minus enotty, set_err s enotty)
        else if pid == no_pid
        then (minus enxio, set_err s enxio)
        else let (d, ret) = driver_ioctl (dev_state s) pid min request arg in
          let t = with_device s d in (ret, if leb (2 ^ 31) ret then set_err t ret else t)
  ]

  -- descr_put() and inode_put(), and the error that is there.
  abbrev pub give_up : State Dev → ℤ → Option ℕ → Option (ℕ × State Dev)
  give_up s fildes ip = do
    t ← put e (record s { files = descr_put s.files fildes }) ip
    some (minus t.fs.cache.err_code, t)

  -- The last lines of `do_fs_open`: the caller's own entry is written to.
  pub fill_descr : State Dev → (fildes k mode : ℕ) → Option (ℕ × State Dev)
  fill_descr s fildes k mode = do
    p ← s.files.open_descr e.from fildes
    let f : FilePtr = record { inode_ptr = some k; count = 1; offset = 0; status = 0; mode = mode }
    some (fildes, record s { files = record s.files { file_ptr = update s.files.file_ptr p f } })

  -- What follows the opening of the device of a special file.
  pub open_device : State Dev → (fildes k mode : ℕ) → Option (ℕ × State Dev)
  unfolding fill_descr
  open_device s fildes k mode =
      if not (s.fs.cache.err_code == 0)
      then give_up s (pos fildes) (some k)
      else fill_descr s fildes k mode

  pub open_found : (fildes mode : ℕ) → Lookup → State Dev → Option (ℕ × State Dev)
  unfolding open_device fill_descr
  open_found fildes mode (missing err) s = give_up s (pos fildes) none
  open_found fildes mode (found k) s =
      let i = some (s.fs.inode k) in
      if not (s.fs.cache.err_code == 0)
      then give_up s (pos fildes) (some k)
      else if is_blk i || is_chr i
      then open_device (dev_open_close s (inode_to_dev i) (is_blk i) true).1 fildes k mode
      else fill_descr s fildes k mode

  pub open_with : Reply → State Dev → Text → (mode : ℕ) → Option (ℕ × State Dev)
  unfolding open_found
  open_with fault s path mode = none
  open_with (failed err) s path mode = give_up (set_err s err) (negsuc (err - 1)) none
  open_with (done fildes) s path mode = do r ← look_up e s path; open_found fildes mode r.0 r.1

  unfoldable pub do_fs_open : State Dev → Text → (oflag mode : ℕ) → Option (ℕ × State Dev)
  unfolding open_with
  do_fs_open s path oflag mode =
      let (reply, files) = descr_get s.files in
      if not (s.fs.cache.err_code == 0)
      then give_up s (pos 0) none
      else open_with reply (record s { files = files }) path mode

  -- Closing the device of a file that is used for the last time.
  abbrev pub close_device : State Dev → FilePtr → State Dev
  close_device s f =
      let i = f.inode_ptr >>= λ k. some (s.fs.inode k) in
      if (f.count == 1)
      then (if is_blk i || is_chr i
          then (dev_open_close s (inode_to_dev i) (is_blk i) false).1
          else s)
      else s

  unfoldable pub do_fs_close : State Dev → (fildes : ℕ) → Option (ℕ × State Dev)
  do_fs_close s fildes = elim (s.files.open_descr e.from fildes) [
    | none ↦ some (minus ebadf, set_err s ebadf)
    | some p ↦ do
      let f = s.files.file_ptr p
      let t = close_device s f
      w ← put e (record t { files = close_files t.files e.from fildes }) f.inode_ptr
      some (0, w)
  ]

  -- The directory of the parent becomes the child's.
  abbrev pub share : State Dev → Option ℕ → Option (ℕ × State Dev)
  share s none = none
  share s (some k) =
      let i = s.fs.inode k in
      some (k, record s { fs = set_inode s.fs k (record i { count = (i.count + 1) % 2 ^ 8 }) })

  -- The descriptors from k on, n of them.
  unfoldable pub inherit : (parent child k n : ℕ) → Files → Files
  inherit parent child k zero f = f
  inherit parent child k (suc n) f =
      let d = f.open_descr parent k in
      let g = record f {
        open_descr = update f.open_descr child (update (f.open_descr child) k d);
      } in
      inherit parent child (k + 1) n (elim d [
        | none ↦ g
        | some p ↦ record g {
          file_ptr =
              update g.file_ptr p
                (record (g.file_ptr p) { count = ((g.file_ptr p).count + 1) % 2 ^ 8 });
        }
      ])

  unfoldable pub do_fs_fork : State Dev → (parent child : ℕ) → Option (State Dev)
  do_fs_fork s parent child = do
    r ← share s (s.files.root_dir parent)
    w ← share r.1 (s.files.work_dir parent)
    let f = w.1.files
    let g = record f {
      root_dir = update f.root_dir child (some r.0);
      work_dir = update f.work_dir child (some w.0);
      cmask = update f.cmask child (f.cmask parent);
    }
    some (record w.1 { files = inherit parent child 0 open_max g })

  -- The loop of `do_fs_exit`, from descriptor k on, n of them.
  unfoldable pub close_from : (k n : ℕ) → State Dev → Option (State Dev)
  close_from k zero s = some s
  close_from k (suc n) s = elim (s.files.open_descr e.from k) [
    | none ↦ close_from (k + 1) n s
    | some p ↦ do_fs_close s k >>= λ r. close_from (k + 1) n r.1
  ]

  unfoldable pub do_fs_exit : State Dev → Option (State Dev)
  do_fs_exit s = do
    r ← put e s (s.files.root_dir e.from)
    let r' = record r { files = record r.files { root_dir = update r.files.root_dir e.from none } }
    w ← put e r' (r'.files.work_dir e.from)
    close_from 0 open_max
        (record w { files = record w.files { work_dir = update w.files.work_dir e.from none } })
