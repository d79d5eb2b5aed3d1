-- ===== src/Signal/Set.antt =====
-- Signal sets: src/lib/signal.c, with the numbers of inc/lib/signal.h. A `sigset_t` is read as
-- its bits: bit k of the word is `set k`.
use brainix_old.Base.{
  ℕ, Bool, true, false, ◌&&◌, Option, none, some, ltb, if◌then◌else◌, update, not,
}
use brainix_old.Base.Int.{ℤ, pos, negsuc}

abbrev pub SigSet : Type 0
SigSet = ℕ → Bool

abbrev pub sigchld : ℕ
sigchld = 3

abbrev pub sigcont : ℕ
sigcont = 4

abbrev pub sigkill : ℕ
sigkill = 9

abbrev pub sigstop : ℕ
sigstop = 13

abbrev pub sigtstp : ℕ
sigtstp = 15

abbrev pub sigttin : ℕ
sigttin = 16

abbrev pub sigttou : ℕ
sigttou = 17

abbrev pub sigurg : ℕ
sigurg = 24

-- `SIGXFSZ + 1`
abbrev pub num_sigs : ℕ
num_sigs = 28

-- What each of the functions leaves in `*set` and returns: no result is -1 with EINVAL in errno.
unfoldable pub sigaddset : SigSet → ℤ → Option SigSet
sigaddset set (negsuc k) = none
sigaddset set (pos k) = if ltb k num_sigs then some (update set k true) else none

unfoldable pub sigdelset : SigSet → ℤ → Option SigSet
sigdelset set (negsuc k) = none
sigdelset set (pos k) = if ltb k num_sigs then some (update set k false) else none

unfoldable pub sigemptyset : SigSet
sigemptyset k = false

unfoldable pub sigfillset : SigSet
sigfillset k = ltb k 32

unfoldable pub sigismember : SigSet → ℤ → Option Bool
sigismember set (negsuc k) = none
sigismember set (pos k) = if ltb k num_sigs then some (set k) else none

-- The set after a call whose result is ignored.
abbrev pub or_same : Option SigSet → SigSet → SigSet
or_same none set = set
or_same (some set') set = set'

abbrev pub add : SigSet → ℕ → SigSet
add set k = or_same (sigaddset set (pos k)) set

abbrev pub del : SigSet → ℕ → SigSet
del set k = or_same (sigdelset set (pos k)) set

-- `~blocked & pending` has a bit set among the lowest n.
unfoldable pub any_unblocked : SigSet → SigSet → ℕ → Bool
any_unblocked blocked pending ℕ.zero = false
any_unblocked blocked pending (ℕ.suc n) =
    if not (blocked n) && pending n then true else any_unblocked blocked pending n

-- `~blocked & pending`, as a condition on the 32-bit word.
unfoldable pub deliverable : SigSet → SigSet → Bool
unfolding any_unblocked
deliverable blocked pending = any_unblocked blocked pending 32
