-- ===== src/Kill/Mask.antt =====
-- SIGKILL and SIGSTOP can be neither blocked nor caught.
use brainix_old.Base.{
  ℕ, ◌≡◌, refl, Bool, true, false, ◌&&◌, ◌||◌, not, Option, none, some, arith, ◌==◌, ltb,
  if◌then◌else◌, Bool-cases, inl, inr,
}
use brainix_old.Base.Int.{ℤ, pos, negsuc}
use brainix_old.Signal.Set.{SigSet, num_sigs, sigkill, sigstop, sigdelset, del}
use brainix_old.Signal.Table.{SigAction}
use brainix_old.Process.{Procs}
use brainix_old.Kill.{Errno, ok, einval, getpid, masked, set_mask, do_sigprocmask, do_sigaction}

-- Which signals cannot be blocked or caught.
abbrev pub untouchable : ℕ → Bool
untouchable k = (k == sigkill) || (k == sigstop)

-- Whether a signal is blocked after the call, from whether it was and whether it is in the set.
abbrev pub blocked_after : (how : ℕ) → (old new : Bool) → Bool
blocked_after how old new =
    if how == 1 then old || new else if how == 2 then old && not new else new

abbrev pub known : ℕ → Bool
known how = (how == 1) || (how == 2) || (how == 3)

-- What `do_sigprocmask` does with a set. For a `how` that is unknown nothing changes; otherwise
-- each signal of the caller's mask is as the call asks, but SIGKILL and SIGSTOP are not blocked.
abbrev pub Masked : Procs → (how : ℕ) → SigSet → Errno × SigSet × Procs → Type 0
Masked s how set (ok, old, t) =
    (known how ≡ true)
    × (old ≡ s.signals.blocked (getpid s))
    × ((k : ℕ)
        → t.signals.blocked (getpid s) k
          ≡ (not (untouchable k) && blocked_after how (s.signals.blocked (getpid s) k) (set k)))
    × ((p : ℕ) → (p == getpid s) ≡ false → t.signals.blocked p ≡ s.signals.blocked p)
    × (t.signals.pending ≡ s.signals.pending)
Masked s how set (e, old, t) = (known how ≡ false) × (e ≡ einval) × (t ≡ s)

del-one :
    (b : SigSet) (k j : ℕ) → ltb j num_sigs ≡ true → del b j k ≡ (if k == j then false else b k)
unfolding sigdelset
del-one b k j h = ground arith

set_mask-Masked :
    (s : Procs) (how : ℕ) (set b : SigSet)
    → known how ≡ true
    → ((k : ℕ) → b k ≡ blocked_after how (s.signals.blocked (getpid s) k) (set k))
    → Masked s how set (set_mask s (some b))
unfolding set_mask
set_mask-Masked s how set b h e = (
  h,
  refl,
  λ k. ground (arith, e k, del-one (del b sigkill) k sigstop, del-one b k sigkill),
  λ p ne. ground arith,
  refl,
)

-- `do_sigprocmask` changes the caller's mask as `how` asks, whatever set it is given, except that
-- SIGKILL and SIGSTOP are never blocked afterwards; it changes no other mask and no pending
-- signal, and it changes nothing when `how` is unknown.
pub do_sigprocmask_lem :
    (s : Procs) (how : ℕ) (set : SigSet) → Masked s how set (do_sigprocmask s how (some set))
unfolding do_sigprocmask masked
do_sigprocmask_lem s how set = elim (Bool-cases (how == 1)) [
  | inl a ↦ rw a (
      set_mask-Masked s how set (λ k. s.signals.blocked (getpid s) k || set k) (ground arith)
        (λ k. ground arith))
  | inr a ↦ elim (Bool-cases (how == 2)) [
    | inl b ↦
        rw (a, b)
          (set_mask-Masked s how set (λ k. s.signals.blocked (getpid s) k && not (set k))
            (ground arith) (λ k. ground arith))
    | inr b ↦ elim (Bool-cases (how == 3)) [
      | inl c ↦ rw (a, b, c) (set_mask-Masked s how set set (ground arith) (λ k. ground arith))
      | inr c ↦ rw (a, b, c) (unfold set_mask in (ground arith, refl, refl))
    ]
  ]
]

-- The actions of SIGKILL and SIGSTOP are never changed.
pub do_sigaction_lem :
    (s : Procs) (sig : ℤ) (act : Option SigAction) (p k : ℕ)
    → untouchable k ≡ true
    → (do_sigaction s sig act).2.signals.action p k ≡ s.signals.action p k
unfolding do_sigaction
do_sigaction_lem s (negsuc n) act p k h = refl
do_sigaction_lem s (pos n) none p k h = ground arith
do_sigaction_lem s (pos n) (some act) p k h = ground arith
