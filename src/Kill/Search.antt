-- ===== src/Kill/Search.antt =====
-- What `do_kill` reports.
use brainix_old.Base.{
  ℕ, zero, suc, ◌+◌, ◌≤◌, ◌<◌, ◌≡◌, refl, Bool, true, false, ◌&&◌, arith, ◌==◌, ltb, ◌⊎◌,
  if◌then◌else◌, Bool-cases, inl, inr,
}
use brainix_old.Base.Int.{ℤ, pos, negsuc}
use brainix_old.Signal.Set.{num_sigs}
use brainix_old.Process.{Procs, num_procs}
use brainix_old.Kill.{
  Errno, ok, einval, esrch, eperm, getpid, sig_srch, sig_perm, sig_send, kill_one, kill_from,
  do_kill, is_ok,
}

-- Whether the signal goes to the process.
abbrev pub target : Procs → (from : ℕ) → ℤ → ℕ → Bool
target s from pid to = sig_srch s from to pid && sig_perm s from to

-- What the search of kill() comes to from the process k on, over n processes, when it has
-- come to `before` so far.
abbrev pub Killed : Procs → (from : ℕ) → ℤ → (k n : ℕ) → (before : Errno) → Errno × Procs → Type 0
Killed s from pid k n before (ok, t) =
    (i : ℕ) × (k ≤ i) × (i < k + n) × (target s from pid i ≡ true)
Killed s from pid k n before (einval, t) = ⊥
Killed s from pid k n before (esrch, t) =
    (before ≡ esrch) × (t ≡ s) × ((i : ℕ) → k ≤ i → i < k + n → sig_srch s from i pid ≡ false)
Killed s from pid k n before (eperm, t) =
    (t ≡ s)
    × ((i : ℕ) → k ≤ i → i < k + n → target s from pid i ≡ false)
    × ((before ≡ eperm) ⊎ ((i : ℕ) × (k ≤ i) × (i < k + n) × (sig_srch s from i pid ≡ true)))

module _ (s : Procs) (from : ℕ) (pid : ℤ) (sig k n : ℕ) (err : Errno) where
  round_skip :
      sig_srch s from k pid ≡ false
      → kill_from s from pid sig k (suc n) err ≡ kill_from s from pid sig (k + 1) n err
  unfolding kill_from kill_one
  round_skip a = ground arith

  round_deny :
      sig_srch s from k pid ≡ true
      → sig_perm s from k ≡ false
      → kill_from s from pid sig k (suc n) err
        ≡ kill_from s from pid sig (k + 1) n (if is_ok err then err else eperm)
  unfolding kill_from kill_one
  round_deny a b = ground arith

  round_send :
      sig_srch s from k pid ≡ true
      → sig_perm s from k ≡ true
      → kill_from s from pid sig k (suc n) err
        ≡ kill_from (sig_send s k sig) from pid sig (k + 1) n ok
  unfolding kill_from kill_one
  round_send a b = ground arith

kill_from-ok :
    (s : Procs) (from : ℕ) (pid : ℤ) (sig k n : ℕ) → (kill_from s from pid sig k n ok).0 ≡ ok
kill_from-ok s from pid sig k zero = unfold kill_from in refl
kill_from-ok s from pid sig k (suc n) = elim (Bool-cases (sig_srch s from k pid)) [
  | inl a ↦ elim (Bool-cases (sig_perm s from k)) [
    | inl b ↦
        rw (round_send s from pid sig k n ok a b)
          (kill_from-ok (sig_send s k sig) from pid sig (k + 1) n)
    | inr b ↦ rw (round_deny s from pid sig k n ok a b) (kill_from-ok s from pid sig (k + 1) n)
  ]
  | inr a ↦ rw (round_skip s from pid sig k n ok a) (kill_from-ok s from pid sig (k + 1) n)
]

at_or_after :
    (P : ℕ → Bool) (b : Bool) (k n : ℕ)
    → P k ≡ b
    → ((i : ℕ) → k + 1 ≤ i → i < k + 1 + n → P i ≡ b)
    → (i : ℕ) → k ≤ i
    → i < k + suc n
    → P i ≡ b
at_or_after P b k n here after i lo hi = elim (Bool-cases (i == k)) [
  | inl e ↦ let e' : i ≡ k = ground arith in rw e' here
  | inr e ↦ after i (ground arith) (omega arith)
]

module _ (s : Procs) (from : ℕ) (pid : ℤ) (k n : ℕ) where
  Killed-skip :
      (before : Errno) (r : Errno × Procs)
      → sig_srch s from k pid ≡ false
      → Killed s from pid (k + 1) n before r
      → Killed s from pid k (suc n) before r
  Killed-skip before (ok, t) out q = (q.0, omega (arith, q.1), omega (arith, q.2), q.3)
  Killed-skip before (einval, t) out q = q
  Killed-skip before (esrch, t) out q =
      (q.0, q.1, at_or_after (λ i. sig_srch s from i pid) false k n out q.2)
  Killed-skip before (eperm, t) out q = (
    q.0,
    at_or_after (target s from pid) false k n (ground arith) q.1,
    elim q.2 [ inl e ↦ inl e | inr w ↦ inr (w.0, omega (arith, w.1), omega (arith, w.2), w.3) ],
  )

  Killed-deny :
      (before : Errno) (r : Errno × Procs)
      → sig_srch s from k pid ≡ true
      → sig_perm s from k ≡ false
      → Killed s from pid (k + 1) n eperm r
      → Killed s from pid k (suc n) before r
  Killed-deny before (ok, t) meant_it out q = (q.0, omega (arith, q.1), omega (arith, q.2), q.3)
  Killed-deny before (einval, t) meant_it out q = q
  Killed-deny before (esrch, t) meant_it out q = absurd (let e = q.0 in cc)
  Killed-deny before (eperm, t) meant_it out q = (
    q.0,
    at_or_after (target s from pid) false k n (ground arith) q.1,
    inr (k, omega arith, omega arith, meant_it),
  )

  Killed-sent :
      (before : Errno) (r : Errno × Procs)
      → sig_srch s from k pid ≡ true
      → sig_perm s from k ≡ true
      → r.0 ≡ ok
      → Killed s from pid k (suc n) before r
  Killed-sent before (ok, t) meant_it may e = (k, omega arith, omega arith, ground arith)
  Killed-sent before (einval, t) meant_it may e = absurd (cc)
  Killed-sent before (esrch, t) meant_it may e = absurd (cc)
  Killed-sent before (eperm, t) meant_it may e = absurd (cc)

kill_none :
    (s : Procs) (from : ℕ) (pid : ℤ) (k : ℕ) (before : Errno)
    → (before ≡ esrch) ⊎ (before ≡ eperm)
    → Killed s from pid k 0 before (before, s)
kill_none s from pid k ok h = absurd (elim h [ inl e ↦ (cc) | inr e ↦ (cc) ])
kill_none s from pid k einval h = absurd (elim h [ inl e ↦ (cc) | inr e ↦ (cc) ])
kill_none s from pid k esrch h = (refl, refl, λ i lo hi. absurd (omega arith))
kill_none s from pid k eperm h = (refl, λ i lo hi. absurd (omega arith), inl refl)

denied : (before : Errno) → (before ≡ esrch) ⊎ (before ≡ eperm) → is_ok before ≡ false
denied before (inl e) = rw e refl
denied before (inr e) = rw e refl

kill_from-Killed :
    (s : Procs) (from : ℕ) (pid : ℤ) (sig k n : ℕ) (before : Errno)
    → (before ≡ esrch) ⊎ (before ≡ eperm)
    → Killed s from pid k n before (kill_from s from pid sig k n before)
kill_from-Killed s from pid sig k zero before h =
    unfold kill_from in kill_none s from pid k before h
kill_from-Killed s from pid sig k (suc n) before h = elim (Bool-cases (sig_srch s from k pid)) [
  | inl a ↦ elim (Bool-cases (sig_perm s from k)) [
    | inl b ↦ rw (round_send s from pid sig k n before a b) (
        Killed-sent s from pid k n before _ a b
          (kill_from-ok (sig_send s k sig) from pid sig (k + 1) n))
    | inr b ↦
        rw (round_deny s from pid sig k n before a b, denied before h)
          (Killed-deny s from pid k n before _ a b
            (kill_from-Killed s from pid sig (k + 1) n eperm (inr refl)))
  ]
  | inr a ↦
      rw (round_skip s from pid sig k n before a)
        (Killed-skip s from pid k n before _ a (kill_from-Killed s from pid sig (k + 1) n before h))
]

-- What `do_kill` comes to.
abbrev pub Reported : Procs → ℤ → ℤ → Errno × Procs → Type 0
Reported s pid (negsuc n) r = r ≡ (einval, s)
Reported s pid (pos n) r =
    if ltb n num_sigs then Killed s (getpid s) pid 0 num_procs esrch r else r ≡ (einval, s)

-- `do_kill` fails with EINVAL exactly for a number that is no signal. Otherwise it succeeds only if
-- some process is meant that the caller may signal; it fails with EPERM if processes are meant and
-- the caller may signal none of them, and with ESRCH if no process is meant. When it fails nothing
-- has changed.
pub do_kill_lem : (s : Procs) (pid sig : ℤ) → Reported s pid sig (do_kill s pid sig)
unfolding do_kill
do_kill_lem s pid (negsuc n) = refl
do_kill_lem s pid (pos n) = elim (Bool-cases (ltb n num_sigs)) [
  | inl e ↦ rw e (kill_from-Killed s (getpid s) pid n 0 num_procs esrch (inl refl))
  | inr e ↦ rw e refl
]
