-- ===== src/Thread.antt =====
-- src/qc_rt/qc_thread.c and qc_sem.c: the waits with a time limit. The system's calls are
-- parameters, and so is its number for a timeout.
pub mod Deadline
mod Tests
use queue_c.Base.{
  ℕ, zero, suc, ◌+◌, ◌*◌, ◌/◌, ◌%◌, Bool, true, false, if◌then◌else◌, ◌==◌, ℤ, pos, negsuc, failed,
  Option, List, [], ◌∷◌, ◌>>=◌, none, some, not,
}

pub record Timespec : Type 0 where
  pub tv_sec : ℕ
  pub tv_nsec : ℕ

-- The time `msec` milliseconds from `now`, as both waits compute it.
unfoldable pub deadline : Timespec → (msec : ℕ) → Timespec
deadline now msec = record {
  tv_sec = now.tv_sec + msec / 1000;
  tv_nsec = now.tv_nsec + msec % 1000 * 1000000;
}

-- QC_TIMEOUT, and QC_ERR_TIMEOUT.
abbrev pub timeout : ℤ
timeout = negsuc 32

abbrev pub err_timeout : ℤ
err_timeout = pos 52

-- The results of pthread_cond_timedwait until a time, and of pthread_cond_wait: 0 or an error's
-- number.
unfoldable pub condition_timedwait :
    (etimedout : ℕ) (timed_wait : Timespec → ℕ) (wait : ℕ) → Timespec → (msec : ℤ) → ℤ
condition_timedwait etimedout timed_wait wait now (pos msec) =
    let ret = timed_wait (deadline now msec) in
    if ret == etimedout then timeout else if not (ret == 0) then failed else pos 0
condition_timedwait etimedout timed_wait wait now (negsuc n) =
    if not (wait == 0) then failed else pos 0

-- A call on a semaphore: it succeeds, or fails with an error's number.
pub data SemCall : Type 0 where
  taken : SemCall
  error : ℕ → SemCall

-- The calls of a loop that starts again after EINTR, in order: the first that is not interrupted,
-- or none.
unfoldable pub restarted : (eintr : ℕ) → List SemCall → Option SemCall
restarted eintr [] = none
restarted eintr (taken ∷ calls) = some taken
restarted eintr (error e ∷ calls) =
    let later = restarted eintr calls in if e == eintr then later else some (error e)

-- What the calls on the semaphore give until one is not interrupted: sem_wait, sem_trywait, and
-- sem_timedwait until a time. `none` is a wait that is interrupted without end.
unfoldable pub sem_wait :
    (etimedout eintr : ℕ) (wait trywait : List SemCall) (timedwait : Timespec → List SemCall)
    → Timespec
    → (wait_msec : ℤ) → Option ℤ
sem_wait etimedout eintr wait trywait timedwait now (negsuc n) = do
  r ← restarted eintr wait
  some (elim r [ taken ↦ pos 0 | error e ↦ failed ])
sem_wait etimedout eintr wait trywait timedwait now (pos zero) = do
  r ← restarted eintr trywait
  some (elim r [ taken ↦ pos 0 | error e ↦ failed ])
sem_wait etimedout eintr wait trywait timedwait now (pos (suc msec)) = do
  r ← restarted eintr (timedwait (deadline now (suc msec)))
  some (elim r [ taken ↦ pos 0 | error e ↦ if e == etimedout then err_timeout else failed ])
