-- ===== src/Thread/Deadline.antt =====
-- The deadline of a wait, and whether it is a time that the system takes.
use queue_c.Base.{ℕ, ◌+◌, ◌*◌, ◌%◌, ◌≡◌, ◌≢◌, ◌≤◌, ◌<◌, arith, eqb_false, pos, failed}
use queue_c.Thread.{Timespec, deadline, condition_timedwait}

-- A time in nanoseconds.
abbrev pub nanoseconds : Timespec → ℕ
nanoseconds t = t.tv_sec * 1000000000 + t.tv_nsec

-- What POSIX asks of a time.
abbrev pub IsTime : Timespec → Type 0
IsTime t = t.tv_nsec < 1000000000

-- The deadline of a wait is as many milliseconds after a time as the wait has. Its nanoseconds are
-- below 1999000000, and below a second if the wait is whole seconds.
pub nanoseconds-deadline :
    (now : Timespec) (msec : ℕ)
    → IsTime now
    → (nanoseconds (deadline now msec) ≡ nanoseconds now + msec * 1000000)
      × ((deadline now msec).tv_nsec < 1999000000)
      × (msec % 1000 ≡ 0 → IsTime (deadline now msec))
unfolding deadline
nanoseconds-deadline now msec h = (omega arith, omega arith, λ whole. omega arith)

-- The documented behaviour of `pthread_cond_timedwait`: a time that is none is refused at once
-- with EINVAL, which is neither 0 nor ETIMEDOUT.
pub record RefusesBadTime (etimedout einval : ℕ) (timed_wait : Timespec → ℕ) : Type 0 where
  pub refuses : (t : Timespec) → ¬ IsTime t → timed_wait t ≡ einval
  pub not_done : einval ≢ 0
  pub not_timeout : einval ≢ etimedout

-- If the nanoseconds of the clock and of the wait's part below a second come to a second or more,
-- `condition_timedwait` returns -1, and not the timeout, where the system refuses a time with that
-- many nanoseconds by an error that is neither 0 nor the timeout's.
pub timedwait-bad_time :
    (etimedout einval : ℕ) (timed_wait : Timespec → ℕ) (wait : ℕ) (now : Timespec) (msec : ℕ)
    → RefusesBadTime etimedout einval timed_wait
    → 1000000000 ≤ now.tv_nsec + msec % 1000 * 1000000
    → condition_timedwait etimedout timed_wait wait now (pos msec) ≡ failed
unfolding condition_timedwait deadline
timedwait-bad_time etimedout einval timed_wait wait now msec r h =
    let bad = r.refuses (deadline now msec) (λ t. omega arith) in
    rw (bad, eqb_false einval etimedout r.not_timeout, eqb_false einval 0 r.not_done)
