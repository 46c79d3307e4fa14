-- ===== src/Thread/Tests.antt =====
-- A deadline that is no time.
use queue_c.Base.{ℕ, ◌≡◌, if◌then◌else◌, arith, pos, failed, ltb}
use queue_c.Thread.{Timespec, condition_timedwait}
use queue_c.Thread.Deadline.{RefusesBadTime, timedwait-bad_time}

abbrev now : Timespec
now = record { tv_sec = 10; tv_nsec = 999000000 }

-- A system where ETIMEDOUT is 110 and EINVAL is 22, and a wait until a time ends by a signal.
abbrev wait_until : Timespec → ℕ
wait_until t = if ltb t.tv_nsec 1000000000 then 0 else 22

wait_until-RefusesBadTime : RefusesBadTime 110 22 wait_until
wait_until-RefusesBadTime = record {
  refuses = λ t bad. ground arith;
  not_done = λ e. omega arith;
  not_timeout = λ e. omega arith;
}

timedwait-bad_time_example : condition_timedwait 110 wait_until 0 now (pos 500) ≡ failed
timedwait-bad_time_example =
    timedwait-bad_time 110 22 wait_until 0 now 500 wait_until-RefusesBadTime (omega arith)
