-- ===== src/Prelude/Times.antt =====
-- Durations. An instant is a number of microseconds, the resolution of Python's `datetime`. A float of
-- seconds stands here for a whole number of microseconds, and is that number; `timedelta` would
-- round any other.
use Prim.Native.Nat.{ℕ}

-- `timedelta(seconds=s)`
abbrev pub timedelta : (seconds : ℕ) → ℕ
timedelta seconds = seconds
