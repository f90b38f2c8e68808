-- ===== src/Statistics.antt =====
-- Pixie-XC/Statistics.h and Statistics.cpp. The two readings of gettimeofday are arguments.
use pixiecpp.Base.{
  ℕ, ◌+◌, ◌-◌, ◌*◌, ◌/◌, ◌≤◌, ◌<◌, ◌≡◌, List, [], ◌∷◌, ◌++◌, arith, ℤ, pos, ◌+ℤ◌, sub_ℕ,
}

-- struct timeval, of times since 1970
pub record TimeVal : Type 0 where
  pub tv_sec : ℕ
  pub tv_usec : ℕ

pub record ElapsedTime : Type 0 where
  pub start_time : TimeVal
  pub absolute_start_time : ℕ
  pub stop_time : TimeVal
  pub absolute_stop_time : ℕ
  pub elapsed_time : ℤ

abbrev pub milliseconds : TimeVal → ℕ
milliseconds t = t.tv_sec * 1000 + t.tv_usec / 1000

-- ElapsedTime::start
unfoldable pub start : TimeVal → ElapsedTime → ElapsedTime
start now e = record e { start_time = now; absolute_start_time = milliseconds now }

-- ElapsedTime::stop
unfoldable pub stop : TimeVal → ElapsedTime → ElapsedTime × ℤ
stop now e =
    let elapsed = sub_ℕ (milliseconds now) e.absolute_start_time in
    (
      record e { stop_time = now; absolute_stop_time = milliseconds now; elapsed_time = elapsed },
      elapsed,
    )

pub record Statistics : Type 0 where
  pub message_count : ℤ
  pub character_count : ℤ
  pub current_clock : ElapsedTime
  pub times : List ℤ

-- Statistics::Statistics, with what the memory of the clock holds
abbrev pub new_statistics : ElapsedTime → Statistics
new_statistics junk = record {
  message_count = pos 0;
  character_count = pos 0;
  current_clock = junk;
  times = [];
}

-- Statistics::addMessage and Statistics::addCharacterCount, as long as no counter overflows
unfoldable pub add_message : Statistics → Statistics
add_message s = record s { message_count = s.message_count +ℤ pos 1 }

unfoldable pub add_character_count : ℤ → Statistics → Statistics
add_character_count more s = record s { character_count = s.character_count +ℤ more }

-- Statistics::startClock and Statistics::stopClock
unfoldable pub start_clock : TimeVal → Statistics → Statistics
unfolding start
start_clock now s = record s { current_clock = start now s.current_clock }

unfoldable pub stop_clock : TimeVal → Statistics → Statistics
unfolding stop
stop_clock now s =
    let (clock, t) = stop now s.current_clock in
    record s { current_clock = clock; times = s.times ++ (t ∷ []) }

abbrev pub microseconds : TimeVal → ℕ
microseconds t = t.tv_sec * 1000000 + t.tv_usec

-- A clock that is started and then stopped at a later time records one more time: a number of
-- milliseconds that differs from the true time between the readings by less than one millisecond.
pub stop_clock-start_clock :
    (t0 t1 : TimeVal) (s : Statistics)
    → microseconds t0 ≤ microseconds t1
    → t0.tv_usec < 1000000
    → t1.tv_usec < 1000000
    → (ms : ℕ) × ((stop_clock t1 (start_clock t0 s)).times ≡ s.times ++ (pos ms ∷ []))
      × (ms * 1000 < microseconds t1 - microseconds t0 + 1000)
      × (microseconds t1 - microseconds t0 < ms * 1000 + 1000)
unfolding stop_clock start_clock
stop_clock-start_clock t0 t1 s later h0 h1 =
    (milliseconds t1 - milliseconds t0, ground arith, omega arith, omega arith)
