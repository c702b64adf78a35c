-- ===== src/Calendar.antt =====
-- The UTC times of scripts/drill_report.py: `datetime`, `strftime` and `strptime` at TIME_FORMAT and
-- SET_FORMAT. A time is its whole seconds since 0001-01-01T00:00:00Z, the first one that Python has.
pub mod Civil
pub mod Format
pub mod RoundTrip
pub mod Order
pub use Civil.{Fields}
unfoldable pub use Civil.{fields_of, seconds_of, is_valid}
unfoldable pub use Format.{stamp, set_name, parse_time, parse_set, clock_text}
