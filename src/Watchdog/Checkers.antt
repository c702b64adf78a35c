-- ===== src/Watchdog/Checkers.antt =====
-- scripts/watchdog.py: what `require_every_checker_failed` asks of the results of the uptime check.
use k8s_dr.Prelude.{
  ℕ, ◌+◌, ◌-◌, ◌*◌, String, Bool, true, Option, none, some, List, [], ◌∷◌, no_start, value_error,
  Result, Done, ok, err, length, keep, any, last?, leb, ltb, if◌then◌else◌,
}
use k8s_dr.Text.{◌<>◌, text_take}
use k8s_dr.Calendar.{parse_time}
use k8s_dr.Report.{and_then}
use k8s_dr.Sorting.{sort_by}

-- WINDOW_MINUTES, LAG_MINUTES and PERIOD, in seconds.
abbrev pub window : ℕ
window = 300

abbrev pub lag : ℕ
lag = 180

abbrev pub period : ℕ
period = 60

abbrev pub min_checkers : ℕ
min_checkers = 3

-- One result of a checker: the end of its interval, as text, and whether the check passed.
pub record Point : Type 0 where
  pub end_time : String
  pub passed : Bool

pub record Series : Type 0 where
  pub checker : String
  pub points : List Point

-- A point with its time read.
pub record Sample : Type 0 where
  pub time : ℕ
  pub passed : Bool

-- `point_time`: the first 19 characters, read by the pattern without its `Z`.
unfoldable pub point_time : String → Result ℕ
point_time text = elim (parse_time (text_take 19 text <> "Z")) [
  | none ↦ err (value_error "time data does not match format")
  | some t ↦ ok t
]

unfoldable pub samples : List Point → Result (List Sample)
unfolding point_time
samples [] = ok []
samples (p ∷ ps) =
    let rest = samples ps in
    and_then (point_time p.end_time)
      λ t. and_then rest λ ss. ok (record { time = t; passed = p.passed } ∷ ss)

-- Pairs sort by the time, and at one time a failure comes first.
abbrev pub sample_key : Sample → ℕ
sample_key s = 2 * s.time + (if s.passed then 1 else 0)

abbrev pub newest_before : ℕ → Option Sample → Bool
newest_before t none = true
newest_before t (some s) = ltb s.time t

-- The tests on the sorted points of one checker, oldest first.
unfoldable pub check_sorted : ℕ → List Sample → Result Done
check_sorted end [] = err (no_start "a checker reported nothing since the window")
check_sorted end (oldest ∷ points) =
    if any (λ s. s.passed) (oldest ∷ points)
    then err (no_start "a checker passed within the window")
    else if ltb (end - window) oldest.time
    then err (no_start "a checker has failed only since a part of the window")
    else if newest_before (end - lag) (last? (oldest ∷ points))
    then err (no_start "a checker has stopped reporting")
    else ok tt

-- The samples from one period before the window on.
abbrev pub recent : ℕ → List Sample → List Sample
recent end = keep (λ s. leb (end - window - period) s.time)

-- One round of the loop over the series.
unfoldable pub check_series : ℕ → Series → Result Done
unfolding samples check_sorted
check_series end one =
    and_then (samples one.points) λ ss. check_sorted end (recent end (sort_by sample_key ss))

unfoldable pub check_all : ℕ → List Series → Result Done
unfolding check_series
check_all end [] = ok tt
check_all end (one ∷ series) =
    let rest = check_all end series in and_then (check_series end one) λ _. rest

-- `require_every_checker_failed`, behind the reading of the series.
unfoldable pub every_checker_failed : ℕ → List Series → Result Done
unfolding check_all
every_checker_failed end series =
    if ltb (length series) min_checkers
    then err (no_start "too few checkers reported")
    else check_all end series
