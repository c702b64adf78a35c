-- ===== src/Examples/Times.antt =====
-- Times, write logs and checkers.
use k8s_dr.Prelude.{
  ℕ, ◌≡◌, refl, ◌↔◌, ◌≤◌, ◌<◌, String, true, false, List, [], ◌∷◌, ◌++◌, ok, All, leb, some, length,
  pos, arith,
}
use k8s_dr.Calendar.Civil.{is_valid, fields_of, seconds_of, seconds_of-fields_of}
use k8s_dr.Calendar.{stamp, set_name, parse_time, parse_set}
use k8s_dr.Calendar.RoundTrip.{parse_time-stamp, parse_set-set_name}
use k8s_dr.Calendar.Order.{leb_text-set_name}
use k8s_dr.Text.{leb_text}
use k8s_dr.Sorting.{IsSorted}
use k8s_dr.Report.{Write, Loss, data_loss}
use k8s_dr.Report.DataLoss.{time_of, IsLoss, data_loss-IsLoss, data_loss-append_late}
use k8s_dr.Watchdog.Checkers.{Series, every_checker_failed, min_checkers}
use k8s_dr.Watchdog.CheckersLaws.{SeriesDown, every_checker_failed_iff}

abbrev noon : ℕ
noon = 63913017600

abbrev later : ℕ
later = 63913020000

noon_valid : is_valid (fields_of noon) ≡ true
unfolding is_valid fields_of k8s_dr.Calendar.Civil.year_days
noon_valid = refl

later_valid : is_valid (fields_of later) ≡ true
unfolding is_valid fields_of k8s_dr.Calendar.Civil.year_days
later_valid = refl

seconds_of-fields_of_example : seconds_of (fields_of noon) ≡ noon
seconds_of-fields_of_example = seconds_of-fields_of noon

parse_time-stamp_example : parse_time (stamp noon) ≡ some noon
parse_time-stamp_example = parse_time-stamp noon noon_valid

parse_set-set_name_example : parse_set (set_name later) ≡ some later
parse_set-set_name_example = parse_set-set_name later later_valid

leb_text-set_name_example : leb_text (set_name noon) (set_name later) ≡ leb noon later
leb_text-set_name_example = leb_text-set_name noon later noon_valid later_valid

abbrev write_at : ℕ → String → Write
write_at t sha = record { acknowledged = t; sha = sha; url = "https://git.example.org" }

abbrev log : List Write
log = write_at 100 "a" ∷ write_at 400 "b" ∷ write_at 700 "c" ∷ []

abbrev log_loss : Loss
log_loss = record {
  last = write_at 700 "c";
  restored = write_at 400 "b";
  loss = pos 300;
  lost = write_at 700 "c" ∷ [];
}

log-IsSorted : IsSorted time_of log
log-IsSorted = ground arith

log_reported : data_loss log "b" 900 ≡ ok log_loss
unfolding data_loss
log_reported = refl

data_loss-IsLoss_example : IsLoss log "b" 900 log_loss
data_loss-IsLoss_example = data_loss-IsLoss log "b" 900 log_loss log-IsSorted log_reported

late_writes : All (λ w. 900 < w.acknowledged) (write_at 1000 "d" ∷ [])
late_writes = ground arith

data_loss-append_late_example :
    data_loss (log ++ write_at 1000 "d" ∷ []) "b" 900 ≡ data_loss log "b" 900
data_loss-append_late_example =
    data_loss-append_late log (write_at 1000 "d" ∷ []) "b" 900 late_writes

abbrev checker : String → Series
checker name = record {
  checker = name;
  points =
      record { end_time = "2026-05-01T11:54:30Z"; passed = false }
      ∷ record { end_time = "2026-05-01T11:58:30Z"; passed = false }
      ∷ [];
}

abbrev checkers : List Series
checkers = checker "usa" ∷ checker "europe" ∷ checker "asia" ∷ []

every_checker_failed_iff_example :
    (every_checker_failed noon checkers ≡ ok tt)
    ↔ ((min_checkers ≤ length checkers) × All (SeriesDown noon) checkers)
every_checker_failed_iff_example = every_checker_failed_iff noon checkers
