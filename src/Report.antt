-- ===== src/Report.antt =====
-- scripts/drill_report.py: the write log, the stage timeline and the observed data loss. A log file is its
-- text. The text of an error leaves out the path and the line number that Python puts in.
pub mod Timeline
pub mod DataLoss
use k8s_dr.Prelude.{
  ℕ, ◌*◌, ◌/◌, ◌%◌, String, Bool, true, false, not, ◌&&◌, ◌||◌, Option, none, some, List, [], ◌∷◌,
  ◌++◌, map, ℤ, pos, negsuc, sub_ℕ, Result, ok, err, value_error, Error, leb, ltb, ◌+◌, ◌-◌, ◌==◌,
  if◌then◌else◌, keep, first, last?,
}
use k8s_dr.Text.{◌=ᵗ◌, ◌<>◌, empty, strip, split, splitlines, contains_char, join}
use k8s_dr.Text.Decimal.{show, show_two}
use k8s_dr.Calendar.{parse_time, stamp, clock_text}
use k8s_dr.Sorting.{sort_by}

pub record Write : Type 0 where
  pub acknowledged : ℕ
  pub sha : String
  pub url : String

-- `format_duration`; the hours of a negative duration are rounded down, as `divmod` does.
unfoldable pub format_duration : ℤ → String
unfolding show show_two ◌<>◌
format_duration (pos n) =
    show (n / 3600) <> "h " <> show_two (n % 3600 / 60) <> "m " <> show_two (n % 60) <> "s"
format_duration (negsuc n) =
    let hours = n / 3600 + 1 in
    let rest = 3600 * hours - (n + 1) in
    "-" <> show hours <> "h " <> show_two (rest / 60) <> "m " <> show_two (rest % 60) <> "s"

abbrev pub and_then {ℓ κ} : {A : Type ℓ} {B : Type κ} → Result A → (A → Result B) → Result B
and_then (ok a) f = f a
and_then (err e) f = err e

abbrev pub time_or : Option ℕ → Result ℕ
time_or none = err (value_error "time data does not match format")
time_or (some t) = ok t

-- The fields of one line of writes.tsv.
unfoldable pub parse_write : List String → Result Write
parse_write (time ∷ sha ∷ url ∷ []) =
    and_then (time_or (parse_time time)) λ t. ok (record { acknowledged = t; sha = sha; url = url })
parse_write _ = err (value_error "expected time, commit, and URL")

-- The loop of `read_writes` over the lines that are not blank.
unfoldable pub read_write_lines : List String → Result (List Write)
read_write_lines [] = ok []
read_write_lines (line ∷ lines) =
    let rest = read_write_lines lines in
    if empty (strip line)
    then rest
    else and_then (parse_write (split 9 line)) λ w. and_then rest λ ws. ok (w ∷ ws)

-- `read_writes`: the writes of the log, sorted by their times.
unfoldable pub read_writes : String → Result (List Write)
read_writes text =
    and_then (read_write_lines (splitlines text)) λ ws. ok (sort_by (λ w. w.acknowledged) ws)

pub record Loss : Type 0 where
  pub last : Write
  pub restored : Write
  pub loss : ℤ
  pub lost : List Write

-- The writes that count: those acknowledged up to the isolation.
abbrev pub before : ℕ → List Write → List Write
before isolated_at writes = keep (λ w. leb w.acknowledged isolated_at) writes

abbrev pub lost_after : ℕ → List Write → List Write
lost_after time primary = keep (λ w. ltb time w.acknowledged) primary

abbrev pub loss_between : Write → Write → List Write → Loss
loss_between last restored primary = record {
  last = last;
  restored = restored;
  loss = sub_ℕ last.acknowledged restored.acknowledged;
  lost = lost_after restored.acknowledged primary;
}

-- The rest of `data_loss`, behind its two guards.
abbrev pub loss_of : Option Write → Option Write → List Write → String → Result Loss
loss_of none _ primary restored_sha =
    err (value_error "the write log holds no write acknowledged before isolation")
loss_of (some last) none primary restored_sha = err (
    value_error (
      "restored HEAD " <> restored_sha <> " is not a write acknowledged before isolation; "
      <> "record it before any write to the recovery copy"))
loss_of (some last) (some restored) primary restored_sha = ok (loss_between last restored primary)

-- `data_loss`.
unfoldable pub data_loss : List Write → String → ℕ → Result Loss
data_loss writes restored_sha isolated_at =
    let primary = before isolated_at writes in
    loss_of (last? primary) (first (λ w. w.sha =ᵗ restored_sha) primary) primary restored_sha
