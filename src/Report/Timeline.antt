-- ===== src/Report/Timeline.antt =====
-- scripts/drill_report.py: the stage timeline. The log is the text of timeline.tsv.
use k8s_dr.Prelude.{
  ℕ, String, Bool, ◌||◌, Option, none, some, List, [], ◌∷◌, ◌++◌, map, sub_ℕ, Result, ok, err,
  value_error, ◌==◌, if◌then◌else◌,
}
use k8s_dr.Text.{◌=ᵗ◌, ◌<>◌, empty, strip, split, splitlines, contains_char, join}
use k8s_dr.Calendar.{parse_time, stamp, clock_text}
use k8s_dr.Report.{and_then, format_duration}

pub record Event : Type 0 where
  pub time : ℕ
  pub stage : String
  pub event : String
  pub note : String

abbrev event_of : Option ℕ → String → String → String → Result Event
event_of none stage event note = err (value_error "time data does not match format")
event_of (some t) stage event note =
    ok (record { time = t; stage = stage; event = event; note = note })

-- The four fields of one line of timeline.tsv.
unfoldable pub parse_event : List String → Result Event
parse_event (time ∷ stage ∷ event ∷ note ∷ []) = event_of (parse_time time) stage event note
parse_event _ = err (value_error "expected time, stage, event, and note")

-- The loop of `read_events` over the lines that are not blank.
unfoldable pub read_event_lines : List String → Result (List Event)
read_event_lines [] = ok []
read_event_lines (line ∷ lines) =
    let rest = read_event_lines lines in
    if empty (strip line)
    then rest
    else and_then (parse_event (split 9 line)) λ e. and_then rest λ es. ok (e ∷ es)

unfoldable pub read_events : String → Result (List Event)
read_events text = read_event_lines (splitlines text)

-- One line of the log, with its line feed.
unfoldable pub event_line : String → String → String → ℕ → String
event_line stage event note now =
    stamp now <> "\t" <> stage <> "\t" <> event <> "\t" <> note <> "\n"

abbrev pub is_tab_or_newline : ℕ → Bool
is_tab_or_newline c = c == 9 || c == 10

-- `append_event`: the log with one more line. The directory is created beside it.
unfoldable pub append_event : String → String → String → String → ℕ → Result String
unfolding event_line
append_event log stage event note now =
    if contains_char is_tab_or_newline note
    then err (value_error "a note must be one line without tabs")
    else ok (log <> event_line stage event note now)

-- The start, end, and notes of one stage.
pub record Row : Type 0 where
  pub start : Option ℕ
  pub end : Option ℕ
  pub notes : List String

abbrev no_row : Row
no_row = record { start = none; end = none; notes = [] }

-- What one event changes in the row of its stage.
unfoldable pub note_event : Event → Row → Row
note_event e row =
    let start' : Option ℕ = elim row.start [ none ↦ some e.time | some t ↦ some t ] in
    record {
      start = if e.event =ᵗ "start" then start' else row.start;
      end = if e.event =ᵗ "end" then some e.time else row.end;
      notes =
          if empty e.note
          then row.notes
          else row.notes ++ (clock_text e.time <> " " <> e.note) ∷ [];
    }

-- `rows.setdefault(stage, …)` and the update: rows stay in the order in which they were made.
unfoldable pub add_event : Event → List (String × Row) → List (String × Row)
unfolding note_event
add_event e [] = (e.stage, note_event e no_row) ∷ []
add_event e ((stage, row) ∷ rows) =
    let rest = add_event e rows in
    if stage =ᵗ e.stage then (stage, note_event e row) ∷ rows else (stage, row) ∷ rest

unfoldable pub rows_from : List (String × Row) → List Event → List (String × Row)
unfolding add_event
rows_from rows [] = rows
rows_from rows (e ∷ es) = rows_from (add_event e rows) es

-- `stage_rows`.
unfoldable pub stage_rows : List Event → List (String × Row)
unfolding rows_from
stage_rows events = rows_from [] events

unfoldable pub row_of : String → List (String × Row) → Option Row
row_of stage [] = none
row_of stage ((s, row) ∷ rows) = if s =ᵗ stage then some row else row_of stage rows

abbrev recorded : Option ℕ → String
recorded none = "not recorded"
recorded (some t) = stamp t

abbrev duration_cell : Option ℕ → Option ℕ → String
duration_cell (some s) (some e) = format_duration (sub_ℕ e s)
duration_cell _ _ = ""

abbrev table_line : String × Row → String
table_line (stage, row) =
    "| "
    <> stage
    <> " | "
    <> recorded row.start
    <> " | "
    <> recorded row.end
    <> " | "
    <> duration_cell row.start row.end
    <> " | "
    <> join "; " row.notes
    <> " |"

-- `timeline_table`.
unfoldable pub timeline_table : List Event → String
unfolding stage_rows
timeline_table events = join "\n" (
    "| Stage | Start (UTC) | End (UTC) | Duration | Notes |"
    ∷ "| --- | --- | --- | --- | --- |"
    ∷ map table_line (stage_rows events))
