-- ===== src/Drill/Results.antt =====
-- scripts/drill.py: the results page.
use k8s_dr.Prelude.{
  ℕ, ℤ, String, Bool, not, Option, none, some, List, [], ◌∷◌, map, Error, drill_failed, value_error,
  Result, Exec, pure, raise, raise_if, ask, lift, catching, ◌>>=◌, ◌>>◌, keep, ok, err, ◌==◌,
  if◌then◌else◌,
}
use k8s_dr.Text.{◌=ᵗ◌, ◌<>◌, join, leb_text, after_prefix, ends_with, contains, words, sorted_texts}
use k8s_dr.Recovery.State.{Completed}
use k8s_dr.Text.Decimal.{show}
use k8s_dr.Watchdog.{or_text}
use k8s_dr.Report.{format_duration}
use k8s_dr.Drill.State.{DrillState, DrillSystem, Measured, Ending}
use k8s_dr.Drill.Issue.{ending_text}

-- `sorted(results, key=lambda state: state["id"])`.
unfoldable pub insert_result : DrillState → List DrillState → List DrillState
insert_result state [] = state ∷ []
insert_result state (other ∷ states) =
    let rest = insert_result state states in
    if leb_text (or_text state.id "") (or_text other.id "")
    then state ∷ other ∷ states
    else other ∷ rest

unfoldable pub sorted_results : List DrillState → List DrillState
sorted_results [] = []
sorted_results (state ∷ states) = insert_result state (sorted_results states)

abbrev name_cell : DrillState → String
name_cell state = elim state.run_url [
  | none ↦ or_text state.id ""
  | some url ↦
      if url =ᵗ "" then or_text state.id "" else "[" <> or_text state.id "" <> "](" <> url <> ")"
]

abbrev started_by : Option String → String
started_by none = "dispatch"
started_by (some event) = if event =ᵗ "schedule" then "schedule" else "dispatch"

unfoldable pub stage_cell : String → List (String × ℤ) → String
stage_cell stage [] = ""
stage_cell stage ((s, d) ∷ rest) = if s =ᵗ stage then format_duration d else stage_cell stage rest

abbrev measure_cells : Option Measured → List String
measure_cells none = "" ∷ "" ∷ "" ∷ "" ∷ "" ∷ "" ∷ []
measure_cells (some r) =
    format_duration r.detection_seconds
    ∷ format_duration r.recovery_seconds
    ∷ format_duration r.data_loss_seconds
    ∷ show r.writes_lost
    ∷ stage_cell "bootstrap" r.stages
    ∷ stage_cell "restore" r.stages
    ∷ []

abbrev ending_cell : Option Ending → String
ending_cell none = ""
ending_cell (some ending) = ending_text ending

unfoldable pub result_line : DrillState → String
result_line state =
    "| "
    <> join " | " (
        name_cell state
        ∷ started_by state.event
        ∷ ending_cell state.outcome
        ∷ measure_cells state.result)
    <> " |"

-- `results_table`, over states that hold an identity and an outcome, as `finish` stores them.
unfoldable pub results_table : List DrillState → String
results_table results = join "\n" (
    "| Drill | Started by | Outcome | Detection | Recovery time | Data loss | Writes lost | Bootstrap | Restore |"
    ∷ "| --- | --- | --- | --- | --- | --- | --- | --- | --- |"
    ∷ map result_line (sorted_results results))

abbrev pub results_start : String
results_start = "<!-- drill results: generated by scripts/drill.py results -->"

abbrev pub results_end : String
results_end = "<!-- end of drill results -->"

-- `page.split(marker)`: the text in front of the first marker and behind it.
unfoldable pub cut_at : String → String → Option (String × String)
cut_at marker String.[] = elim (after_prefix marker "") [
  | none ↦ none
  | some rest ↦ some ("", rest)
]
cut_at marker (String.◌∷◌ c s) =
    let later = cut_at marker s in
    elim (after_prefix marker (String.◌∷◌ c s)) [
      | some rest ↦ some ("", rest)
      | none ↦ elim later [ none ↦ none | some p ↦ some (String.◌∷◌ c p.0, p.1) ]
    ]

-- The page in front of and behind a marker that stands in it once: `page.count(marker) == 1`.
unfoldable pub cut_once : String → String → Option (String × String)
cut_once marker page = elim (cut_at marker page) [
  | none ↦ none
  | some p ↦ elim (cut_at marker p.1) [ none ↦ some p | some _ ↦ none ]
]

-- `replace_results`. An end in front of the start leaves nothing to unpack, which is no DrillFailed.
unfoldable pub replace_results : String → String → Result String
replace_results page table = elim (cut_once results_start page) [
  | none ↦ err (drill_failed "the page needs each results marker once")
  | some p ↦ elim (cut_once results_end page) [
    | none ↦ err (drill_failed "the page needs each results marker once")
    | some _ ↦ elim (cut_at results_end p.1) [
      | none ↦ err (value_error "not enough values to unpack")
      | some q ↦ ok (p.0 <> results_start <> "\n" <> table <> "\n" <> results_end <> q.1)
    ]
  ]
]

-- With --page the table takes its place in the page.
abbrev page_or_table : Option String → String → Result String
page_or_table none table = ok table
page_or_table (some page) table = replace_results page table

abbrev is_result_url : String → Bool
is_result_url url = ends_with url "result.json"

module _ {W : Type 0} ⦃sys : DrillSystem W⦄ (read_result : W → Result DrillState) where
  abbrev command : List String → Exec W Completed
  command argv = sys.commands.call argv []

  -- One copy, and what it holds.
  unfoldable pub copied_result : String → Exec W DrillState
  copied_result url = do
    copied ← command ("gcloud" ∷ "storage" ∷ "cp" ∷ url ∷ "result.json" ∷ [])
    raise_if (not (copied.returncode == 0)) (drill_failed "copying a result failed")
    ask read_result

  unfoldable pub copied_results : List String → Exec W (List DrillState)
  copied_results [] = pure []
  copied_results (url ∷ urls) = do
    state ← copied_result url
    states ← copied_results urls
    pure (state ∷ states)

  -- `stored_results`.
  unfoldable pub stored_results : String → Exec W (List DrillState)
  stored_results bucket = do
    listing ←
        command (
          "gcloud"
          ∷ "storage"
          ∷ "ls"
          ∷ ("gs://" <> bucket <> "/pipeline/drills/*/result.json")
          ∷ [])
    if listing.returncode == 0
        then copied_results (sorted_texts (keep is_result_url (words listing.stdout)))
        else if contains "matched no objects" listing.stderr
        then pure []
        else raise (drill_failed "listing the drill results failed")

  -- `except DrillFailed`: the exit status 1, and nothing is written.
  unfoldable pub results_failed : Error → Exec W (ℕ × String)
  results_failed (drill_failed _) = pure (1, "")
  results_failed e = raise e

  -- The command `results`: the exit status, and the table that it prints or the page that it writes.
  unfoldable pub results_command : Option String → String → Exec W (ℕ × String)
  results_command page bucket =
      catching
        (do
          results ← stored_results bucket
          text ← lift (page_or_table page (results_table results))
          pure (0, text))
        results_failed
