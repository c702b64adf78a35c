-- ===== src/Examples/Drills.antt =====
-- Drills: steps that pass, orders of the commands, and the masked issue.
use k8s_dr.Prelude.{
  ℕ, ◌+◌, ◌≡◌, refl, ◌⊎◌, String, Bool, true, false, Option, none, some, List, [], ◌∷◌, ok, err,
  value_error, if◌then◌else◌, arith,
}
use k8s_dr.Watchdog
use k8s_dr.Watchdog.{env_get}
use mathlib.Core.List.Memᴰ.{head, tail}
use k8s_dr.Watchdog.Checkers
use k8s_dr.Text.{ends_with, contains, ◌<>◌}
use k8s_dr.Recovery.State.{no_values}
use k8s_dr.Drill.State.{Drill, DrillSystem, Step, Ending}
use k8s_dr.Drill.Main.{main}
use k8s_dr.Drill.Masking.{masked}
use k8s_dr.Drill.Masking.Hides.{NoStar}
use k8s_dr.Drill.Issue.{body_text, issue_body}
use k8s_dr.Drill.Masked.{NoLineEnd, issue_body-hides}
use k8s_dr.Drill.Reached.{no_drill, Reached, fresh, command}
use k8s_dr.Drill.Isolation.{Prepared, Reached-SafeIsolation}
use k8s_dr.Drill.Ensured.{Recovered}
use k8s_dr.Drill.Passing.{main-wait-succeeded}
use k8s_dr.Examples.World.{small_system, recovered}

abbrev requests : Watchdog.System ℕ
requests = record {
  environ = ("STATE_BUCKET", "s") ∷ ("GITHUB_REPOSITORY", "r") ∷ ("GITHUB_TOKEN", "t") ∷ [];
  get = λ url w. (
    record {
      status = some 200;
      body = Watchdog.Body.workflow_runs (
          record {
            id = 1;
            status = "completed";
            conclusion = some "success";
            actor = some "github-actions[bot]";
            created_at = "2026-05-01T12:00:00Z";
            url = "u";
          }
          ∷ []);
    },
    w,
  );
  post = λ url w. (record { status = some 204; body = Watchdog.Body.other }, w);
  access_token = λ w. (ok "t", w);
  now = λ w. (w, w);
}

abbrev drill_system : DrillSystem ℕ
drill_system = record {
  commands = small_system;
  requests = requests;
  public_host = "git.example.org";
  primary_host = "git-primary.example.org";
  read_write_log = λ w. ok "";
  read_recovered = λ w. err (value_error "no JSON");
  read_timeline = λ w. ok "";
  open_issue = λ url title body w. (record { status = some 201; body = Watchdog.Body.other }, w);
}

abbrev isolated : Drill ℕ
isolated = record {
  world = 63913020000;
  state = record no_drill {
    steps = (Step.isolate, true) ∷ (Step.writes, true) ∷ (Step.guard, true) ∷ [];
    isolated_at = some "2026-05-01T11:40:00Z";
  };
  saved = none;
  stored_result = none;
}

waits : (main ⦃sys = drill_system⦄ Step.wait isolated).0 ≡ ok 0
unfolding k8s_dr.Drill.Main.step_passed k8s_dr.Drill.Main.gate k8s_dr.Drill.Main.action
    k8s_dr.Drill.Main.keep_success k8s_dr.Drill.Main.run_step k8s_dr.Drill.Main.begin
    k8s_dr.Drill.Main.main k8s_dr.Drill.State.with_world k8s_dr.Drill.State.set_state
    k8s_dr.Drill.State.save k8s_dr.Drill.State.put_recovery_run k8s_dr.Drill.Commands.parse
    k8s_dr.Drill.Commands.bot_runs k8s_dr.Drill.Commands.insert_run
    k8s_dr.Drill.Commands.oldest_first k8s_dr.Drill.Commands.run k8s_dr.Drill.Commands.environ_value
    k8s_dr.Drill.Commands.push k8s_dr.Drill.Commands.try_push k8s_dr.Drill.Commands.runs_since
    k8s_dr.Drill.Commands.runs_found k8s_dr.Drill.Waits.keep_note k8s_dr.Drill.Waits.with_found
    k8s_dr.Drill.Waits.wait_rounds k8s_dr.Drill.Waits.wait_for_recovery k8s_dr.Drill.Waits.wait_step
    k8s_dr.Watchdog.github k8s_dr.Watchdog.is_bot k8s_dr.Prelude.catching k8s_dr.Text.is_digit
    k8s_dr.Calendar.Format.parse_time k8s_dr.Calendar.Civil.year_days
waits = refl

abbrev series_at : String → Checkers.Series
series_at checker = record {
  checker = checker;
  points = record { end_time = "2026-05-01T11:42:00Z"; passed = false } ∷ [];
}

abbrev monitoring : String → Watchdog.Body
monitoring url =
    if ends_with url "uptimeCheckConfigs"
    then Watchdog.Body.check_configs (record { name = "c/1"; host = some "git.example.org" } ∷ [])
    else Watchdog.Body.time_series false (series_at "a" ∷ series_at "b" ∷ series_at "c" ∷ [])

-- A recovery that ended 50 minutes behind the isolation and lost one write.
abbrev report_system : DrillSystem ℕ
report_system = record drill_system {
  requests = record requests {
    environ = ("GCP_PROJECT_ID", "p") ∷ ("STATE_BUCKET", "s") ∷ [];
    get = λ url w. (record { status = some 200; body = monitoring url }, w);
  };
  read_recovered = λ w. ok (record recovered {
    values = record no_values { restored_head = some "a"; backup_set = some "20260501T113000Z" };
  });
  read_timeline = λ w. ok "2026-05-01T12:30:00Z\tprobe-recovery\tend\t\n";
  read_write_log = λ w. ok "2026-05-01T11:20:00Z\ta\tu\n2026-05-01T11:35:00Z\tb\tu\n";
}

abbrev waited : Drill ℕ
waited = record isolated {
  state = record no_drill {
    steps =
        (Step.wait, true) ∷ (Step.isolate, true) ∷ (Step.writes, true) ∷ (Step.guard, true) ∷ [];
    isolated_at = some "2026-05-01T11:40:00Z";
    recovery_run = some (record {
      id = 1;
      url = "u";
      created_at = "2026-05-01T12:00:00Z";
      conclusion = some "success";
    });
  };
}

main-wait-succeeded_example :
    Recovered drill_system (main ⦃sys = drill_system⦄ Step.wait isolated).1.state
    × ((main ⦃sys = drill_system⦄ Step.wait isolated).1.saved
        ≡ some (main ⦃sys = drill_system⦄ Step.wait isolated).1.state)
main-wait-succeeded_example = main-wait-succeeded ⦃sys = drill_system⦄ isolated waits

-- The first three commands, with a later one tried once more.
abbrev begun : Drill ℕ
begun = record { world = 63913020000; state = no_drill; saved = none; stored_result = none }

abbrev three_steps : Drill ℕ
three_steps =
    (main ⦃sys = drill_system⦄ Step.isolate
      (main ⦃sys = drill_system⦄ Step.writes (main ⦃sys = drill_system⦄ Step.guard begun).1).1).1

three_steps_reached : Reached ⦃sys = drill_system⦄ three_steps
three_steps_reached =
    command Step.isolate (command Step.writes (command Step.guard (fresh 63913020000)))

Reached-SafeIsolation_example :
    (three_steps.state.isolated_at ≡ none) ⊎ Prepared three_steps.state.steps
Reached-SafeIsolation_example =
    Reached-SafeIsolation ⦃sys = drill_system⦄ three_steps three_steps_reached

bucket_set : env_get "STATE_BUCKET" requests.environ ≡ some "s"
unfolding env_get
bucket_set = refl

s-NoLineEnd : NoLineEnd "s"
unfolding k8s_dr.Text.contains_char
s-NoLineEnd = refl

s-NoStar : NoStar "s"
unfolding k8s_dr.Text.contains_char
s-NoStar = (refl, refl)

-- A drill without a copy of the timeline.
abbrev no_timeline : DrillSystem ℕ
no_timeline = record drill_system { read_timeline = λ w. err (value_error "no file") }

abbrev shown : String
shown = masked requests.environ (body_text begun.state Ending.refused "unknown" []) <> "\n"

shows : (issue_body ⦃sys = no_timeline⦄ Ending.refused begun).0 ≡ ok shown
unfolding issue_body env_get k8s_dr.Prelude.◌>>=◌
shows = refl

issue_body-hides_example : contains "s" shown ≡ false
issue_body-hides_example =
    issue_body-hides ⦃sys = no_timeline⦄ "STATE_BUCKET" "s" (tail (tail (tail (head refl))))
      bucket_set s-NoStar s-NoLineEnd Ending.refused begun shown shows
