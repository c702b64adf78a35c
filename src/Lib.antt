-- ===== src/Lib.antt =====
-- k8s-dr: the disaster recovery of a Gitea service between a primary and a recovery Kubernetes
-- cluster. The development models the Python scripts that decide and act: the watchdog that starts a
-- recovery, the recovery, the return to the primary, the report of what a drill lost, and the drill.
--
-- How the parts interact: scripts/watchdog.py tests four conditions and dispatches the recovery;
-- scripts/recover.py runs ten stages, each ended by its check, and saves which have passed, so that a later run
-- resumes; scripts/return_to_primary.py runs six stages of its own in the same way and reads the recovery's state;
-- scripts/drill.py stops the primary, waits for the recovery, reports and returns; scripts/drill_report.py holds the times,
-- the write log and the timeline that all of them share.
--
-- Files:
--   Prelude, Prelude/*   shared types, lists, Boolean tests, errors as values, and actions that change
--                        an object and may raise (what was written before the raise stays written)
--   Text, Text/Decimal   the methods of str that the scripts use, on native strings
--   Calendar, Calendar/* datetime, strftime and strptime at TIME_FORMAT and SET_FORMAT
--   Sorting              sorted by a key
--   Report               scripts/drill_report.py: read_writes and data_loss
--   Report/Timeline      scripts/drill_report.py: append_event, read_events, stage_rows, timeline_table
--   Report/DataLoss      theorems on data_loss
--   Settings             cluster_setting of scripts/recover.py and scripts/watchdog.py
--   Watchdog             scripts/watchdog.py: its requests, conditions 2 to 4, start and main
--   Watchdog/Checkers    scripts/watchdog.py: require_every_checker_failed; CheckersLaws has its theorem;
--                        Watchdog/Conditions and Dispatch have that of main
--   Recovery/State       scripts/recover.py: Recovery (Machine), System, Result, save and event
--   Recovery/Commands    scripts/recover.py: the commands and waits of Recovery
--   Recovery/Stages      scripts/recover.py: check_plan and the ten stages
--   Recovery/Runner      the loop of run, over any stages; Recovery/Run has STAGES and run itself
--   Recovery/Keeps, StageKeeps, Order, InOrder, Guard, Sequence, Plan, Sets
--                        theorems on the recovery
--   Return/Stages, Run   scripts/return_to_primary.py: check_destroy_plan, Return, STAGES and run; Return/Keeps, InOrder
--                        and Plan have the theorems
--   Drill/State          scripts/drill.py: drill.json, result.json and the class System
--   Drill/Commands, Waits, Guard, Returning, Measure
--                        scripts/drill.py: the commands and requests of Drill, wait_for_run and the six steps
--   Drill/Main           scripts/drill.py: main for the commands of STEPS, and outcome
--   Drill/Masking        scripts/drill.py: masked; Masking/Hides has what it hides, and Drill/Masked the theorem on the issue
--   Drill/Issue, Results scripts/drill.py: issue_body and finish; results_table, replace_results, stored_results
--   Drill/Keeps, StepKeeps, Isolation, Seen, Ensured, Ensured/*, Passing
--                        theorems on the drill; Drill/Reached has the drills that the commands reach
--   Inventory/*          scripts/prepare_ansible_inventory.py: build_inventory and the networks that it compares
--   Dataset, Dataset/Endpoint
--                        scripts/dataset.py: the parts and expected commits; the endpoint, load and check. Dataset/Chunks,
--                        Loads and Contract have the theorems
--   Manifests            scripts/check_manifests.py: render_cluster; Manifests/Placed has a theorem
--   Tunnels, Tunnels/Session
--                        scripts/run_with_iap.py: load_targets, ensure_ports_available; the tunnels, the host keys, the
--                        command and the reaping. Tunnels/Laws, Reaping, Reaping/Started and Waiting have the theorems
--   Pins                 scripts/check_pins.py: the checks, over a parameter fetch; Pins/Laws has a theorem
--   Examples/*           the theorems at concrete inputs
--
-- How the code is read. A time is its whole seconds since 0001-01-01T00:00:00Z, and the clock is read in
-- whole seconds. A state file is the value that it holds. Commands, HTTP requests, name lookups, sleeps and
-- the clock are functions of the record System over a world, and so are the decoders of the JSON that
-- commands print; an answer of a service is given decoded. What a command prints to the terminal is left
-- out, and the text of an error omits some of the values that the source puts into it. strptime reads ASCII
-- digits only, and strftime writes the year with four digits, as it does from the year 1000 on.
--
-- Fuel. A wait of the recovery has one round for each five seconds of its timeout, and two more;
-- a wait of the drill one for each minute, and two more; a wait for a tunnel one for each 100 ms, and a scan of
-- a host key one for each second, and two more each. Each round that does not end the wait sleeps for that long,
-- so with a clock that is not set back the deadline comes first. The waits of scripts/recover.py and
-- scripts/drill.py read a wall clock, of which no theorem assumes that. Running out of fuel is an error of its own, which no handler catches.
--
-- Not modelled: the argument parsers, the lock file, reset and status of scripts/recover.py and
-- scripts/return_to_primary.py; of scripts/drill.py the step summary and what is printed; the main
-- functions of scripts/check_manifests.py and scripts/prepare_ansible_inventory.py, and the decryption of the password in
-- scripts/dataset.py; the remaining scripts (scripts/pipeline.py, scripts/capture_probe.py, scripts/fixture_commit.py); and the
-- shell, Terraform, Ansible and Kubernetes files, which are no Python.
pub mod Prelude
pub mod Text
pub mod Calendar
pub mod Sorting
pub mod Report
pub mod Settings
pub mod Watchdog
pub mod Recovery
pub mod Inventory
pub mod Dataset
pub mod Manifests
pub mod Return
pub mod Drill
pub mod Tunnels
pub mod Pins
pub mod Examples
