-- ===== src/Return/Stages.antt =====
-- scripts/return_to_primary.py: the class `Return` and its six stages. `recovered` is the state of the
-- recovery.
use k8s_dr.Prelude.{
  ℕ, suc, String, Bool, true, false, not, ◌&&◌, ◌||◌, Option, none, some, List, [], ◌∷◌, ◌++◌,
  stage_failed, key_error, Result, Done, ok, err, Exec, pure, lift, raise_if, ask, ◌>>=◌, ◌>>◌,
  if◌then◌else◌,
}
use k8s_dr.Text.{
  ◌=ᵗ◌, ◌<>◌, join, words, splitlines, empty, ends_with, part_before_last, sorted_texts, same_texts,
  leb_text,
}
use k8s_dr.Text.Decimal.{show}
use k8s_dr.Calendar.{set_name}
use k8s_dr.Recovery.State.{State, Machine, Change, System, on_world, set_values, save, event}
use k8s_dr.Recovery.Commands.{
  run, make, output, output_json, lookup, wait, resolves_to, wait_for_health, healthy, bucket,
  kubectl, account_disabled, current_address, is_address,
}
use k8s_dr.Recovery.Stages.{
  is_forbidden, only, problems, first_label, values_of, suspend_is, request_reconcile,
}
use k8s_dr.Recovery.Runner.{has_passed}
use k8s_dr.Recovery.Run.{Stage, same_stage}

-- The problem of one change of a destroy plan.
unfoldable pub destroy_problem : Change → Option String
destroy_problem c =
    if only "no-op" c.actions
    then none
    else if not (only "delete" c.actions)
    then some (c.address <> " would be " <> join "/" c.actions)
    else if is_forbidden c.kind
    then some (c.address <> " is an account or IAM grant")
    else none

-- The changes that are counted: no no-op, and no problem.
unfoldable pub count_deleted : List Change → ℕ
count_deleted [] = 0
count_deleted (c ∷ cs) =
    let rest = count_deleted cs in
    if not (only "no-op" c.actions) && (only "delete" c.actions && not (is_forbidden c.kind))
    then suc rest
    else rest

abbrev pub destroy_result : List String → List Change → Result String
destroy_result [] plan = ok ("plan destroys " <> show (count_deleted plan))
destroy_result (p ∷ ps) plan =
    err (stage_failed ("the destroy plan is not safe to apply: " <> join "; " (p ∷ ps)))

unfoldable pub check_destroy_plan : List Change → Result String
check_destroy_plan plan = destroy_result (problems destroy_problem plan) plan

-- `line.split("/")[-2]` of each line that names a manifest.
unfoldable pub set_names : List String → List String
set_names [] = []
set_names (line ∷ lines) =
    let rest = set_names lines in
    if ends_with line "/manifest.json"
    then elim (part_before_last b'/' line) [ none ↦ rest | some name ↦ name ∷ rest ]
    else rest

abbrev last_or_empty : List String → String
last_or_empty [] = ""
last_or_empty (t ∷ []) = t
last_or_empty (t ∷ u ∷ ts) = last_or_empty (u ∷ ts)

unfoldable pub newest_name : List String → String
newest_name lines = last_or_empty (sorted_texts (set_names lines))

-- `self.values["fence_lifted"]`.
abbrev pub lifted_time : Option String → Result String
lifted_time none = err (key_error "fence_lifted")
lifted_time (some t) = ok t

abbrev any_left : List String → Bool
any_left [] = false
any_left (_ ∷ _) = true

abbrev is_recorded : Option String → Bool
is_recorded none = false
is_recorded (some address) = not (empty address)

module _ {W P : Type 0} ⦃sys : System W⦄ (recovered : State Stage) where
  unfoldable pub require_environment : Exec (Machine W P) Done
  require_environment = do
    raise_if
        (not (has_passed same_stage Stage.provisioning recovered.passed)
          || not (is_recorded recovered.values.recovery_address))
        (stage_failed "no recovery run state with a recovery environment; nothing to return from")
    address ← current_address
    raise_if (not (is_address recovered.values.recovery_address address))
        (stage_failed "the recovery environment that the recovery recorded no longer exists")

  unfoldable pub newest_primary_set : Exec (Machine W P) String
  newest_primary_set = do
    name ← bucket
    listing ←
        run ("gcloud" ∷ "storage" ∷ "ls" ∷ ("gs://" <> name <> "/primary/*/manifest.json") ∷ [])
    pure (newest_name (splitlines listing))

  unfoldable pub start_primary : Exec (Machine W P) Done
  start_primary = do
    instances ← output_json "primary" "instance_names"
    zone ← output "primary" "zone"
    project ← output "primary" "project_id"
    run (
        "gcloud" ∷ "compute" ∷ "instances" ∷ "start" ∷ sorted_texts (values_of instances)
        ++ "--zone" ∷ zone ∷ "--project" ∷ project ∷ [])
    wait ("https://" <> sys.primary_host <> "/api/healthz does not return 200")
        (healthy sys.primary_host) 600
    make "check-fixtures" ("CLUSTER=primary" ∷ ("GIT_HOST=" <> sys.primary_host) ∷ [])
    pure tt

  -- This machine resolves the host to the one address.
  unfoldable pub resolves_here : String → String → Exec (Machine W P) Bool
  resolves_here host address = do
    found ← on_world (sys.local_addresses host)
    pure (same_texts found (address ∷ []))

  unfoldable pub dns_return : Exec (Machine W P) Done
  dns_return = do
    address ← output "primary" "public_web_address"
    make "dns-set" (("DNS_NAME=" <> first_label sys.public_host) ∷ ("DNS_ADDRESS=" <> address) ∷ [])
    wait (sys.public_host <> " does not resolve to the primary address at 1.1.1.1")
        (resolves_to sys.public_host address) 180
    wait ("this machine does not resolve " <> sys.public_host <> " to the primary address")
        (resolves_here sys.public_host address) 180
    wait_for_health sys.public_host
    make "check-fixtures" ("CLUSTER=primary" ∷ ("GIT_HOST=" <> sys.public_host) ∷ [])
    make "write-check" ("CLUSTER=primary" ∷ ("GIT_HOST=" <> sys.public_host) ∷ [])
    pure tt

  unfoldable pub suspend_if : Bool → Exec (Machine W P) Done
  suspend_if false =
      event "suspend-recovery-backups" "note" "the recovery never resumed its backups"
  suspend_if true = do
    kubectl (
        ("delete" ∷ "configmap/run-settings" ∷ "--namespace" ∷ "flux-system" ∷ "--ignore-not-found"
          ∷ [])
        ∷ [])
    request_reconcile
    wait "the recovery backup CronJob is not suspended" (suspend_is "true") 600

  unfoldable pub suspend_recovery_backups : Exec (Machine W P) Done
  suspend_recovery_backups =
      suspend_if (has_passed same_stage Stage.resume_backups recovered.passed)

  unfoldable pub is_enabled : String → Exec (Machine W P) Bool
  is_enabled account = do text ← account_disabled account; pure (empty text || text =ᵗ "False")

  unfoldable pub lift_fence : Exec (Machine W P) Done
  lift_fence = do
    accounts ← output_json "shared" "node_service_accounts"
    worker ← lift (lookup "primary/worker" accounts)
    run ("gcloud" ∷ "iam" ∷ "service-accounts" ∷ "enable" ∷ worker ∷ [])
    wait "the primary worker account still reports disabled=True" (is_enabled worker) 120
    now ← on_world sys.now
    set_values (λ v. record v { fence_lifted = some (set_name now) })
    save

  unfoldable pub remove_recovery : Exec (Machine W P) Done
  remove_recovery = do
    make "dns-delete" (("DNS_NAME=" <> first_label sys.recovery_host) ∷ [])
    wait (sys.recovery_host <> " still resolves at 1.1.1.1") (resolves_to sys.recovery_host "") 180
    run (
        "terraform" ∷ "-chdir=infra/recovery" ∷ "plan" ∷ "-destroy" ∷ "-input=false"
        ∷ "-out=recovery-destroy.tfplan" ∷ [])
    text ←
        run (
          "terraform" ∷ "-chdir=infra/recovery" ∷ "show" ∷ "-json" ∷ "recovery-destroy.tfplan" ∷ [])
    plan ← lift (sys.decode_plan text)
    note ← lift (check_destroy_plan plan)
    event "remove-recovery" "note" note
    run (
        "terraform" ∷ "-chdir=infra/recovery" ∷ "apply" ∷ "-input=false" ∷ "recovery-destroy.tfplan"
        ∷ [])
    left ← run ("terraform" ∷ "-chdir=infra/recovery" ∷ "state" ∷ "list" ∷ [])
    raise_if (any_left (words left)) (stage_failed "infra/recovery still holds resources")

  -- The newest set starts after the lift; names compare as text.
  unfoldable pub backs_up_again : String → Exec (Machine W P) Bool
  backs_up_again lifted = do name ← newest_primary_set; pure (leb_text lifted name)

  unfoldable pub primary_backup : Exec (Machine W P) Done
  primary_backup = do
    lifted ← ask (λ m. lifted_time m.state.values.fence_lifted)
    wait ("no primary set started after " <> lifted) (backs_up_again lifted) 1200
    name ← newest_primary_set
    event "primary-backup" "note" ("set " <> name)
