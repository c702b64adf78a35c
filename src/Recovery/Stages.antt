-- ===== src/Recovery/Stages.antt =====
-- scripts/recover.py: the ten stages, each with the check that ends it.
use k8s_dr.Prelude.{
  ℕ, zero, suc, code, String, Bool, false, not, ◌&&◌, ◌||◌, Option, none, some, List, [], ◌∷◌, ◌++◌,
  stage_failed, key_error, Result, Done, ok, err, Exec, pure, raise, lift, ask, ◌>>=◌, ◌>>◌, keep,
  any, ltb, ◌==◌, if◌then◌else◌,
}
use k8s_dr.Text.{
  ◌=ᵗ◌, ◌<>◌, join, split, splitlines, starts_with, ends_with, after_prefix, part_before_last,
  sorted_texts, is_space, is_hex, is_word,
}
use k8s_dr.Text.Decimal.{show}
use k8s_dr.Calendar.{stamp, set_name}
use k8s_dr.Recovery.State.{Machine, Change, System, on_world, set_values, save, event}
use k8s_dr.Recovery.Commands.{
  call, run_env, run, make, output, output_json, lookup, wait, wait_for_record, wait_for_health,
  healthy, bucket, kubectl, backup_suspend, require_backups_suspended, inventory, account_disabled,
  started_time,
}

abbrev pub has : String → List String → Bool
has t = any (λ u. u =ᵗ t)

-- FORBIDDEN_TYPES; a `$` also matches before a line feed at the end.
unfoldable pub is_forbidden : String → Bool
unfolding ends_with ◌<>◌
is_forbidden kind =
    starts_with kind "google_service_account"
    || ends_with kind "_iam_member"
    || ends_with kind "_iam_binding"
    || ends_with kind "_iam_policy"
    || ends_with kind "_iam_member\n"
    || ends_with kind "_iam_binding\n"
    || ends_with kind "_iam_policy\n"

abbrev pub only : String → List String → Bool
only t (u ∷ []) = u =ᵗ t
only t _ = false

-- The problem of one change of a recovery plan.
unfoldable pub plan_problem : Change → Option String
unfolding is_forbidden ◌<>◌
plan_problem c =
    if has "delete" c.actions
    then some (c.address <> " would be deleted")
    else if is_forbidden c.kind && not (only "no-op" c.actions)
    then some (c.address <> " is an account or IAM change")
    else none

unfoldable pub problems : (Change → Option String) → List Change → List String
problems f [] = []
problems f (c ∷ cs) =
    let rest = problems f cs in elim (f c) [ none ↦ rest | some problem ↦ problem ∷ rest ]

unfoldable pub count_actions : String → List Change → ℕ
count_actions action [] = 0
count_actions action (c ∷ cs) =
    let rest = count_actions action cs in if has action c.actions then suc rest else rest

abbrev pub plan_result : List String → List Change → Result String
plan_result [] plan = ok (
    "plan creates "
    <> show (count_actions "create" plan)
    <> " and updates "
    <> show (count_actions "update" plan))
plan_result (p ∷ ps) plan =
    err (stage_failed ("the recovery plan is not safe to apply: " <> join "; " (p ∷ ps)))

-- `check_plan`.
unfoldable pub check_plan : List Change → Result String
unfolding problems plan_problem
check_plan plan = plan_result (problems plan_problem plan) plan

-- The text up to the first dot, `host.split(".")[0]`.
abbrev head_or : List String → String
head_or [] = ""
head_or (t ∷ ts) = t

unfoldable pub first_label : String → String
first_label host = head_or (split b'.' host)

-- `host.split(".", 1)[1]`; the host names of the settings have a dot.
unfoldable pub domain : String → String
domain String.[] = ""
domain (String.◌∷◌ c s) = if code c == b'.' then s else domain s

-- f"{started:%Y%m%dt%H%M%Sz}": the set name in small letters.
unfoldable pub small_letters : String → String
small_letters String.[] = String.[]
small_letters (String.◌∷◌ c s) =
    String.◌∷◌ (if code c == b'T' then "t" else if code c == b'Z' then "z" else c) (small_letters s)

-- The lines of a listing that name a manifest.
unfoldable pub manifests : String → List String
manifests listing =
    sorted_texts (keep (λ line. ends_with line "/manifest.json") (splitlines listing))

abbrev last_text : List String → Option String
last_text [] = none
last_text (t ∷ []) = some t
last_text (t ∷ u ∷ ts) = last_text (u ∷ ts)

-- `manifests[-1].split("/")[-2]`, or the failure of an empty listing.
unfoldable pub newest_set : List String → Result String
unfolding part_before_last
newest_set lines = elim (last_text lines) [
  | none ↦ err (stage_failed "no complete set under primary/")
  | some line ↦ elim (part_before_last b'/' line) [
    | none ↦ err (stage_failed "no complete set under primary/")
    | some name ↦ ok name
  ]
]

-- Forty digits of [0-9a-f] and then no word character.
unfoldable pub take_hex : ℕ → String → Option String
unfolding is_hex is_word
take_hex zero String.[] = some ""
take_hex zero (String.◌∷◌ c s) = if is_word (code c) then none else some ""
take_hex (suc n) String.[] = none
take_hex (suc n) (String.◌∷◌ c s) =
    let rest = take_hex n s in
    if is_hex (code c) then elim rest [ none ↦ none | some t ↦ some (String.◌∷◌ c t) ] else none

-- \S+: and a space, then the commit. `seen` counts the characters of the run, and `colon` says that
-- the last one was a colon.
unfoldable pub match_address : ℕ → Bool → String → Option String
unfolding is_space take_hex
match_address seen colon String.[] = none
match_address seen colon (String.◌∷◌ c s) =
    let rest = match_address (suc seen) (code c == b':') s in
    if code c == 32
    then (if colon && ltb 1 seen then take_hex 40 s else none)
    else if is_space (code c)
    then none
    else rest

-- The first place at which the newest-commit line matches.
unfoldable pub find_head : String → Option String
unfolding match_address after_prefix
find_head String.[] = none
find_head (String.◌∷◌ c s) =
    let rest = find_head s in
    elim (after_prefix "Newest commit on " (String.◌∷◌ c s)) [
      | none ↦ rest
      | some t ↦ elim (match_address 0 false t) [ none ↦ rest | some commit ↦ some commit ]
    ]

abbrev pub values_of : List (String × String) → List String
values_of [] = []
values_of ((k, v) ∷ rest) = v ∷ values_of rest

module _ {W P : Type 0} ⦃sys : System W⦄ where
  unfoldable pub preflight : Exec (Machine W P) Done
  preflight = do
    run_env ("make" ∷ "--no-print-directory" ∷ "preflight" ∷ [])
        (("PREFLIGHT_SKIP", "fixtures") ∷ [])
    pure tt

  unfoldable pub provisioning : Exec (Machine W P) Done
  provisioning = do
    run (
        "terraform" ∷ "-chdir=infra/recovery" ∷ "plan" ∷ "-input=false" ∷ "-out=recovery.tfplan"
        ∷ [])
    text ← run ("terraform" ∷ "-chdir=infra/recovery" ∷ "show" ∷ "-json" ∷ "recovery.tfplan" ∷ [])
    plan ← lift (sys.decode_plan text)
    note ← lift (check_plan plan)
    event "provisioning" "note" note
    run ("terraform" ∷ "-chdir=infra/recovery" ∷ "apply" ∷ "-input=false" ∷ "recovery.tfplan" ∷ [])
    address ← output "recovery" "public_web_address"
    set_values (λ v. record v { recovery_address = some address })
    save
    make "dns-set"
        (("DNS_NAME=" <> first_label sys.recovery_host) ∷ ("DNS_ADDRESS=" <> address) ∷ [])
    wait_for_record sys.recovery_host address

  unfoldable pub certificate_host_or : Option String → Exec (Machine W P) String
  certificate_host_or (some host) = pure host
  certificate_host_or none = do
    started ← ask (λ m. started_time m.state.started)
    let host = "run-" <> small_letters (set_name started) <> "." <> domain sys.public_host
    set_values (λ v. record v { certificate_host = some host })
    save
    pure host

  -- The name of the run's certificate, made once.
  unfoldable pub certificate_host : Exec (Machine W P) String
  certificate_host = do
    known ← ask (λ m. ok m.state.values.certificate_host)
    certificate_host_or known

  unfoldable pub bootstrap : Exec (Machine W P) Done
  bootstrap = do
    inventory
    host ← certificate_host
    make "bootstrap" ("CLUSTER=recovery" ∷ ("BOOTSTRAP_ARGS=-e run_certificate_host=" <> host) ∷ [])
    pure tt

  unfoldable pub flux_reconcile : Exec (Machine W P) Done
  flux_reconcile = do
    make "validate-cluster" ("CLUSTER=recovery" ∷ [])
    make "validate-services" ("CLUSTER=recovery" ∷ [])
    require_backups_suspended

  unfoldable pub backup_set_or : Option String → Exec (Machine W P) String
  backup_set_or (some name) = pure name
  backup_set_or none = do
    source ← bucket
    listing ←
        run ("gcloud" ∷ "storage" ∷ "ls" ∷ ("gs://" <> source <> "/primary/*/manifest.json") ∷ [])
    name ← lift (newest_set (manifests listing))
    set_values (λ v. record v { backup_set = some name })
    save
    event "restore" "note" ("set " <> name)
    pure name

  -- The set to restore, chosen once.
  unfoldable pub backup_set : Exec (Machine W P) String
  backup_set = do known ← ask (λ m. ok m.state.values.backup_set); backup_set_or known

  unfoldable pub restore : Exec (Machine W P) Done
  restore = do
    name ← backup_set
    make "restore" ("CLUSTER=recovery" ∷ "RESTORE_NAMESPACE=gitea" ∷ ("RESTORE_SET=" <> name) ∷ [])
    pure tt

  -- The restored HEAD is read from the first report only.
  unfoldable pub record_head : Option String → Option String → Exec (Machine W P) Done
  record_head (some head) found = pure tt
  record_head none none = raise (stage_failed "check-fixtures did not report the newest commit")
  record_head none (some head) = do
    set_values (λ v. record v { restored_head = some head })
    save
    event "verification" "note" ("restored HEAD " <> head)

  unfoldable pub verification : Exec (Machine W P) Done
  verification = do
    wait_for_health sys.recovery_host
    report ← make "check-fixtures" ("CLUSTER=recovery" ∷ ("GIT_HOST=" <> sys.recovery_host) ∷ [])
    known ← ask (λ m. ok m.state.values.restored_head)
    record_head known (find_head report)
    make "write-check" ("CLUSTER=recovery" ∷ ("GIT_HOST=" <> sys.recovery_host) ∷ [])
    require_backups_suspended

  unfoldable pub is_disabled : String → Exec (Machine W P) Bool
  is_disabled account = do text ← account_disabled account; pure (text =ᵗ "True")

  unfoldable pub is_silent : String → Exec (Machine W P) Bool
  is_silent host = do serves ← healthy host; pure (not serves)

  unfoldable pub fence : Exec (Machine W P) Done
  fence = do
    instances ← output_json "primary" "instance_names"
    zone ← output "primary" "zone"
    project ← output "primary" "project_id"
    stop ←
        call
          ("gcloud" ∷ "compute" ∷ "instances" ∷ "stop" ∷ sorted_texts (values_of instances)
            ++ "--zone" ∷ zone ∷ "--project" ∷ project ∷ [])
          []
    (if stop.returncode == 0
        then pure tt
        else event "fence" "note" ("stopping the primary VMs exited " <> show stop.returncode))
    accounts ← output_json "shared" "node_service_accounts"
    worker ← lift (lookup "primary/worker" accounts)
    run ("gcloud" ∷ "iam" ∷ "service-accounts" ∷ "disable" ∷ worker ∷ [])
    wait "the primary worker account does not report disabled=True" (is_disabled worker) 120
    wait ("https://" <> sys.primary_host <> "/api/healthz still returns 200")
        (is_silent sys.primary_host) 300

  -- `self.values["recovery_address"]`.
  unfoldable pub recorded_address : Exec (Machine W P) String
  recorded_address = ask (λ m. elim m.state.values.recovery_address [
    | none ↦ err (key_error "recovery_address")
    | some address ↦ ok address
  ])

  unfoldable pub dns_cutover : Exec (Machine W P) Done
  dns_cutover = do
    address ← recorded_address
    make "dns-set" (("DNS_NAME=" <> first_label sys.public_host) ∷ ("DNS_ADDRESS=" <> address) ∷ [])
    wait_for_record sys.public_host address

  unfoldable pub probe_recovery : Exec (Machine W P) Done
  probe_recovery = do
    wait_for_health sys.public_host
    make "check-fixtures" ("CLUSTER=recovery" ∷ ("GIT_HOST=" <> sys.public_host) ∷ [])
    make "write-check" ("CLUSTER=recovery" ∷ ("GIT_HOST=" <> sys.public_host) ∷ [])
    pure tt

  -- `backup_suspend() == value`.
  unfoldable pub suspend_is : String → Exec (Machine W P) Bool
  suspend_is value = do text ← backup_suspend; pure (text =ᵗ value)

  -- The request for a reconcile of the gitea Kustomization.
  unfoldable pub request_reconcile : Exec (Machine W P) Done
  request_reconcile = do
    now ← on_world sys.now
    kubectl (
        ("annotate"
          ∷ "--overwrite"
          ∷ "--namespace"
          ∷ "flux-system"
          ∷ "kustomization/gitea"
          ∷ ("reconcile.fluxcd.io/requestedAt=" <> stamp now)
          ∷ [])
        ∷ [])
    pure tt

  unfoldable pub resume_backups : Exec (Machine W P) Done
  resume_backups = do
    kubectl (
        ("create" ∷ "configmap" ∷ "run-settings" ∷ "--namespace" ∷ "flux-system"
          ∷ "--from-literal=backup_suspend=false" ∷ "--dry-run=client" ∷ "--output=yaml" ∷ [])
        ∷ ("apply" ∷ "--filename=-" ∷ [])
        ∷ [])
    request_reconcile
    wait "the recovery backup CronJob is still suspended" (suspend_is "false") 600
