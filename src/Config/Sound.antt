-- ===== src/Config/Sound.antt =====
-- What an accepted configuration keeps to.
use ai_lab.Common.{
  ℕ, ◌≡◌, refl, sym, ap, ◌∙◌, subst, Bool, true, false, not, ◌&&◌, ◌||◌, Option, none, some, List,
  [], ◌∷◌, ◌++◌, map, if_cases, arith, All, nat_key, ◌==◌,
}
use ai_lab.Clients.Text.{Text, text_key, text_eq_iff, before_slash}
use ai_lab.Config.Rules.{is_bare}
use ai_lab.Config.Validation.{
  Instance, Config, Message, manager_port_out_of_range, repeated_repository, unknown_download_root,
  Report, is_in, add_new, add_if, is_port, ids_of, has_repeats, check_roots, check_repositories,
  check_manager_port, check_instances, policy_message, check_policies, check_all, new_report,
  Profile, Repository, Checked, checked, unknown_key, is_image_task, find_instance, find_repository,
  expected_task, check_profile_workflow, invalid_workflow, workflow_absent, check_repository_task,
  check_profile_task, check_image_profile, check_image_profiles, then_check, unknown_instance,
  unsupported_task, wrong_task, valid, verdict, verdict_of, validate_configuration,
}
use ai_lab.Config.Apart.{Joins, Joins-one, Joins-both}
use ai_lab.Config.Entries.{IsClean, not_nil, add_if-IsClean, IsServable, all_ports, instances_sound}
use ai_lab.Config.Sections.{HasParsed, section_ports, messages_sound, policy_sound, sections_sound}

-- The ports that a configuration claims, the manager's first.
abbrev pub claimed : Config → List Text → List ℕ
claimed c engine_ids = c.port ∷ (all_ports c engine_ids c.instances ++ section_ports c.sections)

abbrev pub entry_ids : Config → List Text
entry_ids c = map (λ item. item.id) c.instances

-- Every reference of a configuration is to something that is there, and no name and no port is
-- used twice.
abbrev pub IsSound : Config → List Text → Type 0
IsSound c engine_ids =
    (is_in c.download_root c.model_roots ≡ true)
    × (has_repeats (ids_of c) ≡ false)
    × (is_port c.port ≡ true)
    × (has_repeats (entry_ids c) ≡ false)
    × (has_repeats (claimed c engine_ids) ≡ false)
    × All (IsServable c engine_ids) c.instances
    × (c.gateway_policy ≡ none)
    × All HasParsed c.sections

chain-IsSound :
    (c : Config) (engine_ids : List Text) → IsClean (check_all c engine_ids) → IsSound c engine_ids
unfolding check_roots check_repositories check_manager_port check_policies
chain-IsSound c engine_ids clean =
    let r1 = check_roots c new_report in
    let r2 = check_repositories c r1 in
    let r3 = check_manager_port c r2 in
    let r4 = check_instances c engine_ids c.instances r3 in
    let told = policy_message c.gateway_policy r4 in
    let (clean6, sections) = sections_sound c.sections (check_policies c r4) clean in
    let (clean5, parsed, same6) = messages_sound c.sections told clean6 in
    let (policy, clean4, same5) = policy_sound c.gateway_policy r4 clean5 in
    let (clean3, servable, ids, ports) = instances_sound c engine_ids c.instances r3 clean4 in
    let taken = record r2 { ports = add_new c.port r2.ports } in
    let (range, clean2, same3) =
      add_if-IsClean (not (is_port c.port)) manager_port_out_of_range taken clean3 in
    let (unique, clean1, same2) =
      add_if-IsClean (has_repeats (ids_of c)) repeated_repository r1 clean2 in
    let (root, clean0, same1) =
      add_if-IsClean (not (is_in c.download_root c.model_roots)) unknown_download_root new_report
        clean1 in
    let manager : Joins (c.port ∷ []) [] r3.ports =
      subst (Joins (c.port ∷ []) [])
        (sym (ap (λ s. s.ports) same3 ∙ ap (λ s. add_new c.port s.ports) (same2 ∙ same1)))
        (Joins-one c.port [] refl) in
    let rest =
      subst (λ before. Joins (section_ports c.sections) before (check_all c engine_ids).ports)
        (ap (λ s. s.ports) (same6 ∙ same5)) sections in
    let all = Joins-both manager (Joins-both ports rest) in
    (
      ground (arith, root),
      unique,
      ground (arith, range),
      ids.apart,
      all.apart,
      servable,
      policy,
      parsed,
    )

no_errors : (errors : List Message) → verdict_of errors ≡ valid → errors ≡ []
no_errors [] is = refl
no_errors (error ∷ errors) is = absurd (ground (arith, is))

module _ (c : Config) (has_workflow : Text → Bool) (check_workflows : Bool) where
  -- A profile of images uses an entry of the configuration for the task that its repository is for,
  -- with a workflow that is named and, if that is asked for, is there.
  abbrev pub IsUsable : Profile → Type 0
  IsUsable profile =
      (is_image_task profile.task ≡ true)
      × ((item : Instance) × (repository : Repository) × (find_instance profile.model c.instances
            ≡ some item)
          × (find_repository (before_slash item.model_id) c.repositories ≡ some repository)
          × (repository.task ≡ expected_task profile.task))
      × (is_bare profile.workflow ≡ true)
      × ((not check_workflows || has_workflow profile.workflow) ≡ true)

  abbrev Passes : (Report → Type 0) → Checked → Type 0
  Passes P (unknown_key id) = Unit
  Passes P (checked r) = P r

  workflow_sound :
      (profile : Profile) (r : Report)
      → IsClean (check_profile_workflow c has_workflow check_workflows profile r)
      → IsClean r
        × (is_bare profile.workflow ≡ true)
        × ((not check_workflows || has_workflow profile.workflow) ≡ true)
  workflow_sound profile r clean' =
      if_cases
        (λ r'.
          IsClean r'
          → IsClean r
            × (is_bare profile.workflow ≡ true)
            × ((not check_workflows || has_workflow profile.workflow) ≡ true))
        (not (is_bare profile.workflow))
        (λ bad. λ clean. absurd (not_nil r.errors (invalid_workflow profile.id) clean))
        (λ bare. λ clean.
          let (there, clean'', same) =
            add_if-IsClean (check_workflows && not (has_workflow profile.workflow))
              (workflow_absent profile.id) r clean in
          (clean'', ground (arith, bare), ground (arith, there)))
        clean'

  Passes-map :
      {P Q : Report → Type 0} (o : Checked) → ((r : Report) → P r → Q r) → Passes P o → Passes Q o
  Passes-map (unknown_key id) f passes = tt
  Passes-map (checked r) f passes = f r passes

  repository_sound :
      (profile : Profile) (item : Instance) (found : Option Repository) (r : Report)
      → is_image_task profile.task ≡ true
      → find_instance profile.model c.instances ≡ some item
      → find_repository (before_slash item.model_id) c.repositories ≡ found
      → Passes
          (λ r'. IsClean r' → IsClean r × IsUsable profile)
          (check_repository_task c has_workflow check_workflows profile
            (before_slash item.model_id)
            found
            r)
  repository_sound profile item none r task is_there at' = tt
  repository_sound profile item (some repository) r task is_there at' = λ clean.
      let wrong = not (repository.task == expected_task profile.task) in
      let (clean', bare, present) =
        workflow_sound profile (add_if wrong (wrong_task profile.id profile.model) r) clean in
      let (right, clean'', same) =
        add_if-IsClean wrong (wrong_task profile.id profile.model) r clean' in
      (
        clean'',
        (
          task,
          (
            item,
            repository,
            is_there,
            at',
            ground (arith, right, text_eq_iff repository.task (expected_task profile.task)),
          ),
          bare,
          present,
        ),
      )

  task_sound :
      (profile : Profile) (found : Option Instance) (r : Report)
      → is_image_task profile.task ≡ true
      → find_instance profile.model c.instances ≡ found
      → Passes
          (λ r'. IsClean r' → IsClean r × IsUsable profile)
          (check_profile_task c has_workflow check_workflows profile found r)
  task_sound profile none r task is_there = tt
  task_sound profile (some item) r task is_there =
      repository_sound profile item (find_repository (before_slash item.model_id) c.repositories) r
        task is_there refl

  profile_sound :
      (profile : Profile) (r : Report)
      → Passes
          (λ r'. IsClean r' → IsClean r × IsUsable profile)
          (check_image_profile c has_workflow check_workflows profile r)
  unfolding check_image_profile
  profile_sound profile r =
      let P : Checked → Type 0 = Passes (λ r'. IsClean r' → IsClean r × IsUsable profile) in
      if_cases P (not (is_in profile.model r.instance_ids))
        (λ unknown.
          λ clean. absurd (not_nil r.errors (unknown_instance profile.id profile.model) clean))
        (λ known.
          if_cases P (not (is_image_task profile.task))
            (λ odd.
              λ clean. absurd (not_nil r.errors (unsupported_task profile.id profile.task) clean))
            (λ image.
              task_sound profile (find_instance profile.model c.instances) r (ground (arith, image))
                refl))

  then_sound :
      (profile : Profile) (profiles : List Profile) (r : Report) (o : Checked)
      → Passes (λ r'. IsClean r' → IsClean r × IsUsable profile) o
      → ((r1 : Report)
          → Passes
              (λ r'. IsClean r' → IsClean r1 × All IsUsable profiles)
              (check_image_profiles c has_workflow check_workflows profiles r1))
      → Passes
          (λ r'. IsClean r' → IsClean r × All IsUsable (profile ∷ profiles))
          (then_check c has_workflow check_workflows
            (check_image_profiles c has_workflow check_workflows profiles)
            o)
  then_sound profile profiles r (unknown_key id) first rest = tt
  then_sound profile profiles r (checked r1) first rest =
      Passes-map (check_image_profiles c has_workflow check_workflows profiles r1)
        (λ r'. λ sound. λ clean.
          let (clean1, usable) = sound clean in
          let (clean0, here) = first clean1 in (clean0, (here, usable)))
        (rest r1)

  profiles_sound :
      (profiles : List Profile) (r : Report)
      → Passes
          (λ r'. IsClean r' → IsClean r × All IsUsable profiles)
          (check_image_profiles c has_workflow check_workflows profiles r)
  unfolding check_image_profiles
  profiles_sound [] r = λ clean. (clean, tt)
  profiles_sound (profile ∷ profiles) r =
      then_sound profile profiles r (check_image_profile c has_workflow check_workflows profile r)
        (profile_sound profile r) (λ r1. profiles_sound profiles r1)

  verdict_sound :
      (o : Checked) {S : Type 0} → Passes (λ r'. IsClean r' → S) o → verdict o ≡ valid → S
  verdict_sound (unknown_key id) passes is = absurd (ground (arith, is))
  verdict_sound (checked r) passes is = passes (no_errors r.errors is)

  -- A configuration that is accepted keeps to this: the download root is one of the roots, no
  -- repository, no entry and no port is there twice, each entry names an engine and a repository
  -- that are known, has a port in range and the options its engine's rules ask for, the policies
  -- and sections parse, and each profile of images uses an entry for the right task, with a
  -- workflow.
  pub validate_configuration-IsSound :
      (engine_ids : List Text)
      → validate_configuration c engine_ids has_workflow check_workflows ≡ valid
      → IsSound c engine_ids × All IsUsable c.profiles
  unfolding validate_configuration
  validate_configuration-IsSound engine_ids accepted =
      let r = check_all c engine_ids in
      let (clean, usable) =
        verdict_sound (check_image_profiles c has_workflow check_workflows c.profiles r)
          (profiles_sound c.profiles r) accepted in
      (chain-IsSound c engine_ids clean, usable)
