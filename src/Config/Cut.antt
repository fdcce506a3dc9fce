-- ===== src/Config/Cut.antt =====
-- A report that is lost: an image profile whose entry names an unknown repository.
use ai_lab.Common.{
  ℕ, ◌≡◌, refl, ◌∙◌, inl, inr, Bool, true, false, Option, none, some, List, [], ◌∷◌, Bool-cases,
  arith, nat_key, ◌==◌, ==_refl,
}
use ai_lab.Common.Dict.{get}
use ai_lab.Clients.Text.{Text, text_key, text_eq_iff, before_slash, behind_slash}
use ai_lab.Config.Rules.{Options, model_map_fields}
use ai_lab.Config.Validation.{
  Instance, Parsed, raises, claims, Config, Message, Report, is_in, add_new, add_if, check_roots,
  check_repositories, check_manager_port, check_identity, claim_worker_port, configured,
  check_options, check_field, check_engine_options, check_placement, check_instance,
  check_instances, policy_message, section_message, section_messages, check_policies, claim_port,
  claim_ports, check_section_ports, check_all, new_report, find_instance, find_repository, Profile,
  is_image_task, check_image_profile, check_image_profiles, key_error, validate_configuration,
}

add_if-instance_ids :
    (test : Bool) (m : Message) (r : Report) → (add_if test m r).instance_ids ≡ r.instance_ids
add_if-instance_ids true m r = refl
add_if-instance_ids false m r = refl

module _ (c : Config) (engine_ids : List Text) where
  options-instance_ids :
      (item : Instance) (found : Option (Option Options)) (r : Report)
      → (check_options c engine_ids item found r).instance_ids ≡ r.instance_ids
  unfolding claim_worker_port
  options-instance_ids item none r = refl
  options-instance_ids item (some options) r = ground arith

  field-instance_ids :
      (item : Instance) (field : Option Text) (r : Report)
      → (check_field c engine_ids item field r).instance_ids ≡ r.instance_ids
  field-instance_ids item none r = refl
  field-instance_ids item (some field) r =
      options-instance_ids item
        (get (behind_slash item.model_id) (configured c engine_ids item.engine field)) r

  instance-instance_ids :
      (item : Instance) (r : Report)
      → (check_instance c engine_ids item r).instance_ids ≡ add_new item.id r.instance_ids
  unfolding check_identity check_engine_options check_placement
  instance-instance_ids item r =
      let r1 = check_identity c engine_ids item r in
      let field = field-instance_ids item (get item.engine model_map_fields) r1 in
      ground (arith, field)

  instances-is_in :
      (id : Text) (items : List Instance) (r : Report)
      → is_in id r.instance_ids ≡ true
      → is_in id (check_instances c engine_ids items r).instance_ids ≡ true
  unfolding check_instances
  instances-is_in id [] r has = has
  instances-is_in id (item ∷ items) r has =
      instances-is_in id items (check_instance c engine_ids item r)
        (rw (instance-instance_ids item r) (ground (arith, has)))

  found-is_in :
      (id : Text) (item : Instance) (items : List Instance) (r : Report)
      → find_instance id items ≡ some item
      → is_in id (check_instances c engine_ids items r).instance_ids ≡ true
  unfolding check_instances find_instance
  found-is_in id item [] r found = ground (arith, found)
  found-is_in id item (first ∷ items) r found = elim (Bool-cases (first.id == id)) [
    | inl same ↦ instances-is_in id items (check_instance c engine_ids first r) (
        rw (instance-instance_ids first r)
          (ground (arith, same, text_eq_iff first.id id, ==_refl first.id)))
    | inr other ↦
        found-is_in id item items (check_instance c engine_ids first r)
          (ground (arith, found, other))
  ]

messages-instance_ids :
    (sections : List Parsed) (r : Report)
    → (section_messages sections r).instance_ids ≡ r.instance_ids
unfolding section_messages
messages-instance_ids [] r = refl
messages-instance_ids (raises words ∷ sections) r =
    messages-instance_ids sections (section_message (raises words) r)
messages-instance_ids (claims ports ∷ sections) r = messages-instance_ids sections r

policy-instance_ids :
    (policy : Option Text) (r : Report) → (policy_message policy r).instance_ids ≡ r.instance_ids
policy-instance_ids none r = refl
policy-instance_ids (some words) r = refl

claim_ports-instance_ids :
    (ports : List (Text × ℕ)) (r : Report) → (claim_ports ports r).instance_ids ≡ r.instance_ids
unfolding claim_ports
claim_ports-instance_ids [] r = refl
claim_ports-instance_ids ((who, port) ∷ ports) r =
    claim_ports-instance_ids ports (claim_port who port r) ∙ ground arith

sections-instance_ids :
    (sections : List Parsed) (r : Report)
    → (check_section_ports sections r).instance_ids ≡ r.instance_ids
unfolding check_section_ports
sections-instance_ids [] r = refl
sections-instance_ids (raises words ∷ sections) r = sections-instance_ids sections r
sections-instance_ids (claims ports ∷ sections) r =
    sections-instance_ids sections (claim_ports ports r) ∙ claim_ports-instance_ids ports r

-- If the first profile of images has one of its two tasks and uses an entry that names a repository
-- the configuration does not have, the validation raises a `KeyError` of that repository, whatever
-- else is wrong: no report is given.
pub validate_configuration-Cut :
    (c : Config) (engine_ids : List Text) (has_workflow : Text → Bool) (check_workflows : Bool)
    (profile : Profile) (profiles : List Profile) (item : Instance)
    → c.profiles ≡ profile ∷ profiles
    → is_image_task profile.task ≡ true
    → find_instance profile.model c.instances ≡ some item
    → find_repository (before_slash item.model_id) c.repositories ≡ none
    → validate_configuration c engine_ids has_workflow check_workflows
      ≡ key_error (before_slash item.model_id)
unfolding validate_configuration check_policies check_image_profiles check_image_profile
validate_configuration-Cut c engine_ids has_workflow check_workflows profile profiles item is task
      found missing =
    let r3 = check_manager_port c (check_repositories c (check_roots c new_report)) in
    let r4 = check_instances c engine_ids c.instances r3 in
    let kept =
      sections-instance_ids c.sections (check_policies c r4)
      ∙ messages-instance_ids c.sections (policy_message c.gateway_policy r4)
      ∙ policy-instance_ids c.gateway_policy r4 in
    let known : is_in profile.model (check_all c engine_ids).instance_ids ≡ true =
      rw (kept) (found-is_in c engine_ids profile.model item c.instances r3 found) in
    rw (is, known, task, found, missing) refl
