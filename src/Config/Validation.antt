-- ===== src/Config/Validation.antt =====
-- ai_lab/config/validation.py: the report and the chain of checkers. What a policy or a section
-- parses to is outside and told with its section: the words it raises, or the ports it claims.
-- Ports are natural numbers. Sets of ports and ids are lists without repeats.
use ai_lab.Common.{
  ℕ, Bool, true, false, not, ◌&&◌, ◌||◌, Option, none, some, List, [], ◌∷◌, ◌++◌, map,
  if◌then◌else◌, leb, eqb, ◌==◌, Key, nat_key,
}
use ai_lab.Common.Dict.{Dict, get}
use ai_lab.Clients.Text.{Text, codes, text_key, behind_slash, before_slash}
use ai_lab.Config.Rules.{Options, int, Value, options_pass, model_map_fields, is_bare}

pub record Repository : Type 0 where
  pub id : Text
  pub task : Text

pub record Instance : Type 0 where
  pub id : Text
  pub engine : Text
  pub model_id : Text
  pub port : ℕ

-- A profile of images, with the defaults of the source for what is missing.
pub record Profile : Type 0 where
  pub id : Text
  pub model : Text
  pub task : Text
  pub workflow : Text

-- What the parse of a section ends in: a `ValueError` or the ports it claims. Sections are taken to
-- raise nothing else.
pub data Parsed : Type 0 where
  raises : (words : Text) → Parsed
  claims : (ports : List (Text × ℕ)) → Parsed

pub record Config : Type 0 where
  pub model_roots : List Text
  pub download_root : Text
  pub repositories : List Repository
  pub port : ℕ
  pub instances : List Instance
  pub engines : Dict Text (Dict Text (Dict Text (Option Options)))
  pub gateway_policy : Option Text
  pub sections : List Parsed
  pub profiles : List Profile

pub data Message : Type 0 where
  unknown_download_root : Message
  repeated_repository : Message
  manager_port_out_of_range : Message
  duplicate_instance : (id : Text) → Message
  unknown_engine : (id engine : Text) → Message
  no_checkpoint : (id engine : Text) → Message
  invalid_options : (id engine : Text) → Message
  unknown_repository : (id repository : Text) → Message
  port_taken : (who : Text) (port : ℕ) → Message
  port_out_of_range : (id : Text) → Message
  policy_says : (words : Text) → Message
  unknown_instance : (profile model : Text) → Message
  unsupported_task : (profile task : Text) → Message
  wrong_task : (profile model : Text) → Message
  invalid_workflow : (profile : Text) → Message
  workflow_absent : (profile : Text) → Message

pub record Report : Type 0 where
  pub errors : List Message
  pub instance_ids : List Text
  pub ports : List ℕ

abbrev pub is_in {ℓ} : {A : Type ℓ} ⦃k : Key A⦄ → A → List A → Bool
is_in a [] = false
is_in a (b ∷ bs) = (b == a) || is_in a bs

abbrev pub add_new {ℓ} : {A : Type ℓ} ⦃k : Key A⦄ → A → List A → List A
add_new a as' = if is_in a as' then as' else a ∷ as'

-- `report.add(message)` under a test.
abbrev pub add_if : Bool → Message → Report → Report
add_if test message r = if test then record r { errors = r.errors ++ (message ∷ []) } else r

abbrev pub max_port : ℕ
max_port = 65535

abbrev pub is_port : ℕ → Bool
is_port port = leb 1 port && leb port max_port

unfoldable pub check_roots : Config → Report → Report
check_roots c r = add_if (not (is_in c.download_root c.model_roots)) unknown_download_root r

abbrev pub ids_of : Config → List Text
ids_of c = map (λ item. item.id) c.repositories

abbrev pub has_repeats {ℓ} : {A : Type ℓ} ⦃k : Key A⦄ → List A → Bool
has_repeats [] = false
has_repeats (id ∷ ids) = is_in id ids || has_repeats ids

unfoldable pub check_repositories : Config → Report → Report
check_repositories c r = add_if (has_repeats (ids_of c)) repeated_repository r

unfoldable pub check_manager_port : Config → Report → Report
check_manager_port c r =
    add_if (not (is_port c.port)) manager_port_out_of_range
      (record r { ports = add_new c.port r.ports })

module _ (c : Config) (engine_ids : List Text) where
  unfoldable pub check_identity : Instance → Report → Report
  check_identity item r =
      let r' = add_if (is_in item.id r.instance_ids) (duplicate_instance item.id) r in
      add_if (not (is_in item.engine engine_ids)) (unknown_engine item.id item.engine)
        (record r' { instance_ids = add_new item.id r'.instance_ids })

  abbrev pub worker_port_of : Option Value → ℕ
  worker_port_of (some (int is_negative n)) = n
  worker_port_of _ = 0

  abbrev pub worker_port : Option Options → ℕ
  worker_port none = 0
  worker_port (some options) = worker_port_of (get (codes "worker_port") options)

  unfoldable pub claim_worker_port : Instance → ℕ → Report → Report
  claim_worker_port item port r =
      if eqb port item.port || is_in port r.ports
      then add_if true (invalid_options item.id item.engine) r
      else record r { ports = add_new port r.ports }

  abbrev pub or_no_dict {ℓ} : {V : Type ℓ} → Option (Dict Text V) → Dict Text V
  or_no_dict none = []
  or_no_dict (some d) = d

  -- `engines.get(engine, {}).get(field, {})`
  abbrev pub configured : Text → Text → Dict Text (Option Options)
  configured engine field = or_no_dict (get field (or_no_dict (get engine c.engines)))

  abbrev pub check_options : Instance → Option (Option Options) → Report → Report
  check_options item none r = add_if true (no_checkpoint item.id item.engine) r
  check_options item (some options) r =
      if not (options_pass item.engine options)
      then add_if true (invalid_options item.id item.engine) r
      else if item.engine == codes "higgs"
      then claim_worker_port item (worker_port options) r
      else r

  abbrev pub check_field : Instance → Option Text → Report → Report
  check_field item none r = r
  check_field item (some field) r =
      check_options item (get (behind_slash item.model_id) (configured item.engine field)) r

  unfoldable pub check_engine_options : Instance → Report → Report
  unfolding options_pass claim_worker_port behind_slash
  check_engine_options item r = check_field item (get item.engine model_map_fields) r

  unfoldable pub check_placement : Instance → Report → Report
  unfolding before_slash
  check_placement item r =
      let repository_id = before_slash item.model_id in
      let r1 =
        add_if (not (is_in repository_id (ids_of c))) (unknown_repository item.id repository_id)
          r in
      let r2 = add_if (is_in item.port r1.ports) (port_taken item.id item.port) r1 in
      let r3 = add_if (not (is_port item.port)) (port_out_of_range item.id) r2 in
      record r3 { ports = add_new item.port r3.ports }

  abbrev pub check_instance : Instance → Report → Report
  check_instance item r = check_placement item (check_engine_options item (check_identity item r))

  unfoldable pub check_instances : List Instance → Report → Report
  unfolding check_identity check_engine_options check_placement
  check_instances [] r = r
  check_instances (item ∷ items) r = check_instances items (check_instance item r)

-- What a checker that may raise a `KeyError` comes to.
pub data Checked : Type 0 where
  checked : (r : Report) → Checked
  unknown_key : (id : Text) → Checked

abbrev pub policy_message : Option Text → Report → Report
policy_message none r = r
policy_message (some words) r = add_if true (policy_says words) r

abbrev pub section_message : Parsed → Report → Report
section_message (raises words) r = add_if true (policy_says words) r
section_message (claims ports) r = r

unfoldable pub section_messages : List Parsed → Report → Report
section_messages [] r = r
section_messages (section ∷ sections) r = section_messages sections (section_message section r)

unfoldable pub check_policies : Config → Report → Report
unfolding section_messages
check_policies c r = section_messages c.sections (policy_message c.gateway_policy r)

abbrev pub claim_port : Text → ℕ → Report → Report
claim_port who port r =
    let r' = add_if (is_in port r.ports) (port_taken who port) r in
    record r' { ports = add_new port r'.ports }

unfoldable pub claim_ports : List (Text × ℕ) → Report → Report
claim_ports [] r = r
claim_ports ((who, port) ∷ ports) r = claim_ports ports (claim_port who port r)

unfoldable pub check_section_ports : List Parsed → Report → Report
unfolding claim_ports
check_section_ports [] r = r
check_section_ports (raises words ∷ sections) r = check_section_ports sections r
check_section_ports (claims ports ∷ sections) r = check_section_ports sections (claim_ports ports r)

unfoldable pub find_instance : Text → List Instance → Option Instance
find_instance id [] = none
find_instance id (item ∷ items) = if item.id == id then some item else find_instance id items

unfoldable pub find_repository : Text → List Repository → Option Repository
find_repository id [] = none
find_repository id (item ∷ items) = if item.id == id then some item else find_repository id items

-- `Task.IMAGE_EDIT` and `Task.IMAGE_GENERATION`
abbrev pub expected_task : Text → Text
expected_task task = if task == codes "edit" then codes "image-edit" else codes "image-generation"

abbrev pub is_image_task : Text → Bool
is_image_task task = (task == codes "generation") || (task == codes "edit")

module _ (c : Config) (has_workflow : Text → Bool) (check_workflows : Bool) where
  abbrev pub check_profile_workflow : Profile → Report → Report
  check_profile_workflow profile r =
      if not (is_bare profile.workflow)
      then add_if true (invalid_workflow profile.id) r
      else add_if (check_workflows && not (has_workflow profile.workflow))
          (workflow_absent profile.id) r

  abbrev pub check_repository_task : Profile → Text → Option Repository → Report → Checked
  check_repository_task profile id none r = unknown_key id
  check_repository_task profile id (some repository) r = checked (
      check_profile_workflow profile (
        add_if (not (repository.task == expected_task profile.task))
          (wrong_task profile.id profile.model) r))

  abbrev pub check_profile_task : Profile → Option Instance → Report → Checked
  check_profile_task profile none r = unknown_key profile.model
  check_profile_task profile (some item) r =
      let id = before_slash item.model_id in
      check_repository_task profile id (find_repository id c.repositories) r

  unfoldable pub check_image_profile : Profile → Report → Checked
  unfolding before_slash find_instance find_repository
  check_image_profile profile r =
      if not (is_in profile.model r.instance_ids)
      then checked (add_if true (unknown_instance profile.id profile.model) r)
      else if not (is_image_task profile.task)
      then checked (add_if true (unsupported_task profile.id profile.task) r)
      else check_profile_task profile (find_instance profile.model c.instances) r

  abbrev pub then_check : (Report → Checked) → Checked → Checked
  then_check more (unknown_key id) = unknown_key id
  then_check more (checked r) = more r

  unfoldable pub check_image_profiles : List Profile → Report → Checked
  unfolding check_image_profile
  check_image_profiles [] r = checked r
  check_image_profiles (profile ∷ profiles) r =
      then_check (check_image_profiles profiles) (check_image_profile profile r)

pub data Verdict : Type 0 where
  valid : Verdict
  invalid : (errors : List Message) → Verdict
  key_error : (id : Text) → Verdict

abbrev pub verdict_of : List Message → Verdict
verdict_of [] = valid
verdict_of (error ∷ errors) = invalid (error ∷ errors)

abbrev pub verdict : Checked → Verdict
verdict (unknown_key id) = key_error id
verdict (checked r) = verdict_of r.errors

abbrev pub new_report : Report
new_report = record { errors = []; instance_ids = []; ports = [] }

-- The chain up to the profiles.
abbrev pub check_all : Config → List Text → Report
check_all c engine_ids = check_section_ports c.sections (
    check_policies c (
      check_instances c engine_ids c.instances
        (check_manager_port c (check_repositories c (check_roots c new_report)))))

unfoldable pub validate_configuration : Config → List Text → (Text → Bool) → Bool → Verdict
unfolding check_roots check_repositories check_manager_port check_instances check_policies
    check_section_ports check_image_profiles
validate_configuration c engine_ids has_workflow check_workflows =
    verdict
      (check_image_profiles c has_workflow check_workflows c.profiles (check_all c engine_ids))
