-- ===== src/Config/Entries.antt =====
-- The checks of the entries: what a report without an error says of them.
use ai_lab.Common.{
  ℕ, ◌≡◌, refl, sym, ap, ◌∙◌, subst, inl, inr, Bool, true, false, not, ◌||◌, Option, none, some,
  List, [], ◌∷◌, ◌++◌, map, if◌then◌else◌, if_cases, Bool-cases, arith, All, nat_key, ◌==◌, eqb,
}
use ai_lab.Common.Dict.{get}
use ai_lab.Clients.Text.{Text, codes, text_key, behind_slash, before_slash}
use ai_lab.Config.Rules.{Options, options_pass, model_map_fields}
use ai_lab.Config.Validation.{
  Instance, Config, Message, invalid_options, no_checkpoint, duplicate_instance, unknown_engine,
  unknown_repository, port_taken, port_out_of_range, Report, is_in, add_new, add_if, is_port,
  ids_of, check_identity, worker_port, claim_worker_port, configured, check_options, check_field,
  check_engine_options, check_placement, check_instance, check_instances,
}
use ai_lab.Config.Apart.{Joins, Joins-nothing, Joins-one, Joins-both}

abbrev pub IsClean : Report → Type 0
IsClean r = r.errors ≡ []

pub not_nil : (errors : List Message) (m : Message) → (errors ++ (m ∷ [])) ≡ [] → ⊥
not_nil [] m is = ground (arith, is)
not_nil (error ∷ errors) m is = ground (arith, is)

pub add_if-IsClean :
    (test : Bool) (m : Message) (r : Report)
    → IsClean (add_if test m r)
    → (test ≡ false) × IsClean r × (add_if test m r ≡ r)
add_if-IsClean true m r clean = absurd (not_nil r.errors m clean)
add_if-IsClean false m r clean = (refl, clean, refl)

module _ (c : Config) (engine_ids : List Text) where
  abbrev pub options_of : Instance → Option Text → Option (Option Options)
  options_of item none = none
  options_of item (some field) =
      get (behind_slash item.model_id) (configured c engine_ids item.engine field)

  abbrev pub field_of : Instance → Option Text
  field_of item = get item.engine model_map_fields

  -- The second port of an entry of Higgs.
  abbrev pub worker_claims : Instance → Option (Option Options) → List ℕ
  worker_claims item none = []
  worker_claims item (some options) =
      if item.engine == codes "higgs" then worker_port c engine_ids options ∷ [] else []

  abbrev pub ports_of : Instance → List ℕ
  ports_of item = worker_claims item (options_of item (field_of item)) ++ (item.port ∷ [])

  abbrev pub all_ports : List Instance → List ℕ
  all_ports [] = []
  all_ports (item ∷ items) = ports_of item ++ all_ports items

  -- The options that the engine's rules ask for are there and pass them.
  abbrev pub HasOptions : Instance → Option Text → Option (Option Options) → Type 0
  HasOptions item none found = Unit
  HasOptions item (some field) none = ⊥
  HasOptions item (some field) (some options) = options_pass item.engine options ≡ true

  abbrev pub IsServable : Instance → Type 0
  IsServable item =
      (is_in item.engine engine_ids ≡ true)
      × (is_in (before_slash item.model_id) (ids_of c) ≡ true)
      × (is_port item.port ≡ true)
      × HasOptions item (field_of item) (options_of item (field_of item))

  abbrev Claims : List ℕ → Report → Report → Type 0
  Claims ports r r' = IsClean r × Joins ports r.ports r'.ports × (r'.instance_ids ≡ r.instance_ids)

  worker_sound :
      (item : Instance) (port : ℕ) (r : Report)
      → IsClean (claim_worker_port c engine_ids item port r)
      → Claims (port ∷ []) r (claim_worker_port c engine_ids item port r)
  unfolding claim_worker_port
  worker_sound item port r =
      if_cases (λ r'. IsClean r' → Claims (port ∷ []) r r')
        (eqb port item.port || is_in port r.ports)
        (λ taken. λ clean. absurd (not_nil r.errors (invalid_options item.id item.engine) clean))
        (λ free. λ clean. (clean, Joins-one port r.ports (ground (arith, free)), refl))

  options_sound :
      (item : Instance) (field : Text) (found : Option (Option Options)) (r : Report)
      → IsClean (check_options c engine_ids item found r)
      → Claims (worker_claims item found) r (check_options c engine_ids item found r)
        × HasOptions item (some field) found
  options_sound item field none r clean =
      absurd (not_nil r.errors (no_checkpoint item.id item.engine) clean)
  options_sound item field (some options) r clean' =
      if_cases
        (λ r'.
          IsClean r'
          → Claims (worker_claims item (some options)) r r'
            × HasOptions item (some field) (some options))
        (not (options_pass item.engine options))
        (λ fails. λ clean. absurd (not_nil r.errors (invalid_options item.id item.engine) clean))
        (λ passes. elim (Bool-cases (item.engine == codes "higgs")) [
          | inl higgs ↦ rw (higgs) (λ clean. (
            worker_sound item (worker_port c engine_ids options) r clean,
            ground (arith, passes),
          ))
          | inr plain ↦
              rw (plain) (λ clean. ((clean, Joins-nothing r.ports, refl), ground (arith, passes)))
        ])
        clean'

  field_sound :
      (item : Instance) (field : Option Text) (r : Report)
      → IsClean (check_field c engine_ids item field r)
      → Claims
          (worker_claims item (options_of item field))
          r
          (check_field c engine_ids item field r)
        × HasOptions item field (options_of item field)
  field_sound item none r clean = ((clean, Joins-nothing r.ports, refl), tt)
  field_sound item (some field) r clean =
      options_sound item field (options_of item (some field)) r clean

  identity_sound :
      (item : Instance) (r : Report)
      → IsClean (check_identity c engine_ids item r)
      → IsClean r
        × (is_in item.engine engine_ids ≡ true)
        × Joins (item.id ∷ []) r.instance_ids (check_identity c engine_ids item r).instance_ids
        × ((check_identity c engine_ids item r).ports ≡ r.ports)
  unfolding check_identity
  identity_sound item r clean =
      let first = add_if (is_in item.id r.instance_ids) (duplicate_instance item.id) r in
      let second = record first { instance_ids = add_new item.id first.instance_ids } in
      let (known, clean', same') =
        add_if-IsClean (not (is_in item.engine engine_ids)) (unknown_engine item.id item.engine)
          second clean in
      let (new, clean'', same) =
        add_if-IsClean (is_in item.id r.instance_ids) (duplicate_instance item.id) r clean' in
      (
        clean'',
        ground (arith, known),
        subst (Joins (item.id ∷ []) r.instance_ids)
            (sym (ap (λ s. s.instance_ids) same' ∙ ap (λ s. add_new item.id s.instance_ids) same))
            (Joins-one item.id r.instance_ids new),
        ap (λ s. s.ports) same' ∙ ap (λ s. s.ports) same,
      )

  placement_sound :
      (item : Instance) (r : Report)
      → IsClean (check_placement c engine_ids item r)
      → Claims (item.port ∷ []) r (check_placement c engine_ids item r)
        × (is_in (before_slash item.model_id) (ids_of c) ≡ true)
        × (is_port item.port ≡ true)
  unfolding check_placement
  placement_sound item r clean =
      let id = before_slash item.model_id in
      let r1 = add_if (not (is_in id (ids_of c))) (unknown_repository item.id id) r in
      let r2 = add_if (is_in item.port r1.ports) (port_taken item.id item.port) r1 in
      let (range, clean2, same3) =
        add_if-IsClean (not (is_port item.port)) (port_out_of_range item.id) r2 clean in
      let (free, clean1, same2) =
        add_if-IsClean (is_in item.port r1.ports) (port_taken item.id item.port) r1 clean2 in
      let (known, clean0, same1) =
        add_if-IsClean (not (is_in id (ids_of c))) (unknown_repository item.id id) r clean1 in
      let same = same3 ∙ same2 ∙ same1 in
      (
        (
          clean0,
          subst (λ s. Joins (item.port ∷ []) r.ports (add_new item.port s.ports)) (sym same)
              (Joins-one item.port r.ports
                (subst (λ s. is_in item.port s.ports ≡ false) same1 free)),
          ap (λ s. s.instance_ids) same,
        ),
        ground (arith, known),
        ground (arith, range),
      )

  instance_sound :
      (item : Instance) (r : Report)
      → IsClean (check_instance c engine_ids item r)
      → IsClean r
        × IsServable item
        × Joins (item.id ∷ []) r.instance_ids (check_instance c engine_ids item r).instance_ids
        × Joins (ports_of item) r.ports (check_instance c engine_ids item r).ports
  unfolding check_engine_options
  instance_sound item r clean =
      let r1 = check_identity c engine_ids item r in
      let r2 = check_engine_options c engine_ids item r1 in
      let ((clean2, port, ids), known, range) = placement_sound item r2 clean in
      let ((clean1, ports, same), options) = field_sound item (field_of item) r1 clean2 in
      let (clean0, engine, id, same_ports) = identity_sound item r clean1 in
      (
        clean0,
        (engine, known, range, options),
        subst (Joins (item.id ∷ []) r.instance_ids) (sym (ids ∙ same)) id,
        subst (λ before. Joins (ports_of item) before (check_instance c engine_ids item r).ports)
            same_ports (Joins-both ports port),
      )

  pub instances_sound :
      (items : List Instance) (r : Report)
      → IsClean (check_instances c engine_ids items r)
      → IsClean r
        × All IsServable items
        × Joins
            (map (λ item. item.id) items)
            r.instance_ids
            (check_instances c engine_ids items r).instance_ids
        × Joins (all_ports items) r.ports (check_instances c engine_ids items r).ports
  unfolding check_instances
  instances_sound [] r clean = (clean, tt, Joins-nothing r.instance_ids, Joins-nothing r.ports)
  instances_sound (item ∷ items) r clean =
      let (clean', servable, ids, ports) =
        instances_sound items (check_instance c engine_ids item r) clean in
      let (clean'', here, id, port) = instance_sound item r clean' in
      (clean'', (here, servable), Joins-both id ids, Joins-both port ports)
