-- ===== src/Config/Sections.antt =====
-- The checks of policies and sections: what a report without an error says of them.
use ai_lab.Common.{
  ℕ, ◌≡◌, refl, sym, subst, Option, none, some, List, [], ◌∷◌, ◌++◌, map, All, nat_key,
}
use ai_lab.Clients.Text.{Text, text_key}
use ai_lab.Config.Validation.{
  Parsed, raises, claims, port_taken, policy_says, Report, is_in, add_new, policy_message,
  section_message, section_messages, claim_port, claim_ports, check_section_ports,
}
use ai_lab.Config.Apart.{Joins, Joins-nothing, Joins-one, Joins-both}
use ai_lab.Config.Entries.{IsClean, not_nil, add_if-IsClean}

abbrev pub HasParsed : Parsed → Type 0
HasParsed (raises words) = ⊥
HasParsed (claims ports) = Unit

pub messages_sound :
    (sections : List Parsed) (r : Report)
    → IsClean (section_messages sections r)
    → IsClean r × All HasParsed sections × (section_messages sections r ≡ r)
unfolding section_messages
messages_sound [] r clean = (clean, tt, refl)
messages_sound (raises words ∷ sections) r clean = absurd (
    not_nil r.errors (policy_says words)
      (messages_sound sections (section_message (raises words) r) clean).0)
messages_sound (claims ports ∷ sections) r clean =
    let (clean', parsed, same) = messages_sound sections r clean in (clean', (tt, parsed), same)

pub policy_sound :
    (policy : Option Text) (r : Report)
    → IsClean (policy_message policy r)
    → (policy ≡ none) × IsClean r × (policy_message policy r ≡ r)
policy_sound none r clean = (refl, clean, refl)
policy_sound (some words) r clean = absurd (not_nil r.errors (policy_says words) clean)

abbrev ports_in : List (Text × ℕ) → List ℕ
ports_in ports = map (λ claim. claim.1) ports

claim_ports_sound :
    (ports : List (Text × ℕ)) (r : Report)
    → IsClean (claim_ports ports r)
    → IsClean r × Joins (ports_in ports) r.ports (claim_ports ports r).ports
unfolding claim_ports
claim_ports_sound [] r clean = (clean, Joins-nothing r.ports)
claim_ports_sound ((who, port) ∷ ports) r clean =
    let (clean', rest) = claim_ports_sound ports (claim_port who port r) clean in
    let (free, clean'', same) =
      add_if-IsClean (is_in port r.ports) (port_taken who port) r clean' in
    (
      clean'',
      Joins-both
          (subst (λ s. Joins (port ∷ []) r.ports (add_new port s.ports)) (sym same)
            (Joins-one port r.ports free))
          rest,
    )

abbrev pub section_ports : List Parsed → List ℕ
section_ports [] = []
section_ports (raises words ∷ sections) = section_ports sections
section_ports (claims ports ∷ sections) = ports_in ports ++ section_ports sections

pub sections_sound :
    (sections : List Parsed) (r : Report)
    → IsClean (check_section_ports sections r)
    → IsClean r × Joins (section_ports sections) r.ports (check_section_ports sections r).ports
unfolding check_section_ports
sections_sound [] r clean = (clean, Joins-nothing r.ports)
sections_sound (raises words ∷ sections) r clean = sections_sound sections r clean
sections_sound (claims ports ∷ sections) r clean =
    let (clean', rest) = sections_sound sections (claim_ports ports r) clean in
    let (clean'', first) = claim_ports_sound ports r clean' in (clean'', Joins-both first rest)
