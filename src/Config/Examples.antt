-- ===== src/Config/Examples.antt =====
-- A small configuration that is accepted, and others that are not.
use ai_lab.Common.{ℕ, ◌≡◌, refl, Bool, true, false, Option, none, some, List, [], ◌∷◌, All}
use ai_lab.Clients.Text.{Text, codes, before_slash}
use ai_lab.Config.Rules.{Options, word, int, float, options_pass}
use ai_lab.Config.Validation.{
  Repository, Instance, Profile, Config, claims, port_taken, invalid, key_error,
  validate_configuration, find_instance, find_repository,
}
use ai_lab.Config.Sound.{IsSound, IsUsable, validate_configuration-IsSound}
use ai_lab.Config.Cut.{validate_configuration-Cut}

abbrev pictures : Repository
pictures = record { id = codes "r"; task = codes "image-generation" }

abbrev painter : Instance
painter = record { id = codes "p"; engine = codes "e"; model_id = codes "r/m"; port = 9001 }

abbrev drawing : Profile
drawing = record {
  id = codes "d";
  model = codes "p";
  task = codes "generation";
  workflow = codes "w.json";
}

abbrev good : Config
good = record {
  model_roots = codes "core" ∷ [];
  download_root = codes "core";
  repositories = pictures ∷ [];
  port = 9000;
  instances = painter ∷ [];
  engines = [];
  gateway_policy = none;
  sections = claims ((codes "s", 9002) ∷ []) ∷ [];
  profiles = drawing ∷ [];
}

abbrev has_all : Text → Bool
has_all workflow = true

taken_twice :
    validate_configuration
      (record good { sections = claims ((codes "s", 9001) ∷ []) ∷ [] })
      (codes "e" ∷ [])
      has_all
      true
    ≡ invalid (port_taken (codes "s") 9001 ∷ [])
unfolding validate_configuration ai_lab.Common.Dict.get ai_lab.Clients.Text.non_empty
    ai_lab.Clients.Text.path_name
taken_twice = refl

levo_passes :
    options_pass (codes "levo2") (
      some (
        (codes "lm", word (codes "a"))
        ∷ (codes "flow", word (codes "b"))
        ∷ (codes "vae", word (codes "c"))
        ∷ (codes "steps", int false 200)
        ∷ (codes "cfg", float false 1 2)
        ∷ (codes "memory_reservation_mb", int false 9)
        ∷ []))
    ≡ true
unfolding options_pass ai_lab.Common.Dict.get ai_lab.Config.Rules.file_name
    ai_lab.Clients.Text.non_empty ai_lab.Clients.Text.path_name ai_lab.Config.Rules.whole
    ai_lab.Config.Rules.number ai_lab.Config.Rules.positive
levo_passes = refl

path_is_no_name :
    options_pass (codes "mulacover") (
      some (
        (codes "checkpoint_subdir", word (codes "a/b"))
        ∷ (codes "topk", int false 5)
        ∷ (codes "temperature", int false 1)
        ∷ (codes "cfg_scale", int false 1)
        ∷ (codes "memory_reservation_mb", int false 9)
        ∷ []))
    ≡ false
unfolding options_pass ai_lab.Common.Dict.get ai_lab.Config.Rules.file_name
    ai_lab.Clients.Text.non_empty ai_lab.Clients.Text.path_name
path_is_no_name = refl

validate_configuration-IsSound_example :
    IsSound good (codes "e" ∷ []) × All (IsUsable good has_all true) (drawing ∷ [])
unfolding validate_configuration ai_lab.Common.Dict.get ai_lab.Clients.Text.non_empty
    ai_lab.Clients.Text.path_name
validate_configuration-IsSound_example =
    validate_configuration-IsSound good has_all true (codes "e" ∷ []) refl

-- No repository is known, and the download root is wrong as well.
abbrev broken : Config
broken = record good { repositories = []; download_root = codes "x" }

validate_configuration-Cut_example :
    validate_configuration broken (codes "e" ∷ []) has_all true
    ≡ key_error (before_slash (codes "r/m"))
unfolding find_instance find_repository
validate_configuration-Cut_example =
    validate_configuration-Cut broken (codes "e" ∷ []) has_all true drawing [] painter refl refl
      refl refl
