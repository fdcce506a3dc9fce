-- ===== src/Config/Rules.antt =====
-- ai_lab/config/validation.py: the rules on the options of a model, by engine. A number is kept
-- exactly: a float is a fraction.
use ai_lab.Common.{
  ℕ, ◌*◌, Bool, true, false, not, ◌&&◌, ◌||◌, Option, none, some, List, [], ◌∷◌, map, if◌then◌else◌,
  ltb, leb, eqb, ◌==◌,
}
use ai_lab.Common.Dict.{Dict, get}
use ai_lab.Clients.Text.{Text, codes, text_key, path_name, non_empty, starts_with}

-- The value of an option. A list keeps `none` for an entry that is no text.
pub data Value : Type 0 where
  word : (s : Text) → Value
  flag : (value : Bool) → Value
  int : (is_negative : Bool) (n : ℕ) → Value
  float : (is_negative : Bool) (numerator denominator : ℕ) → Value
  names : (entries : List (Option Text)) → Value
  other : Value

abbrev pub Options : Type 0
Options = Dict Text Value

abbrev pub Rule : Type 0
Rule = Options → Bool

abbrev pub is_text : Option Value → Bool
is_text (some (word s)) = non_empty s
is_text _ = false

unfoldable pub text : Text → Rule
text key options = is_text (get key options)

abbrev pub is_bare : Text → Bool
is_bare s = non_empty s && (path_name s == s)

abbrev pub is_file_name : Option Value → Bool
is_file_name (some (word s)) = is_bare s
is_file_name _ = false

unfoldable pub file_name : Text → Rule
file_name key options = is_file_name (get key options)

abbrev pub is_absolute : Option Value → Bool
is_absolute (some (word s)) = starts_with (codes "/") s
is_absolute _ = false

unfoldable pub absolute_path : Text → Rule
absolute_path key options = is_absolute (get key options)

abbrev pub all_bare : List (Option Text) → Bool
all_bare [] = true
all_bare (none ∷ entries) = false
all_bare (some s ∷ entries) = is_bare s && all_bare entries

abbrev pub are_file_names : Option Value → Bool
are_file_names (some (names [])) = false
are_file_names (some (names (entry ∷ entries))) = all_bare (entry ∷ entries)
are_file_names _ = false

unfoldable pub file_names : Text → Rule
file_names key options = are_file_names (get key options)

-- A minus before zero means nothing.
abbrev pub below_zero : Bool → ℕ → Bool
below_zero is_negative n = is_negative && not (eqb n 0)

abbrev pub is_whole : ℕ → ℕ → Option Value → Bool
is_whole low high (some (int is_negative n)) =
    if below_zero is_negative n then false else leb low n && leb n high
is_whole low high _ = false

unfoldable pub whole : Text → ℕ → ℕ → Rule
whole key low high options = is_whole low high (get key options)

-- `numerator / denominator` between the ends, `low` or `high` left out if that is asked for.
abbrev pub is_between : ℕ → ℕ → Bool → Bool → Bool → ℕ → ℕ → Bool
is_between low high above_low below_high is_negative n d =
    if below_zero is_negative n
    then false
    else (if above_low then ltb (low * d) n else leb (low * d) n)
      && (if below_high then ltb n (high * d) else leb n (high * d))

abbrev pub is_number : ℕ → ℕ → Bool → Bool → Option Value → Bool
is_number low high above_low below_high (some (int is_negative n)) =
    is_between low high above_low below_high is_negative n 1
is_number low high above_low below_high (some (float is_negative n d)) =
    is_between low high above_low below_high is_negative n d
is_number low high above_low below_high _ = false

unfoldable pub number : Text → ℕ → ℕ → Bool → Bool → Rule
number key low high above_low below_high options =
    is_number low high above_low below_high (get key options)

abbrev pub is_positive : Option Value → Bool
is_positive (some (int is_negative n)) = not (is_negative || eqb n 0)
is_positive (some (float is_negative n d)) = not (is_negative || eqb n 0)
is_positive _ = false

unfoldable pub positive : Text → Rule
positive key options = is_positive (get key options)

abbrev pub is_one_of : List Text → Text → Bool
is_one_of [] s = false
is_one_of (allowed ∷ more) s = (allowed == s) || is_one_of more s

abbrev pub is_word_of : List Text → Option Value → Bool
is_word_of allowed (some (word s)) = is_one_of allowed s
is_word_of allowed _ = false

unfoldable pub one_of : Text → List Text → Rule
one_of key allowed options = is_word_of allowed (get key options)

abbrev pub khala_max_bucket : ℕ
khala_max_bucket = 20

abbrev pub is_range : Option Value → Option Value → Bool
is_range (some (int below n)) (some (int below' m)) =
    not (below_zero below n) && not (below_zero below' m) && leb n m && leb m khala_max_bucket
is_range _ _ = false

unfoldable pub bucket_range : Rule
bucket_range options =
    is_range (get (codes "default_bucket") options) (get (codes "maximum_bucket") options)

abbrev pub memory : Rule
memory = positive (codes "memory_reservation_mb")

abbrev pub guidance : Rule
guidance = number (codes "cfg_scale") 0 10 true false

abbrev pub top_k : Rule
top_k = whole (codes "topk") 1 1000

abbrev pub temperature : Rule
temperature = number (codes "temperature") 0 5 false false

abbrev pub engine_rules : Dict Text (List Rule)
engine_rules =
    (
      codes "kokoro",
      text (codes "language_code") ∷ text (codes "default_voice") ∷ text (codes "repo_id") ∷ [],
    )
    ∷ (
      codes "voxcpm",
      number (codes "cfg_value") 0 10 true false ∷ whole (codes "inference_timesteps") 1 100 ∷ [],
    )
    ∷ (codes "khala", bucket_range ∷ [])
    ∷ (
      codes "higgs",
      whole (codes "worker_port") 1 65535
          ∷ memory
          ∷ number (codes "mem_fraction_static") 0 1 true true
          ∷ [],
    )
    ∷ (codes "higgs_local", memory ∷ [])
    ∷ (
      codes "heartmula",
      text (codes "version")
          ∷ file_name (codes "checkpoint_subdir")
          ∷ top_k
          ∷ temperature
          ∷ guidance
          ∷ memory
          ∷ [],
    )
    ∷ (
      codes "yue2",
      one_of (codes "cot") (codes "full" ∷ codes "melody" ∷ [])
          ∷ number (codes "memory_budget_gib") 4 64 false false
          ∷ memory
          ∷ [],
    )
    ∷ (
      codes "comfy_music",
      absolute_path (codes "workflow") ∷ file_names (codes "component_subdirs") ∷ memory ∷ [],
    )
    ∷ (
      codes "mulacover",
      file_name (codes "checkpoint_subdir") ∷ top_k ∷ temperature ∷ guidance ∷ memory ∷ [],
    )
    ∷ (
      codes "levo2",
      file_name (codes "lm")
          ∷ file_name (codes "flow")
          ∷ file_name (codes "vae")
          ∷ whole (codes "steps") 1 200
          ∷ number (codes "cfg") 0 10 true false
          ∷ memory
          ∷ [],
    )
    ∷ (codes "stableaudio3", whole (codes "steps") 1 100 ∷ guidance ∷ memory ∷ [])
    ∷ []

abbrev pub all_pass : List Rule → Options → Bool
all_pass [] options = true
all_pass (rule ∷ rules) options = rule options && all_pass rules options

-- `none` stands for options that are no mapping.
abbrev pub pass_rules : Option (List Rule) → Option Options → Bool
pass_rules none options = true
pass_rules (some rules) none = false
pass_rules (some rules) (some options) = all_pass rules options

unfoldable pub options_pass : Text → Option Options → Bool
options_pass engine options = pass_rules (get engine engine_rules) options

abbrev pub model_map_fields : Dict Text Text
model_map_fields =
    (codes "acestep", codes "model_configs")
    ∷ (codes "qwentts", codes "model_modes")
    ∷ map (λ engine. (engine, codes "model_options"))
        (codes "kokoro"
          ∷ codes "voxcpm"
          ∷ codes "khala"
          ∷ codes "higgs"
          ∷ codes "higgs_local"
          ∷ codes "heartmula"
          ∷ codes "yue2"
          ∷ codes "comfy_music"
          ∷ codes "mulacover"
          ∷ codes "levo2"
          ∷ codes "stableaudio3"
          ∷ [])
