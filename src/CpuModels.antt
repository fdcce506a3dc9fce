-- ===== src/CpuModels.antt =====
-- ai_lab/cpu_models/settings.py: the section of the embeddings models, checked. Whatever is no
-- object, or falsy where the code looks at that, is told apart in the raw section.
pub mod Valid
mod Examples
use ai_lab.Common.{
  ℕ, ◌+◌, Bool, true, false, not, ◌&&◌, ◌||◌, Option, none, some, List, [], ◌∷◌, ◌++◌,
  if◌then◌else◌, eqb, Key, nat_key,
}
use ai_lab.Common.Dict.{Dict, get}
use ai_lab.Clients.Text.{Text, codes, text_key, starts_with}
use ai_lab.Config.Rules.{
  Value, word, flag, int, float, Options, is_absolute, is_word_of, is_whole, below_zero,
}
use ai_lab.Config.Validation.{has_repeats}

-- The words of a `ValueError`, and the `AttributeError` of `items` on what is no object.
pub data Error : Type 0 where
  section_no_object : Error
  no_items : Error
  model_no_object : (name : Text) → Error
  relative_path : (name : Text) → Error
  unknown_pooling : (name : Text) → Error
  out_of_range : (name key : Text) → Error
  no_flag : (name key : Text) → Error
  below_nothing : (name : Text) → Error
  card_no_object : (name : Text) → Error
  card_shares_port : (name : Text) → Error
  relative_binary : Error
  shared_port : Error

-- What a reader gives, or the error that it raises.
pub data Read (A : Type 0) : Type 0 where
  accepted : (value : A) → Read A
  refused : (error : Error) → Read A

abbrev pub need : Bool → Error → Read (Unit {0})
need holds error = if holds then accepted tt else refused error

infixl 5 ◌>>=◌ ◌>>◌
abbrev pub ◌>>=◌ : {A B : Type 0} → Read A → (A → Read B) → Read B
accepted value >>= next = next value
refused error >>= next = refused error

abbrev pub ◌>>◌ : {B : Type 0} → Read (Unit {0}) → Read B → Read B
first >> next = first >>= (λ done. next)

pub data RawCard : Type 0 where
  no_card : RawCard
  card_other : RawCard
  card_object : (options : Options) → RawCard

-- `card` is kept beside the other options.
pub data RawModel : Type 0 where
  model_other : RawModel
  model_object : (options : Options) (card : RawCard) → RawModel

pub data RawModels : Type 0 where
  no_models : RawModels
  models_other : RawModels
  models_object : (entries : Dict Text RawModel) → RawModels

pub data RawSection : Type 0 where
  no_section : RawSection
  section_other : RawSection
  section_object : (binary : Option Value) (models : RawModels) → RawSection

abbrev pub poolings : List Text
poolings = codes "cls" ∷ codes "mean" ∷ codes "last" ∷ []

abbrev pub min_port : ℕ
min_port = 1024

abbrev pub max_port : ℕ
max_port = 65535

pub record CardUse : Type 0 where
  pub port : ℕ
  pub needs_mb : ℕ
  pub margin_mb : ℕ

abbrev pub room_mb : CardUse → ℕ
room_mb c = c.needs_mb + c.margin_mb

-- Seconds as a fraction.
pub record Seconds : Type 0 where
  pub numerator : ℕ
  pub denominator : ℕ

pub record CpuModel : Type 0 where
  pub name : Text
  pub path : Text
  pub port : ℕ
  pub pooling : Text
  pub parallel : ℕ
  pub threads : ℕ
  pub context : ℕ
  pub idle_stop : Seconds
  pub kv_unified : Bool
  pub card : Option CardUse

pub record CpuModelsConfig : Type 0 where
  pub binary : Value
  pub models : Dict Text CpuModel

abbrev pub ports : CpuModel → List ℕ
ports m = m.port ∷ elim m.card [ none ↦ [] | some c ↦ c.port ∷ [] ]

-- `raw.get(key, default)`
abbrev pub get_or : Text → Value → Options → Value
get_or key default raw = elim (get key raw) [ none ↦ default | some value ↦ value ]

-- `_whole`, of `None` too
unfoldable pub whole : Text → Text → Option Value → ℕ → ℕ → Read ℕ
whole name key (some (int is_negative n)) low high =
    if is_whole low high (some (int is_negative n))
    then accepted n
    else refused (out_of_range name key)
whole name key _ low high = refused (out_of_range name key)

-- `_flag`
abbrev pub flag_of : Text → Text → Value → Read Bool
flag_of name key (flag value) = accepted value
flag_of name key _ = refused (no_flag name key)

-- `_seconds`
abbrev pub seconds : Text → Value → Read Seconds
seconds name (int is_negative n) =
    if below_zero is_negative n
    then refused (below_nothing name)
    else accepted (record { numerator = n; denominator = 1 })
seconds name (float is_negative n d) =
    if below_zero is_negative n
    then refused (below_nothing name)
    else accepted (record { numerator = n; denominator = d })
seconds name _ = refused (below_nothing name)

-- `_card`
unfoldable pub card_of : Text → RawCard → ℕ → Read (Option CardUse)
card_of name no_card port = accepted none
card_of name card_other port = refused (card_no_object name)
card_of name (card_object raw) port = do
  card_port ← whole name (codes "card.port") (get (codes "port") raw) min_port max_port
  need (not (eqb card_port port)) (card_shares_port name)
  needs ← whole name (codes "card.needs_mb") (get (codes "needs_mb") raw) 1 65536
  margin ←
      whole name (codes "card.margin_mb") (some (get_or (codes "margin_mb") (int false 500) raw)) 0
        65536
  accepted (some (record { port = card_port; needs_mb = needs; margin_mb = margin }))

-- What `from_mapping` has checked to be a text.
abbrev pub path_of : Text → Option Value → Read Text
path_of name (some (word s)) =
    if is_absolute (some (word s)) then accepted s else refused (relative_path name)
path_of name _ = refused (relative_path name)

abbrev pub pooling_of : Text → Value → Read Text
pooling_of name (word s) =
    if is_word_of poolings (some (word s)) then accepted s else refused (unknown_pooling name)
pooling_of name _ = refused (unknown_pooling name)

-- `CpuModel.from_mapping`
unfoldable pub model_of : Text → RawModel → Read CpuModel
model_of name model_other = refused (model_no_object name)
model_of name (model_object raw card) = do
  path ← path_of name (get (codes "path") raw)
  pooling ← pooling_of name (get_or (codes "pooling") (word (codes "cls")) raw)
  port ← whole name (codes "port") (get (codes "port") raw) min_port max_port
  parallel ← whole name (codes "parallel") (some (get_or (codes "parallel") (int false 4) raw)) 1 64
  threads ← whole name (codes "threads") (some (get_or (codes "threads") (int false 12) raw)) 1 256
  context ←
      whole name (codes "context") (some (get_or (codes "context") (int false 8192) raw)) 512 131072
  idle_stop ← seconds name (get_or (codes "idle_stop_s") (float false 1800 1) raw)
  kv_unified ← flag_of name (codes "kv_unified") (get_or (codes "kv_unified") (flag false) raw)
  card_use ← card_of name card port
  accepted (record {
    name = name;
    path = path;
    port = port;
    pooling = pooling;
    parallel = parallel;
    threads = threads;
    context = context;
    idle_stop = idle_stop;
    kv_unified = kv_unified;
    card = card_use;
  })

unfoldable pub models_of : Dict Text RawModel → Read (Dict Text CpuModel)
models_of [] = accepted []
models_of ((name, raw) ∷ entries) = do
  model ← model_of name raw
  models ← models_of entries
  accepted ((name, model) ∷ models)

-- `(raw.get("models") or {}).items()`, each read
abbrev pub all_models : RawModels → Read (Dict Text CpuModel)
all_models no_models = accepted []
all_models models_other = refused no_items
all_models (models_object entries) = models_of entries

abbrev pub all_ports : Dict Text CpuModel → List ℕ
all_ports [] = []
all_ports ((name, model) ∷ models) = ports model ++ all_ports models

abbrev pub is_empty : Dict Text CpuModel → Bool
is_empty [] = true
is_empty (model ∷ models) = false

abbrev pub binary_or : Option Value → Value
binary_or raw = elim raw [ none ↦ word [] | some value ↦ value ]

-- `CpuModelsConfig.from_mapping`, with `_refuse_shared_ports`
unfoldable pub from_mapping : RawSection → Read CpuModelsConfig
from_mapping no_section = accepted (record { binary = word []; models = [] })
from_mapping section_other = refused section_no_object
from_mapping (section_object raw_binary raw_models) = do
  models ← all_models raw_models
  need (is_empty models || is_absolute (some (binary_or raw_binary))) relative_binary
  need (not (has_repeats (all_ports models))) shared_port
  accepted (record { binary = binary_or raw_binary; models = models })
