-- ===== src/Catalog/Naming.antt =====
-- ai_lab/catalog/naming.py: rules about the names of model files, for ASCII names. A shard name
-- is read from its end, where the pattern has a fixed width.
use ai_lab.Common.{
  ℕ, zero, suc, ◌+◌, ◌-◌, ◌*◌, ◌/◌, ◌%◌, Bool, true, false, not, ◌&&◌, ◌||◌, Option, none, some,
  List, [], ◌∷◌, ◌++◌, map, if◌then◌else◌, leb, eqb, length, take, ◌==◌, nat_key,
}
use mathlib.Core.List.{reverse}
use ai_lab.Common.Dict.{Dict}
use ai_lab.Clients.Text.{Text, codes, text_key, lower, starts_with, ends_with}

abbrev pub weight_suffixes : Dict Text Text
weight_suffixes =
    (codes ".gguf", codes "gguf")
    ∷ (codes ".safetensors", codes "safetensors")
    ∷ (codes ".nemo", codes "nemo")
    ∷ (codes ".onnx", codes "onnx")
    ∷ (codes ".pdiparams", codes "paddleocr")
    ∷ []

abbrev pub safetensors_formats : List Text
safetensors_formats =
    codes "safetensors"
    ∷ codes "fp8"
    ∷ codes "nvfp4"
    ∷ codes "awq"
    ∷ codes "gptq"
    ∷ codes "comfyui"
    ∷ codes "mlx"
    ∷ []

abbrev pub companion_names : List Text
companion_names =
    codes "config.json"
    ∷ codes "generation_config.json"
    ∷ codes "special_tokens_map.json"
    ∷ codes "vocab.json"
    ∷ codes "merges.txt"
    ∷ codes "preprocessor_config.json"
    ∷ codes "chat_template.jinja"
    ∷ codes "model.safetensors.index.json"
    ∷ codes "inference.json"
    ∷ codes "inference.yml"
    ∷ []

abbrev pub one_of : List Text → Text → Bool
one_of [] s = false
one_of (t ∷ ts) s = (t == s) || one_of ts s

-- The first suffix of the table that a name in lower case ends in, with its container.
unfoldable pub suffix_of : Dict Text Text → Text → Option (Text × Text)
unfolding ends_with
suffix_of [] lowered = none
suffix_of ((suffix, kind) ∷ table) lowered =
    if ends_with suffix lowered then some (suffix, kind) else suffix_of table lowered

abbrev pub without : Text → Option (Text × Text) → Text
without name none = name
without name (some (suffix, kind)) = take (length name - length suffix) name

unfoldable pub stem : Text → Text
unfolding suffix_of lower
stem name = without name (suffix_of weight_suffixes (lower name))

unfoldable pub is_part : Text → Bool
unfolding stem lower starts_with
is_part name =
    let base = lower (stem name) in (base == codes "mmproj") || starts_with (codes "mmproj-") base

abbrev pub has_suffix : Option (Text × Text) → Bool
has_suffix none = false
has_suffix (some found) = true

unfoldable pub is_weight : Text → Bool
unfolding suffix_of lower
is_weight name = has_suffix (suffix_of weight_suffixes (lower name))

abbrev pub fits_format : Text → Option (Text × Text) → Bool
fits_format format none = false
fits_format format (some (suffix, container)) =
    if format == codes "comfyui"
    then (container == codes "safetensors") || (container == codes "gguf")
    else if container == codes "safetensors"
    then one_of safetensors_formats format
    else container == format

unfoldable pub is_weight_for_format : Text → Text → Bool
unfolding suffix_of lower
is_weight_for_format name format = fits_format format (suffix_of weight_suffixes (lower name))

unfoldable pub is_companion : Text → Bool
unfolding starts_with
is_companion name = one_of companion_names name || starts_with (codes "tokenizer") name

abbrev pub is_digit : ℕ → Bool
is_digit c = leb b'0' c && leb c b'9'

-- The last `width` characters as a number, of a text that is given from its end.
unfoldable pub read_back : ℕ → Text → Option (ℕ × Text)
read_back zero s = some (0, s)
read_back (suc width) [] = none
read_back (suc width) (c ∷ s) =
    let rest = read_back width s in
    if is_digit c
    then elim rest [ none ↦ none | some found ↦ some (c - b'0' + 10 * found.0, found.1) ]
    else none

-- The text behind `front`, if it begins with that.
unfoldable pub behind : Text → Text → Option Text
behind [] s = some s
behind (p ∷ ps) [] = none
behind (p ∷ ps) (c ∷ s) = if eqb p c then behind ps s else none

abbrev pub then_read {ℓ κ} : {A : Type ℓ} {B : Type κ} → Option A → (A → Option B) → Option B
then_read none more = none
then_read (some a) more = more a

-- `.+`: at least one character, and no line feed among them.
abbrev pub is_base : Text → Bool
is_base [] = false
is_base (c ∷ []) = not (eqb c 10)
is_base (c ∷ d ∷ s) = not (eqb c 10) && is_base (d ∷ s)

abbrev pub base_of : ℕ → ℕ → Text → Option (Text × ℕ × ℕ)
base_of index total s = if is_base s then some (reverse s, index, total) else none

unfoldable pub split_back : Text → Option (Text × ℕ × ℕ)
unfolding read_back behind
split_back s = then_read (read_back 5 s) (λ total. then_read (behind (codes "-fo-") total.1) (λ s1.
    then_read (read_back 5 s1)
      (λ index. then_read (behind (codes "-") index.1) (λ s2. base_of index.0 total.0 s2))))

-- `$` also matches before a line feed at the end.
abbrev pub split_reversed : Text → Option (Text × ℕ × ℕ)
split_reversed [] = none
split_reversed (c ∷ s) = if eqb c 10 then split_back s else split_back (c ∷ s)

unfoldable pub split_shard : Text → Option (Text × ℕ × ℕ)
unfolding split_back
split_shard stem_name = split_reversed (reverse stem_name)

abbrev pub base_or : Text → Option (Text × ℕ × ℕ) → Text
base_or name none = name
base_or name (some (base, index, total)) = base

unfoldable pub base_name : Text → Text
unfolding stem split_shard
base_name name = base_or (stem name) (split_shard (stem name))

-- `f"{n:05d}"` for a number of at most five digits, from its end.
unfoldable pub back_digits : ℕ → ℕ → Text
back_digits zero n = []
back_digits (suc width) n = (n % 10 + b'0') ∷ back_digits width (n / 10)

-- `f"{base}-{index:05d}-of-{total:05d}"`, with five digits for each number.
unfoldable pub shard_name : Text → ℕ → ℕ → Text
unfolding back_digits
shard_name base index total =
    base
    ++ (codes "-"
        ++ (reverse (back_digits 5 index) ++ (codes "-of-" ++ reverse (back_digits 5 total))))

abbrev pub Shard : Type 0
Shard = Text × ℕ × ℕ

abbrev pub add_shard : Option Shard → List Shard → List Shard
add_shard none shards = shards
add_shard (some shard) shards = shard ∷ shards

unfoldable pub shards_of : List Text → List Shard
unfolding split_shard stem
shards_of [] = []
shards_of (name ∷ names) = add_shard (split_shard (stem name)) (shards_of names)

abbrev pub all_of_total : ℕ → List Shard → Bool
all_of_total total [] = true
all_of_total total (shard ∷ shards) = eqb shard.2 total && all_of_total total shards

abbrev pub has_index : ℕ → List Shard → Bool
has_index index [] = false
has_index index (shard ∷ shards) = eqb shard.1 index || has_index index shards

-- The numbers from `first` on, `count` of them, that no shard has.
unfoldable pub gaps : ℕ → ℕ → List Shard → List ℕ
gaps first zero shards = []
gaps first (suc count) shards =
    let later = gaps (first + 1) count shards in
    if has_index first shards then later else first ∷ later

-- What is absent: nothing, a numbering that does not agree, or these shards.
pub data Missing : Type 0 where
  complete : Missing
  inconsistent : Missing
  absent : (names : List Text) → Missing

abbrev pub absent_of : Text → ℕ → List ℕ → Missing
absent_of base total [] = complete
absent_of base total (index ∷ indexes) =
    absent (map (λ i. shard_name base i total) (index ∷ indexes))

abbrev pub missing_of : List Shard → Missing
missing_of [] = complete
missing_of (shard ∷ shards) =
    if all_of_total shard.2 shards
    then absent_of shard.0 shard.2 (gaps 1 shard.2 (shard ∷ shards))
    else inconsistent

unfoldable pub missing_shards : List Text → Missing
unfolding shards_of gaps shard_name
missing_shards names = missing_of (shards_of names)
