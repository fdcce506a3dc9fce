-- ===== src/Catalog/Examples.antt =====
-- The names of a model of two shards.
use ai_lab.Common.{◌≡◌, refl, true, false, some, List, [], ◌∷◌, arith}
use ai_lab.Clients.Text.{Text, codes}
use ai_lab.Catalog.Naming.{
  stem, is_part, is_weight_for_format, is_companion, split_shard, base_name, shard_name,
  missing_shards, absent, shards_of, all_of_total, has_index,
}
use ai_lab.Catalog.Shards.{split_shard-shard_name, missing_shards-complete}

stem_any_case : stem (codes "Llama.GGUF") ≡ codes "Llama"
unfolding stem
stem_any_case = refl

projector : is_part (codes "mmproj-a.gguf") ≡ true
unfolding is_part
projector = refl

no_projector : is_part (codes "mmprojector.gguf") ≡ false
unfolding is_part
no_projector = refl

mixed_bundle : is_weight_for_format (codes "a.gguf") (codes "comfyui") ≡ true
unfolding is_weight_for_format
mixed_bundle = refl

tokenizer : is_companion (codes "tokenizer.model") ≡ true
unfolding is_companion
tokenizer = refl

base_of_shard : base_name (codes "m-00002-of-00003.gguf") ≡ codes "m"
unfolding base_name
base_of_shard = refl

second_lacks :
    missing_shards (codes "m-00001-of-00002.gguf" ∷ codes "config.json" ∷ [])
    ≡ absent (codes "m-00002-of-00002" ∷ [])
unfolding missing_shards
second_lacks = refl

split_shard-shard_name_example : split_shard (shard_name (codes "m") 2 3) ≡ some (codes "m", 2, 3)
split_shard-shard_name_example =
    split_shard-shard_name (codes "m") 2 3 refl (omega arith) (omega arith)

abbrev both : List Text
both = codes "m-00002-of-00002.gguf" ∷ codes "m-00001-of-00002.gguf" ∷ []

missing_shards-complete_example :
    (all_of_total 2 ((codes "m", 1, 2) ∷ []) ≡ true)
    × (has_index 1 ((codes "m", 2, 2) ∷ (codes "m", 1, 2) ∷ []) ≡ true)
unfolding shards_of missing_shards
missing_shards-complete_example =
    missing_shards-complete both (codes "m", 2, 2) ((codes "m", 1, 2) ∷ []) 1 refl refl
      (omega arith) (omega arith)
