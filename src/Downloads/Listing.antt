-- ===== src/Downloads/Listing.antt =====
-- ai_lab/downloads/huggingface.py: a listing of a repository turned into models. What the network
-- answers is an argument.
use ai_lab.Common.{
  Bool, true, false, ◌&&◌, Option, none, some, List, [], ◌∷◌, ◌++◌, map, if◌then◌else◌, ltb, keep,
  ◌==◌,
}
use ai_lab.Common.Dict.{Dict, get}
use ai_lab.Common.Tally.{sort_by, group_onto}
use ai_lab.Clients.Text.{
  Text, codes, text_key, lower, split_slash, join_slash, behind_slash, non_empty,
}
use ai_lab.Catalog.Naming.{
  weight_suffixes, suffix_of, is_weight, is_companion, base_name, missing_shards, Missing, complete,
  inconsistent, absent,
}
use ai_lab.Downloads.Files.{RemoteFile, RemoteSet}

-- The order of texts by code point.
abbrev pub text_le : Text → Text → Bool
text_le [] s = true
text_le (c ∷ s) [] = false
text_le (c ∷ s) (d ∷ t) = if ltb c d then true else if ltb d c then false else text_le s t

abbrev pub all_but_last : Text → List Text → List Text
all_but_last piece [] = []
all_but_last piece (next ∷ more) = piece ∷ all_but_last next more

-- `path.rsplit("/", 1)[0] if "/" in path else ""`
unfoldable pub directory_of : RemoteFile → Text
unfolding split_slash join_slash
directory_of item =
    let (piece, more) = split_slash item.path in join_slash (all_but_last piece more)

-- `_file_name`
unfoldable pub name_of : RemoteFile → Text
unfolding behind_slash
name_of item = behind_slash item.path

abbrev pub by_path : RemoteFile → RemoteFile → Bool
by_path a b = text_le a.path b.path

abbrev pub by_key : Text × List RemoteFile → Text × List RemoteFile → Bool
by_key a b = text_le a.0 b.0

abbrev pub is_complete : Missing → Bool
is_complete complete = true
is_complete _ = false

abbrev pub missing_names : Missing → List Text
missing_names complete = []
missing_names inconsistent = codes "inconsistent shard numbering" ∷ []
missing_names (absent names) = names

abbrev pub is_paddle : List RemoteFile → Bool
is_paddle [] = false
is_paddle (item ∷ items) = elim (suffix_of weight_suffixes (lower (name_of item))) [
  | none ↦ false
  | some found ↦ found.1 == codes "paddleocr"
]

abbrev pub set_name : Text → Text → Text → List RemoteFile → Text
set_name repo directory base shards =
    if is_paddle shards && (base == codes "inference")
    then behind_slash repo
    else if non_empty directory
    then directory ++ (codes "/" ++ base)
    else base

unfoldable pub one_set : Text → Text → Text → List RemoteFile → List RemoteFile → RemoteSet
unfolding suffix_of lower name_of missing_shards behind_slash non_empty
one_set repo directory base shards companions =
    let missing = missing_shards (map name_of shards) in
    record {
      repo = repo;
      name = set_name repo directory base shards;
      files = sort_by by_path (shards ++ companions);
      complete = is_complete missing;
      missing = missing_names missing;
    }

abbrev pub sets_of_groups :
    Text → Text → List RemoteFile → Dict Text (List RemoteFile) → List RemoteSet
sets_of_groups repo directory companions [] = []
sets_of_groups repo directory companions ((base, shards) ∷ groups) =
    one_set repo directory base shards companions ∷ sets_of_groups repo directory companions groups

unfoldable pub directory_sets : Text → Text → List RemoteFile → List RemoteSet
unfolding one_set group_onto is_weight is_companion base_name name_of
directory_sets repo directory entries =
    let companions = keep (λ item. is_companion (name_of item)) entries in
    let weights = keep (λ item. is_weight (name_of item)) entries in
    sets_of_groups repo directory companions
      (sort_by by_key (group_onto (λ item. base_name (name_of item)) weights []))

abbrev pub sets_of_directories : Text → Dict Text (List RemoteFile) → List RemoteSet
sets_of_directories repo [] = []
sets_of_directories repo ((directory, entries) ∷ directories) =
    directory_sets repo directory entries ++ sets_of_directories repo directories

unfoldable pub group : Text → List RemoteFile → List RemoteSet
unfolding directory_sets directory_of group_onto
group repo files = sets_of_directories repo (sort_by by_key (group_onto directory_of files []))

pub record Component : Type 0 where
  pub repo : Text
  pub path : Text

pub record Bundle : Type 0 where
  pub name : Text
  pub repo : Text
  pub components : List Component

unfoldable pub find_file : Text → List RemoteFile → Option RemoteFile
find_file path [] = none
find_file path (item ∷ items) = if item.path == path then some item else find_file path items

abbrev pub or_no_files : Option (List RemoteFile) → List RemoteFile
or_no_files none = []
or_no_files (some files) = files

abbrev pub add_component :
    Component → Option RemoteFile → List RemoteFile × List Text → List RemoteFile × List Text
add_component component none (files, missing) =
    (files, (component.repo ++ (codes ":" ++ component.path)) ∷ missing)
add_component component (some match) (files, missing) =
    (record match { repo = component.repo } ∷ files, missing)

-- The files of a bundle that are there, and the names of those that are not.
unfoldable pub match_all :
    Dict Text (List RemoteFile) → List Component → List RemoteFile × List Text
unfolding find_file
match_all listings [] = ([], [])
match_all listings (component ∷ components) =
    add_component component (find_file component.path (or_no_files (get component.repo listings)))
      (match_all listings components)

abbrev pub is_nil : List Text → Bool
is_nil [] = true
is_nil (name ∷ names) = false

unfoldable pub bundle_set : Dict Text (List RemoteFile) → Bundle → RemoteSet
unfolding match_all
bundle_set listings bundle =
    let (files, missing) = match_all listings bundle.components in
    record {
      repo = bundle.repo;
      name = bundle.name;
      files = files;
      complete = is_nil missing;
      missing = missing;
    }

unfoldable pub bundle_sets : Dict Text (List RemoteFile) → List Bundle → List RemoteSet
unfolding bundle_set
bundle_sets listings bundles = map (bundle_set listings) bundles
