-- ===== src/Downloads/Grouped.antt =====
-- No file of weights is lost or doubled when a listing is turned into models, and a bundle that is
-- complete has all of its parts.
use ai_lab.Common.{
  ℕ, ◌+◌, ◌≡◌, refl, sym, ap, ◌∙◌, Bool, true, not, ◌&&◌, Option, none, some, List, [], ◌∷◌, ◌++◌,
  Bool-cases, inl, inr, map, arith, keep, ◌==◌,
}
use ai_lab.Common.Dict.{Dict, get}
use ai_lab.Common.Tally.{
  tally, tally-append, sort_by, tally-sort_by, group_onto, tally_all, tally_all-group_onto,
  tally_all-sort_by,
}
use ai_lab.Clients.Text.{Text, text_key, text_eq_iff}
use ai_lab.Catalog.Naming.{is_weight, is_companion, base_name}
use ai_lab.Downloads.Files.{RemoteFile, RemoteSet}
use ai_lab.Downloads.Listing.{
  directory_of, name_of, by_path, by_key, one_set, sets_of_groups, directory_sets,
  sets_of_directories, group, Component, Bundle, find_file, or_no_files, add_component, match_all,
  is_nil, bundle_set,
}

module _ (test : RemoteFile → Bool) where
  -- A file of weights, which is no companion of others, and passes the test.
  abbrev pub wanted : RemoteFile → Bool
  wanted item = is_weight (name_of item) && not (is_companion (name_of item)) && test item

  abbrev pub tally_sets : List RemoteSet → ℕ
  tally_sets [] = 0
  tally_sets (set ∷ sets) = tally wanted set.files + tally_sets sets

  tally_sets-append :
      (front back : List RemoteSet)
      → tally_sets (front ++ back) ≡ tally_sets front + tally_sets back
  tally_sets-append [] back = omega arith
  tally_sets-append (set ∷ front) back = omega (arith, tally_sets-append front back)

  no_companions :
      (entries : List RemoteFile)
      → tally wanted (keep (λ item. is_companion (name_of item)) entries) ≡ 0
  no_companions [] = refl
  no_companions (item ∷ entries) = ground (arith, no_companions entries)

  all_weights :
      (entries : List RemoteFile)
      → tally wanted (keep (λ item. is_weight (name_of item)) entries) ≡ tally wanted entries
  all_weights [] = refl
  all_weights (item ∷ entries) = ground (arith, all_weights entries)

  tally-one_set :
      (repo directory base : Text) (shards companions : List RemoteFile)
      → tally wanted companions ≡ 0
      → tally wanted (one_set repo directory base shards companions).files ≡ tally wanted shards
  unfolding one_set
  tally-one_set repo directory base shards companions none' = omega (
    arith,
    tally-sort_by wanted by_path (shards ++ companions),
    tally-append wanted shards companions,
    none',
  )

  tally-sets_of_groups :
      (repo directory : Text) (companions : List RemoteFile) (groups : Dict Text (List RemoteFile))
      → tally wanted companions ≡ 0
      → tally_sets (sets_of_groups repo directory companions groups) ≡ tally_all wanted groups
  tally-sets_of_groups repo directory companions [] none' = refl
  tally-sets_of_groups repo directory companions ((base, shards) ∷ groups) none' = omega (
    arith,
    tally-one_set repo directory base shards companions none',
    tally-sets_of_groups repo directory companions groups none',
  )

  tally-directory_sets :
      (repo directory : Text) (entries : List RemoteFile)
      → tally_sets (directory_sets repo directory entries) ≡ tally wanted entries
  unfolding directory_sets
  tally-directory_sets repo directory entries =
      let companions = keep (λ item. is_companion (name_of item)) entries in
      let weights = keep (λ item. is_weight (name_of item)) entries in
      let groups = group_onto (λ (item : RemoteFile). base_name (name_of item)) weights [] in
      omega (
        arith,
        no_companions entries,
        all_weights entries,
        tally-sets_of_groups repo directory companions (sort_by by_key groups)
            (no_companions entries),
        tally_all-sort_by wanted by_key groups,
        tally_all-group_onto wanted (λ item. base_name (name_of item)) weights [],
      )

  tally-sets_of_directories :
      (repo : Text) (directories : Dict Text (List RemoteFile))
      → tally_sets (sets_of_directories repo directories) ≡ tally_all wanted directories
  tally-sets_of_directories repo [] = refl
  tally-sets_of_directories repo ((directory, entries) ∷ directories) = omega (
    arith,
    tally_sets-append (directory_sets repo directory entries)
        (sets_of_directories repo directories),
    tally-directory_sets repo directory entries,
    tally-sets_of_directories repo directories,
  )

  -- Whatever is asked of files, as many files of weights that are no companions pass it in all
  -- models of a listing together as in the listing: none is lost, and none is in two models.
  pub tally-group :
      (repo : Text) (files : List RemoteFile) → tally_sets (group repo files) ≡ tally wanted files
  unfolding group
  tally-group repo files =
      let directories = group_onto directory_of files [] in
      omega (
        arith,
        tally-sets_of_directories repo (sort_by by_key directories),
        tally_all-sort_by wanted by_key directories,
        tally_all-group_onto wanted directory_of files [],
      )

nothing_missing : (names : List Text) → is_nil names ≡ true → names ≡ []
nothing_missing [] is = refl
nothing_missing (name ∷ names) is = absurd (ground (arith, is))

found-path :
    (path : Text) (files : List RemoteFile) (item : RemoteFile)
    → find_file path files ≡ some item
    → item.path ≡ path
unfolding find_file
found-path path [] item found = absurd (ground (arith, found))
found-path path (first ∷ files) item found = elim (Bool-cases (first.path == path)) [
  | inl same ↦
      let first_is : some first ≡ some item = ground (arith, found, same) in
      sym (ap (λ o. elim o [ none ↦ path | some i ↦ i.path ]) first_is)
      ∙ (text_eq_iff first.path path).0 same
  | inr other ↦ found-path path files item (ground (arith, found, other))
]

abbrev pub places_of : List RemoteFile → List (Text × Text)
places_of files = map (λ item. (item.repo, item.path)) files

abbrev pub parts_of : List Component → List (Text × Text)
parts_of components = map (λ part. (part.repo, part.path)) components

added_all :
    (component : Component) (found : Option RemoteFile) (rest : List RemoteFile × List Text)
    (places : List (Text × Text))
    → ((item : RemoteFile) → found ≡ some item → item.path ≡ component.path)
    → (rest.1 ≡ [] → places_of rest.0 ≡ places)
    → (add_component component found rest).1 ≡ []
    → places_of (add_component component found rest).0 ≡ (component.repo, component.path) ∷ places
added_all component none (files, missing) places path later whole = absurd (ground (arith, whole))
added_all component (some item) (files, missing) places path later whole =
    rw (path item refl, later whole) refl

matched_all :
    (listings : Dict Text (List RemoteFile)) (components : List Component)
    → (match_all listings components).1 ≡ []
    → places_of (match_all listings components).0 ≡ parts_of components
unfolding match_all
matched_all listings [] whole = refl
matched_all listings (component ∷ components) whole =
    let files = or_no_files (get component.repo listings) in
    added_all component (find_file component.path files) (match_all listings components)
      (parts_of components) (λ item. λ found. found-path component.path files item found)
      (matched_all listings components) whole

-- A bundle whose set is told to be complete has one file for each of its parts, in their order,
-- from the part's repository and with its path.
pub bundle_set-complete :
    (listings : Dict Text (List RemoteFile)) (bundle : Bundle)
    → (bundle_set listings bundle).complete ≡ true
    → places_of (bundle_set listings bundle).files ≡ parts_of bundle.components
unfolding bundle_set
bundle_set-complete listings bundle whole =
    matched_all listings bundle.components
      (nothing_missing (match_all listings bundle.components).1 whole)
