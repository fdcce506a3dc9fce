-- ===== src/Downloads/Names.antt =====
-- Files of one model and their names: which are staged, and where a move by name leaves each.
use ai_lab.Common.{
  ◌≡◌, refl, ◌≢◌, ◌↔◌, Bool, true, false, some, List, [], ◌∷◌, if◌then◌else◌, if_cases, arith,
  eqb_iff, All, keep, ◌==◌, ==_refl,
}
use ai_lab.Common.Dict.{get, put, pop, get-put, get-pop}
use ai_lab.Common.Member.{Has, here, there, All-Has, All-keep}
use ai_lab.Clients.Text.{Text, text_key, text_eq_iff}
use ai_lab.Downloads.Files.{Bytes, RemoteFile, Folder, same_file, file_name, path_key}
use ai_lab.Downloads.Fetch.{fine}
use ai_lab.Downloads.Publish.{move_all, is_staged}

-- Every file of a list has a name of its own.
abbrev pub HasOwnNames : List RemoteFile → Type 0
HasOwnNames [] = Unit
HasOwnNames (item ∷ items) =
    All (λ other. file_name item ≢ file_name other) items × HasOwnNames items

pub HasOwnNames-keep :
    (test : RemoteFile → Bool) (items : List RemoteFile)
    → HasOwnNames items
    → HasOwnNames (keep test items)
HasOwnNames-keep test [] own = tt
HasOwnNames-keep test (item ∷ items) own =
    if_cases HasOwnNames (test item)
      (λ _. (
        All-keep (λ other. file_name item ≢ file_name other) test items own.0,
        HasOwnNames-keep test items own.1,
      ))
      (λ _. HasOwnNames-keep test items own.1)

abbrev pub named : Text → List RemoteFile → Bool
named name [] = false
named name (item ∷ items) =
    let later = named name items in if file_name item == name then true else later

pub named_not :
    (name : Text) (items : List RemoteFile)
    → All (λ other. name ≢ file_name other) items
    → named name items ≡ false
named_not name [] others = refl
named_not name (item ∷ items) others =
    ground (arith, named_not name items others.1, text_eq_iff (file_name item) name, others.0)

pub named-keep :
    (test : RemoteFile → Bool) {item : RemoteFile} {items : List RemoteFile}
    → HasOwnNames items
    → Has item items
    → named (file_name item) (keep test items) ≡ test item
named-keep test {item} own (here {xs = items}) = ground (
  arith,
  ==_refl (file_name item),
  named_not (file_name item) (keep test items)
      (All-keep (λ other. file_name item ≢ file_name other) test items own.0),
)
named-keep test {item} own (there {y = other} {xs = items} has) = ground (
  arith,
  named-keep test own.1 has,
  text_eq_iff (file_name other) (file_name item),
  All-Has (λ other'. file_name other ≢ file_name other') own.0 has,
)

pub same_file_iff : (a b : RemoteFile) → (same_file a b ≡ true) ↔ (a ≡ b)
same_file_iff a b = ground (
  arith,
  text_eq_iff a.path b.path,
  eqb_iff a.size_bytes b.size_bytes,
  text_eq_iff a.repo b.repo,
  text_eq_iff a.sha256 b.sha256,
)

pub is_staged_not :
    (test : RemoteFile → Bool) (item : RemoteFile) (items : List RemoteFile)
    → test item ≡ false
    → is_staged item (keep test items) ≡ false
is_staged_not test item [] fails = refl
is_staged_not test item (other ∷ items) fails =
    ground (arith, is_staged_not test item items fails, same_file_iff item other)

pub is_staged-keep :
    (test : RemoteFile → Bool) {item : RemoteFile} {items : List RemoteFile}
    → Has item items
    → is_staged item (keep test items) ≡ test item
is_staged-keep test {item} (here {xs = items}) =
    ground (arith, is_staged_not test item items, same_file_iff item item)
is_staged-keep test {item} (there {y = other} {xs = items} has) =
    ground (arith, is_staged-keep test has, same_file_iff item other, is_staged_not test item items)

abbrev pub IsThere : Folder → RemoteFile → Type 0
IsThere folder item = (content : Bytes) × (get (file_name item) folder ≡ some content)

pub IsThere-pop :
    (name : Text) (folder : Folder) (items : List RemoteFile)
    → All (λ other. name ≢ file_name other) items
    → All (IsThere folder) items
    → All (IsThere (pop name folder)) items
IsThere-pop name folder [] others all = tt
IsThere-pop name folder (item ∷ items) others all = (
  (
    all.0.0,
    ground (
      arith,
      all.0.1,
      get-pop name (file_name item) folder,
      text_eq_iff name (file_name item),
      others.0,
    ),
  ),
  IsThere-pop name folder items others.1 all.1,
)

pub move_all-get :
    (staged : List RemoteFile) (working visible : Folder) (name : Text)
    → HasOwnNames staged
    → All (IsThere working) staged
    → (((move_all staged working visible).1 ≡ fine)
        × (get name (move_all staged working visible).0
            ≡ (if named name staged then get name working else get name visible)))
unfolding move_all
move_all-get [] working visible name own all = (refl, refl)
move_all-get (item ∷ staged) working visible name own all =
    let rest =
      move_all-get staged (pop (file_name item) working) (put (file_name item) all.0.0 visible) name
        own.1 (IsThere-pop (file_name item) working staged own.0 all.1) in
    ground (
      arith,
      rest,
      all.0.1,
      get-pop (file_name item) name working,
      get-put (file_name item) name all.0.0 visible,
      text_eq_iff (file_name item) name,
      named_not (file_name item) staged own.0,
    )
