-- ===== src/Downloads/Files.antt =====
-- ai_lab/downloads/transfers.py and huggingface.py: the listing of a model, its transfer, and the
-- folders it is written to.
use ai_lab.Common.{
  ℕ, ◌+◌, ◌≡◌, ◌↔◌, Bool, true, false, ◌&&◌, ◌||◌, Option, none, some, List, [], ◌∷◌, ◌++◌, map,
  if◌then◌else◌, eqb, leb, arith, Key, ◌==◌,
}
use ai_lab.Common.Dict.{Dict, get}
use ai_lab.Clients.Text.{Text, codes, text_key, text_eq_iff, is_slash, strip_left, path_name}

abbrev pub Bytes : Type 0
Bytes = List ℕ

abbrev pub FilePath : Type 0
FilePath = List Text

abbrev pub path_eq : FilePath → FilePath → Bool
path_eq [] [] = true
path_eq [] (y ∷ ys) = false
path_eq (x ∷ xs) [] = false
path_eq (x ∷ xs) (y ∷ ys) = (x == y) && path_eq xs ys

pub path_eq_iff : (a b : FilePath) → (path_eq a b ≡ true) ↔ (a ≡ b)
path_eq_iff [] [] = ground arith
path_eq_iff [] (y ∷ ys) = ground arith
path_eq_iff (x ∷ xs) [] = ground arith
path_eq_iff (x ∷ xs) (y ∷ ys) = ground (arith, path_eq_iff xs ys, text_eq_iff x y)

instance abbrev pub path_key : Key FilePath
path_key = record { beq = path_eq; beq_iff = path_eq_iff }

pub record RemoteFile : Type 0 where
  pub path : Text
  pub size_bytes : ℕ
  pub repo : Text
  pub sha256 : Text

pub record RemoteSet : Type 0 where
  pub repo : Text
  pub name : Text
  pub files : List RemoteFile
  pub complete : Bool
  pub missing : List Text

unfoldable pub sum_sizes : List RemoteFile → ℕ
sum_sizes [] = 0
sum_sizes (item ∷ items) = item.size_bytes + sum_sizes items

unfoldable pub size_bytes : RemoteSet → ℕ
unfolding sum_sizes
size_bytes remote = sum_sizes remote.files

abbrev pub same_file : RemoteFile → RemoteFile → Bool
same_file a b =
    (a.path == b.path)
    && eqb a.size_bytes b.size_bytes
    && (a.repo == b.repo)
    && (a.sha256 == b.sha256)

unfoldable pub file_name : RemoteFile → Text
unfolding path_name
file_name item = path_name item.path

-- The files of a folder by their names.
abbrev pub Folder : Type 0
Folder = Dict Text Bytes

-- The folders that hold files, by their paths. A folder above one of them exists as well.
abbrev pub Disk : Type 0
Disk = Dict FilePath Folder

abbrev pub begins : FilePath → FilePath → Bool
begins [] p = true
begins (a ∷ as') [] = false
begins (a ∷ as') (b ∷ bs) = (a == b) && begins as' bs

unfoldable pub is_there : FilePath → Disk → Bool
is_there path [] = false
is_there path ((at, folder) ∷ disk) = begins path at || is_there path disk

abbrev pub or_empty : Option Folder → Folder
or_empty none = []
or_empty (some folder) = folder

unfoldable pub folder_at : FilePath → Disk → Folder
folder_at path disk = or_empty (get path disk)

unfoldable pub parent : FilePath → FilePath
parent [] = []
parent (part ∷ []) = []
parent (part ∷ next ∷ more) = part ∷ parent (next ∷ more)

abbrev pub is_alnum : ℕ → Bool
is_alnum c = (leb b'0' c && leb c b'9') || (leb b'A' c && leb c b'Z') || (leb b'a' c && leb c b'z')

abbrev pub is_kept : ℕ → Bool
is_kept c = is_alnum c || eqb c b'-' || eqb c b'.' || eqb c b'_'

abbrev pub or_transfer : Text → Text
or_transfer [] = codes "transfer"
or_transfer (c ∷ s) = c ∷ s

unfoldable pub safe : Text → Text
unfolding strip_left
safe name =
    or_transfer (strip_left (λ c. eqb c b'.') (map (λ c. if is_kept c then c else b'_') name))

unfoldable pub working_of : FilePath → Text → FilePath
unfolding parent safe
working_of destination id = parent destination ++ (codes ".ai-lab-downloads" ∷ safe id ∷ [])

-- `f"{repo}/{name}".replace("/", "_")`
unfoldable pub transfer_id : RemoteSet → Text
transfer_id remote =
    map (λ c. if is_slash c then b'_' else c) (remote.repo ++ codes "/" ++ remote.name)
