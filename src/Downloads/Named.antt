-- ===== src/Downloads/Named.antt =====
-- The name of a working folder.
use ai_lab.Common.{ℕ, ◌≢◌, Bool, [], ◌∷◌, map, arith, if◌then◌else◌, if_cases, All, eqb, eqb_iff}
use ai_lab.Clients.Text.{Text, strip_left}
use ai_lab.Downloads.Files.{is_kept, or_transfer, safe}

-- A name that is one part of a path and means no other folder: it is not empty, it does not begin
-- with a dot, and it has no slash.
abbrev pub IsFolderName : Text → Type 0
IsFolderName [] = ⊥
IsFolderName (c ∷ s) = (c ≢ b'.') × (c ≢ b'/') × All (λ d. d ≢ b'/') s

abbrev is_dot : ℕ → Bool
is_dot c = eqb c b'.'

abbrev IsPlain : Text → Type 0
IsPlain s = All (λ c. c ≢ b'/') s

kept_plain : (c : ℕ) → (if is_kept c then c else b'_') ≢ b'/'
kept_plain c = if_cases (λ d. d ≢ b'/') (is_kept c) (λ is. ground (arith, is)) (λ _. ground arith)

map-IsPlain : (s : Text) → IsPlain (map (λ c. if is_kept c then c else b'_') s)
map-IsPlain [] = tt
map-IsPlain (c ∷ s) = (kept_plain c, map-IsPlain s)

stripped : (s : Text) → IsPlain s → IsFolderName (or_transfer (strip_left is_dot s))
unfolding strip_left
stripped [] plain = (ground arith, ground arith, ground arith)
stripped (c ∷ s) plain =
    if_cases (λ t. IsFolderName (or_transfer t)) (is_dot c) (λ _. stripped s plain.1)
      (λ other. (ground (arith, other, eqb_iff c b'.'), plain.0, plain.1))

-- Whatever the repository and the model are called, the working folder of a transfer is named by
-- one part of a path, which is neither empty nor `.` or `..`.
pub safe-IsFolderName : (name : Text) → IsFolderName (safe name)
unfolding safe
safe-IsFolderName name = stripped (map (λ c. if is_kept c then c else b'_') name) (map-IsPlain name)
