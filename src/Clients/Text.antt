-- ===== src/Clients/Text.antt =====
-- Texts of requests as lists of code points, and the operations of Python's `str` that
-- ai_lab/clients/ uses, for ASCII texts.
use Prim.Native.Char.{code}
use Prim.Native.String.{String}
use ai_lab.Common.{
  ℕ, ◌+◌, ◌-◌, ◌≡◌, ◌↔◌, Bool, true, false, ◌&&◌, ◌||◌, not, List, [], ◌∷◌, ◌++◌, map,
  if◌then◌else◌, leb, eqb, eqb_iff, arith, Key,
}
use mathlib.Core.List.{reverse}

abbrev pub Text : Type 0
Text = List ℕ

abbrev pub codes : String → Text
codes String.[] = []
codes (String.◌∷◌ c s) = code c ∷ codes s

abbrev pub text_eq : Text → Text → Bool
text_eq [] [] = true
text_eq [] (y ∷ ys) = false
text_eq (x ∷ xs) [] = false
text_eq (x ∷ xs) (y ∷ ys) = eqb x y && text_eq xs ys

pub text_eq_iff : (a b : Text) → (text_eq a b ≡ true) ↔ (a ≡ b)
text_eq_iff [] [] = ground arith
text_eq_iff [] (y ∷ ys) = ground arith
text_eq_iff (x ∷ xs) [] = ground arith
text_eq_iff (x ∷ xs) (y ∷ ys) = ground (arith, text_eq_iff xs ys, eqb_iff x y)

instance abbrev pub text_key : Key Text
text_key = record { beq = text_eq; beq_iff = text_eq_iff }

unfoldable pub lower : Text → Text
lower = map (λ c. if leb b'A' c && leb c b'Z' then c + 32 else c)

unfoldable pub upper : Text → Text
upper = map (λ c. if leb b'a' c && leb c b'z' then c - 32 else c)

unfoldable pub starts_with : Text → Text → Bool
starts_with [] s = true
starts_with (p ∷ ps) [] = false
starts_with (p ∷ ps) (c ∷ s) = eqb p c && starts_with ps s

unfoldable pub ends_with : Text → Text → Bool
unfolding starts_with
ends_with suffix s = starts_with (reverse suffix) (reverse s)

-- `str.isspace`
abbrev pub is_space : ℕ → Bool
is_space c =
    (leb 9 c && leb c 13)
    || (leb 28 c && leb c 32)
    || eqb c 133
    || eqb c 160
    || eqb c 5760
    || (leb 8192 c && leb c 8202)
    || eqb c 8232
    || eqb c 8233
    || eqb c 8239
    || eqb c 8287
    || eqb c 12288

abbrev pub is_slash : ℕ → Bool
is_slash c = eqb c b'/'

unfoldable pub strip_left : (ℕ → Bool) → Text → Text
strip_left out [] = []
strip_left out (c ∷ s) = let rest = strip_left out s in if out c then rest else c ∷ s

unfoldable pub strip : (ℕ → Bool) → Text → Text
unfolding strip_left
strip out s = reverse (strip_left out (reverse (strip_left out s)))

-- `s.split("/")`: the piece being read, and the pieces behind it.
unfoldable pub split_slash : Text → Text × List Text
split_slash [] = ([], [])
split_slash (c ∷ s) =
    let (piece, more) = split_slash s in
    if is_slash c then ([], piece ∷ more) else (c ∷ piece, more)

unfoldable pub join_slash : List Text → Text
join_slash [] = []
join_slash (piece ∷ []) = piece
join_slash (piece ∷ next ∷ more) = piece ++ codes "/" ++ join_slash (next ∷ more)

unfoldable pub non_empty : Text → Bool
non_empty [] = false
non_empty (c ∷ s) = true

-- The last part of a path: an empty part and `.` are none.
abbrev pub last_part : List Text → Text → Text
last_part [] found = found
last_part (part ∷ more) found =
    let kept = if non_empty part && not (text_eq part (codes ".")) then part else found in
    last_part more kept

-- `Path(text).name`
unfoldable pub path_name : Text → Text
unfolding split_slash non_empty
path_name s = let (piece, more) = split_slash s in last_part (piece ∷ more) []

-- `text.rsplit("/", 1)[-1]` and `text.split("/", 1)[0]`
abbrev pub last_piece : Text → List Text → Text
last_piece piece [] = piece
last_piece piece (next ∷ more) = last_piece next more

unfoldable pub behind_slash : Text → Text
unfolding split_slash
behind_slash s = let (piece, more) = split_slash s in last_piece piece more

unfoldable pub before_slash : Text → Text
unfolding split_slash
before_slash s = (split_slash s).0
