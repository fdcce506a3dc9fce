-- ===== src/Providers/Failures.antt =====
-- ai_lab/providers/errors.py: what a CLI's failure means, read from its own words. A missing text is
-- empty.
use ai_lab.Common.{
  ℕ, Bool, true, false, ◌&&◌, ◌||◌, Option, none, some, List, [], ◌∷◌, if◌then◌else◌, leb, take,
  map, keep,
}
use mathlib.Core.List.{reverse}
use ai_lab.Clients.Text.{Text, codes, lower, starts_with, strip, is_space, non_empty}

pub data ErrorKind : Type 0 where
  rate_limit fatal transient : ErrorKind

abbrev label_length : ℕ
label_length = 60

unfoldable pub rate_limit_markers : List Text
rate_limit_markers = map codes (
    "credits out" ∷ "usage limit" ∷ "rate limit" ∷ "429" ∷ "too many requests" ∷ "quota"
    ∷ "try again later" ∷ "resets at" ∷ "resets in" ∷ "overloaded" ∷ "capacity" ∷ "session limit"
    ∷ [])

unfoldable pub fatal_markers : List Text
fatal_markers = map codes (
    "not logged in" ∷ "unauthorized" ∷ "invalid api key" ∷ "no such model" ∷ "unknown model"
    ∷ "permission denied" ∷ "forbidden" ∷ "please run /login" ∷ "cannot start the cli"
    ∷ "is not supported" ∷ "invalid_request_error" ∷ [])

-- `marker in text`
unfoldable pub contains : Text → Text → Bool
unfolding starts_with
contains marker [] = starts_with marker []
contains marker (c ∷ text) = starts_with marker (c ∷ text) || contains marker text

unfoldable pub first_marker : List Text → Text → Option Text
unfolding contains
first_marker [] text = none
first_marker (marker ∷ more) text =
    if contains marker text then some marker else first_marker more text

abbrev is_line_end : ℕ → Bool
is_line_end c = (leb 10 c && leb c 13) || (leb 28 c && leb c 30)

-- The line being read, and the lines behind it. A line that is empty is dropped later, so the two
-- characters of one line end may stand for two.
unfoldable pub split_lines : Text → Text × List Text
split_lines [] = ([], [])
split_lines (c ∷ s) =
    let (line, more) = split_lines s in
    if is_line_end c then ([], line ∷ more) else (c ∷ line, more)

abbrev is_digit : ℕ → Bool
is_digit c = leb b'0' c && leb c b'9'

-- `re.sub(r"\d+", "#", line)`; the flag tells that a digit stands before.
unfoldable pub blank_digits : Bool → Text → Text
blank_digits after [] = []
blank_digits after (c ∷ s) =
    let plain = blank_digits false s in
    let digits = blank_digits true s in
    if is_digit c then (if after then digits else b'#' ∷ digits) else c ∷ plain

abbrev label_of : List Text → Text
label_of [] = codes "empty output"
label_of (last ∷ before) = take label_length (blank_digits false last)

unfoldable pub label : Text → Text
unfolding split_lines blank_digits strip non_empty
label lowered =
    let (line, more) = split_lines lowered in
    label_of (reverse (keep non_empty (map (strip is_space) (line ∷ more))))

unfoldable pub classify : Text → ErrorKind × Text
unfolding lower first_marker rate_limit_markers fatal_markers label
classify text =
    let lowered = lower text in
    elim (first_marker rate_limit_markers lowered) [
      | some marker ↦ (rate_limit, marker)
      | none ↦ elim (first_marker fatal_markers lowered) [
        | some marker ↦ (fatal, marker)
        | none ↦ (transient, label lowered)
      ]
    ]
