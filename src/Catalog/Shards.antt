-- ===== src/Catalog/Shards.antt =====
-- The name of a shard, printed and read again, and what is absent of a group.
use ai_lab.Common.{
  Bool-cases, inl, inr, eqb_iff, ℕ, zero, suc, ◌+◌, ◌*◌, ◌/◌, ◌%◌, ◌≤◌, ◌<◌, ◌≡◌, refl, sym, ap,
  ◌∙◌, subst, Bool, true, false, some, List, [], ◌∷◌, ◌++◌, if◌then◌else◌, arith, eqb,
}
use mathlib.Core.List.{reverse, reverse-reverse, reverse-append}
use ai_lab.Clients.Text.{Text, codes, text_key}
use ai_lab.Catalog.Naming.{
  is_digit, read_back, is_base, split_back, split_shard, back_digits, shard_name, Shard, shards_of,
  gaps, has_index, all_of_total, missing_of, absent_of, missing_shards, complete, inconsistent,
}

abbrev pub power : ℕ → ℕ
power zero = 1
power (suc width) = 10 * power width

read_back-back_digits :
    (width n : ℕ) (s : Text)
    → n < power width
    → read_back width (back_digits width n ++ s) ≡ some (n, s)
unfolding read_back back_digits
read_back-back_digits zero n s small = ap (λ k. some (k, s)) (omega (arith, small))
read_back-back_digits (suc width) n s small =
    let rest = read_back-back_digits width (n / 10) s (omega (arith, small)) in
    let digit : is_digit (n % 10 + 48) ≡ true = ground arith in
    rw (digit, rest) (ap (λ k. some (k, s)) (omega arith))

-- A base is read as it is: at least one character, and no line feed.
abbrev pub IsBase : Text → Type 0
IsBase s = is_base (reverse s) ≡ true

split_back-parts :
    (base : Text) (index total : ℕ)
    → IsBase base
    → index < 100000
    → total < 100000
    → split_back (
        back_digits 5 total
        ++ (codes "-fo-" ++ (back_digits 5 index ++ (codes "-" ++ reverse base))))
      ≡ some (base, index, total)
unfolding split_back
split_back-parts base index total is_named small few =
    let s2 = codes "-" ++ reverse base in
    let s1 = back_digits 5 index ++ s2 in
    let second = read_back-back_digits 5 total (codes "-fo-" ++ s1) (omega (arith, few)) in
    let first = read_back-back_digits 5 index s2 (omega (arith, small)) in
    rw (second, first, is_named, reverse-reverse base) refl

reverse-shard_name :
    (base : Text) (index total : ℕ)
    → reverse (shard_name base index total)
      ≡ back_digits 5 total
        ++ (codes "-fo-" ++ (back_digits 5 index ++ (codes "-" ++ reverse base)))
unfolding shard_name back_digits
reverse-shard_name base index total = reverse-append base (
    codes "-" ++ (reverse (back_digits 5 index) ++ (codes "-of-" ++ reverse (back_digits 5 total))))

-- The name of a shard with a number and a total of at most five digits, whose base is not empty and
-- has no line feed, is read back as its base,
-- its number and its total.
pub split_shard-shard_name :
    (base : Text) (index total : ℕ)
    → IsBase base
    → index < 100000
    → total < 100000
    → split_shard (shard_name base index total) ≡ some (base, index, total)
unfolding split_shard back_digits
split_shard-shard_name base index total is_named small few =
    let parts = split_back-parts base index total is_named small few in
    let digit : eqb (total % 10 + 48) 10 ≡ false = ground arith in
    rw (reverse-shard_name base index total, digit) parts

gaps-has_index :
    (i first count : ℕ) (shards : List Shard)
    → gaps first count shards ≡ []
    → first ≤ i
    → i < first + count
    → has_index i shards ≡ true
unfolding gaps
gaps-has_index i first zero shards none' low high = absurd (omega (arith, low, high))
gaps-has_index i first (suc count) shards none' low high =
    elim (Bool-cases (has_index first shards)) [
      | inl has ↦ elim (Bool-cases (eqb first i)) [
        | inl same ↦ subst (λ k. has_index k shards ≡ true) ((eqb_iff first i).0 same) has
        | inr other ↦
            gaps-has_index i (first + 1) count shards (ground (arith, none', has))
              (ground (arith, other, low)) (omega (arith, high))
      ]
      | inr lacks ↦ ground (arith, none', lacks)
    ]

agrees :
    (same : Bool) (shard : Shard) (lacking : List ℕ)
    → (if same then absent_of shard.0 shard.2 lacking else inconsistent) ≡ complete
    → (same ≡ true) × (lacking ≡ [])
agrees true shard [] told = (refl, refl)
agrees true shard (i ∷ lacking) told = absurd (ground (arith, told))
agrees false shard lacking told = absurd (ground (arith, told))

-- A group with shards that is told to be complete has one total in all of its names, and every
-- number from one to the total.
pub missing_shards-complete :
    (names : List Text) (shard : Shard) (shards : List Shard) (i : ℕ)
    → shards_of names ≡ shard ∷ shards
    → missing_shards names ≡ complete
    → 1 ≤ i
    → i ≤ shard.2
    → (all_of_total shard.2 shards ≡ true) × (has_index i (shard ∷ shards) ≡ true)
unfolding missing_shards
missing_shards-complete names shard shards i are whole low high =
    let told : missing_of (shard ∷ shards) ≡ complete = sym (ap missing_of are) ∙ whole in
    let lacking = gaps 1 shard.2 (shard ∷ shards) in
    let (same, none') : (all_of_total shard.2 shards ≡ true) × (lacking ≡ []) =
      agrees (all_of_total shard.2 shards) shard lacking told in
    (same, gaps-has_index i 1 shard.2 (shard ∷ shards) none' low (omega (arith, high)))
