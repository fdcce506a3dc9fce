-- ===== src/Uploads.antt =====
-- ai_lab/uploads.py: checking an uploaded image by its own bytes. A byte is a number below 256; the
-- masks and shifts of the source are written as remainders, quotients and sums of bytes.
pub mod Limits
mod Examples
use ai_lab.Common.{
  ℕ, zero, suc, ◌+◌, ◌-◌, ◌*◌, ◌/◌, ◌%◌, max, Bool, true, false, not, ◌&&◌, ◌||◌, Option, none,
  some, List, [], ◌∷◌, if◌then◌else◌, ltb, leb, eqb, length, take, drop, ◌==◌,
}
use ai_lab.Clients.Text.{Text, codes, text_eq, starts_with, text_key}

pub data Mime : Type 0 where
  png jpeg gif webp : Mime

pub record ImageInfo : Type 0 where
  pub mime : Mime
  pub width : ℕ
  pub height : ℕ

pub data Rejected : Type 0 where
  too_many_bytes too_large too_many_pixels : Rejected
  malformed unknown_format : Rejected

pub data Checked : Type 0 where
  accepted : ImageInfo → Checked
  rejected : Rejected → Checked

-- `data[from:from + n]`
abbrev pub slice : ℕ → ℕ → Text → Text
slice from n data_ = take n (drop from data_)

abbrev number_big : ℕ → Text → ℕ
number_big acc [] = acc
number_big acc (b ∷ s) = number_big (acc * 256 + b) s

abbrev number_little : Text → ℕ
number_little [] = 0
number_little (b ∷ s) = b + 256 * number_little s

-- `struct.unpack` of big-endian and of little-endian numbers, over the bytes of a slice.
abbrev pub big : ℕ → ℕ → Text → ℕ
big from n data_ = number_big 0 (slice from n data_)

abbrev pub little : ℕ → ℕ → Text → ℕ
little from n data_ = number_little (slice from n data_)

abbrev info : Mime → ℕ → ℕ → Checked
info mime width height = accepted (record { mime = mime; width = width; height = height })

unfoldable pub png_info : Text → Checked
png_info data_ =
    if ltb (length data_) 24 || not (text_eq (slice 12 4 data_) (codes "IHDR"))
    then rejected malformed
    else info png (big 16 4 data_) (big 20 4 data_)

abbrev pub is_standalone : ℕ → Bool
is_standalone marker = eqb marker 216 || eqb marker 1 || (leb 208 marker && leb marker 215)

abbrev pub is_frame : ℕ → Bool
is_frame marker =
    leb 192 marker && leb marker 207 && not (eqb marker 196 || eqb marker 200 || eqb marker 204)

pub data Scan : Type 0 where
  done : Checked → Scan
  at_index : ℕ → Scan

-- One round of the loop at an index with four bytes to read.
unfoldable pub jpeg_round : ℕ → Text → Scan
jpeg_round index data_ =
    let marker = big (index + 1) 1 data_ in
    if not (eqb (big index 1 data_) 255)
    then at_index (index + 1)
    else if is_standalone marker
    then at_index (index + 2)
    else if eqb marker 217
    then done (rejected malformed)
    else if is_frame marker
    then (if ltb (length data_) (index + 9)
        then done (rejected malformed)
        else done (info jpeg (big (index + 7) 2 data_) (big (index + 5) 2 data_)))
    else at_index (index + (2 + big (index + 2) 2 data_))

-- `fuel` bounds the rounds; `none` where it is spent.
unfoldable pub jpeg_loop : ℕ → ℕ → Text → Option Checked
unfolding jpeg_round
jpeg_loop zero index data_ = none
jpeg_loop (suc fuel) index data_ =
    if leb (index + 4) (length data_)
    then elim (jpeg_round index data_) [
      | done c ↦ some c
      | at_index index' ↦ jpeg_loop fuel index' data_
    ]
    else some (rejected malformed)

unfoldable pub jpeg_info : Text → Option Checked
unfolding jpeg_loop
jpeg_info data_ = jpeg_loop (length data_ + 1) 2 data_

unfoldable pub gif_info : Text → Checked
gif_info data_ =
    if ltb (length data_) 10
    then rejected malformed
    else info gif (little 6 2 data_) (little 8 2 data_)

unfoldable pub webp_info : Text → Checked
webp_info data_ =
    let chunk = slice 12 4 data_ in
    if ltb (length data_) 30
    then rejected malformed
    else if text_eq chunk (codes "VP8 ")
    then info webp (little 26 2 data_ % 16384) (little 28 2 data_ % 16384)
    else if text_eq chunk (codes "VP8L")
    then (let packed = little 21 4 data_ in
        info webp (packed % 16384 + 1) (packed / 16384 % 16384 + 1))
    else if text_eq chunk (codes "VP8X")
    then info webp (1 + little 24 3 data_) (1 + little 27 3 data_)
    else rejected malformed

abbrev pub png_start : Text
png_start = 137 ∷ 80 ∷ 78 ∷ 71 ∷ 13 ∷ 10 ∷ 26 ∷ 10 ∷ []

unfoldable pub sniff_image : Text → Option Checked
unfolding starts_with png_info jpeg_info gif_info webp_info
sniff_image data_ =
    if starts_with png_start data_
    then some (png_info data_)
    else if starts_with (255 ∷ 216 ∷ 255 ∷ []) data_
    then jpeg_info data_
    else if text_eq (take 6 data_) (codes "GIF87a") || text_eq (take 6 data_) (codes "GIF89a")
    then some (gif_info data_)
    else if text_eq (take 4 data_) (codes "RIFF") && text_eq (slice 8 4 data_) (codes "WEBP")
    then some (webp_info data_)
    else some (rejected unknown_format)

abbrev pub within : ℕ → ℕ → Checked → Checked
within max_pixels max_dimension (rejected why) = rejected why
within max_pixels max_dimension (accepted i) =
    if not (eqb max_dimension 0) && ltb max_dimension (max i.width i.height)
    then rejected too_large
    else if not (eqb max_pixels 0) && ltb max_pixels (i.width * i.height)
    then rejected too_many_pixels
    else accepted i

abbrev pub checked_within : ℕ → ℕ → Option Checked → Option Checked
checked_within max_pixels max_dimension none = none
checked_within max_pixels max_dimension (some c) = some (within max_pixels max_dimension c)

unfoldable pub validate_image : ℕ → ℕ → ℕ → Text → Option Checked
unfolding sniff_image
validate_image max_bytes max_pixels max_dimension data_ =
    if not (eqb max_bytes 0) && ltb max_bytes (length data_)
    then some (rejected too_many_bytes)
    else checked_within max_pixels max_dimension (sniff_image data_)
