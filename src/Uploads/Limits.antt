-- ===== src/Uploads/Limits.antt =====
-- That an upload is always judged, and what an accepted one keeps to.
use ai_lab.Common.{
  ℕ, zero, suc, ◌+◌, ◌*◌, ◌≤◌, ◌<◌, ◌≡◌, refl, ap, ◌⊎◌, max, not, ◌&&◌, ◌||◌, Option, some, [], ◌∷◌,
  if_cases, ltb, leb, eqb, length, arith, take,
}
use ai_lab.Clients.Text.{Text, starts_with, codes, text_eq}
use ai_lab.Uploads.{
  Checked, accepted, rejected, Scan, done, at_index, jpeg_round, jpeg_loop, sniff_image, png_info,
  gif_info, webp_info, within, checked_within, validate_image, too_many_bytes, malformed,
  unknown_format, big, is_standalone, is_frame, png_start, slice,
}

abbrev Judged : Option Checked → Type 0
Judged r = (c : Checked) × (r ≡ some c)

-- A round of the scan ends it or moves on.
abbrev Moves : ℕ → Scan → Type 0
Moves index (done c) = Unit
Moves index (at_index index') = index < index'

jpeg_round-Moves : (index : ℕ) (data_ : Text) → Moves index (jpeg_round index data_)
unfolding jpeg_round
jpeg_round-Moves index data_ =
    let marker : ℕ = big (index + 1) 1 data_ in
    if_cases (Moves index) (not (eqb (big index 1 data_) 255)) (λ _. omega arith)
      (λ _.
        if_cases (Moves index) (is_standalone marker) (λ _. omega arith)
          (λ _.
            if_cases (Moves index) (eqb marker 217) (λ _. tt)
              (λ _.
                if_cases (Moves index) (is_frame marker)
                  (λ _. if_cases (Moves index) (ltb (length data_) (index + 9)) (λ _. tt) (λ _. tt))
                  (λ _. omega arith))))

jpeg_loop-Judged :
    (fuel index : ℕ) (data_ : Text)
    → 0 < fuel
    → length data_ < fuel + index
    → Judged (jpeg_loop fuel index data_)
unfolding jpeg_loop
jpeg_loop-Judged zero index data_ pos h = absurd (omega arith)
jpeg_loop-Judged (suc fuel) index data_ pos h =
    if_cases Judged (leb (index + 4) (length data_))
      (λ more.
        by_scan (λ index' on. jpeg_loop-Judged fuel index' data_ (ground arith) (ground arith))
          (jpeg_round index data_) (jpeg_round-Moves index data_))
      (λ _. (rejected malformed, refl))
  where
    by_scan :
        ((index' : ℕ) → index < index' → Judged (jpeg_loop fuel index' data_))
        → (s : Scan) → Moves index s
        → Judged (elim s as (λ _. Option Checked) [
          | done c ↦ some c
          | at_index index' ↦ jpeg_loop fuel index' data_
        ])
    by_scan again (done c) m = (c, refl)
    by_scan again (at_index index') m = again index' m

sniff_image-Judged : (data_ : Text) → Judged (sniff_image data_)
unfolding sniff_image
sniff_image-Judged data_ =
    if_cases Judged (starts_with png_start data_) (λ _. (png_info data_, refl))
      (λ _.
        if_cases Judged (starts_with (255 ∷ 216 ∷ 255 ∷ []) data_)
          (λ _. jpeg_loop-Judged (length data_ + 1) 2 data_ (omega arith) (omega arith))
          (λ _.
            if_cases Judged
              (text_eq (take 6 data_) (codes "GIF87a") || text_eq (take 6 data_) (codes "GIF89a"))
              (λ _. (gif_info data_, refl))
              (λ _.
                if_cases Judged
                  (text_eq (take 4 data_) (codes "RIFF")
                    && text_eq (slice 8 4 data_) (codes "WEBP"))
                  (λ _. (webp_info data_, refl)) (λ _. (rejected unknown_format, refl)))))

-- A limit that is zero is not configured.
abbrev pub Keeps : ℕ → ℕ → Type 0
Keeps limit n = (limit ≡ 0) ⊎ (n ≤ limit)

abbrev pub Verdict : ℕ → ℕ → ℕ → Text → Checked → Type 0
Verdict max_bytes max_pixels max_dimension data_ (rejected why) = Unit
Verdict max_bytes max_pixels max_dimension data_ (accepted i) =
    Keeps max_bytes (length data_)
    × Keeps max_dimension i.width
    × Keeps max_dimension i.height
    × Keeps max_pixels (i.width * i.height)
    × (sniff_image data_ ≡ some (accepted i))

within-Verdict :
    (max_bytes max_pixels max_dimension : ℕ) (data_ : Text) (c : Checked)
    → Keeps max_bytes (length data_)
    → sniff_image data_ ≡ some c
    → Verdict max_bytes max_pixels max_dimension data_ (within max_pixels max_dimension c)
within-Verdict max_bytes max_pixels max_dimension data_ (rejected why) small e = tt
within-Verdict max_bytes max_pixels max_dimension data_ (accepted i) small e =
    if_cases (Verdict max_bytes max_pixels max_dimension data_)
      (not (eqb max_dimension 0) && ltb max_dimension (max i.width i.height)) (λ _. tt)
      (λ dims.
        if_cases (Verdict max_bytes max_pixels max_dimension data_)
          (not (eqb max_pixels 0) && ltb max_pixels (i.width * i.height)) (λ _. tt)
          (λ pixels. (small, ground arith, ground arith, ground arith, e)))

-- Every upload is judged, however its bytes read: the scan of a JPEG ends. One that is accepted has
-- no more bytes, no side longer and no more pixels than the limits that are configured, by what its
-- own header says.
pub validate_image-Verdict :
    (max_bytes max_pixels max_dimension : ℕ) (data_ : Text)
    → (c : Checked) × (validate_image max_bytes max_pixels max_dimension data_ ≡ some c)
      × Verdict max_bytes max_pixels max_dimension data_ c
unfolding validate_image
validate_image-Verdict max_bytes max_pixels max_dimension data_ =
    if_cases
      (λ r. (c : Checked) × (r ≡ some c) × Verdict max_bytes max_pixels max_dimension data_ c)
      (not (eqb max_bytes 0) && ltb max_bytes (length data_))
      (λ _. (rejected too_many_bytes, refl, tt))
      (λ small. sniffed (ground arith) (sniff_image-Judged data_))
  where
    sniffed :
        Keeps max_bytes (length data_)
        → Judged (sniff_image data_)
        → (c : Checked) × (checked_within max_pixels max_dimension (sniff_image data_) ≡ some c)
          × Verdict max_bytes max_pixels max_dimension data_ c
    sniffed small (c, e) = (
      within max_pixels max_dimension c,
      ap (checked_within max_pixels max_dimension) e,
      within-Verdict max_bytes max_pixels max_dimension data_ c small e,
    )
