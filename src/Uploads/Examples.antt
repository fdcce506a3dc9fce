-- ===== src/Uploads/Examples.antt =====
-- A small PNG and a JPEG with a segment before its frame.
use ai_lab.Common.{◌≡◌, refl, some, [], ◌∷◌, ◌++◌}
use ai_lab.Clients.Text.{Text, codes, starts_with}
use ai_lab.Uploads.{
  Checked, accepted, rejected, too_large, png, jpeg, sniff_image, validate_image, png_info,
  jpeg_info, gif_info, webp_info, png_start, jpeg_loop, jpeg_round,
}
use ai_lab.Uploads.Limits.{Verdict, validate_image-Verdict}

abbrev picture : Text
picture = png_start ++ 0 ∷ 0 ∷ 0 ∷ 13 ∷ codes "IHDR" ++ 0 ∷ 0 ∷ 1 ∷ 0 ∷ 0 ∷ 0 ∷ 0 ∷ 9 ∷ []

abbrev photo : Text
photo = 255 ∷ 216 ∷ 255 ∷ 224 ∷ 0 ∷ 4 ∷ 1 ∷ 2 ∷ 255 ∷ 192 ∷ 0 ∷ 11 ∷ 8 ∷ 0 ∷ 20 ∷ 1 ∷ 4 ∷ []

program : Unit {0}
unfolding sniff_image validate_image starts_with png_info jpeg_info gif_info webp_info jpeg_loop
    jpeg_round
program = tt

sniff_picture :
    sniff_image picture ≡ some (accepted (record { mime = png; width = 256; height = 9 }))
unfolding program
sniff_picture = refl

sniff_photo : sniff_image photo ≡ some (accepted (record { mime = jpeg; width = 260; height = 20 }))
unfolding program
sniff_photo = refl

picture_too_large : validate_image 0 0 255 picture ≡ some (rejected too_large)
unfolding program
picture_too_large = refl

validate_image-Verdict_example :
    (c : Checked) × (validate_image 100 0 300 photo ≡ some c) × Verdict 100 0 300 photo c
validate_image-Verdict_example = validate_image-Verdict 100 0 300 photo
