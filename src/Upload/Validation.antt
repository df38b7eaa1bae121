-- ===== src/Upload/Validation.antt =====
-- `validate_upload_for_processing` of upload_validation.py: the kind and the size of an upload. The
-- reads put the position of the file back, which is left out.
use claimsintelligence.Base.{
  ℕ, ◌+◌, ◌*◌, Bool, true, false, not, ◌&&◌, ◌||◌, Option, none, some, List, [], ◌∷◌, if◌then◌else◌,
  leb, ltb, eqb, map,
}
use claimsintelligence.Exec.{Outcome, returned, raised}
use claimsintelligence.Upload.Filename.{Text, codes, Unicode, is_nil, splitext, sanitize_filename}

-- `header` is what `read(16)` gives, `size_attribute` is `upload.size`, if that is a number, and
-- `file_end` the position of the end of the file, if there is one and its calls do not raise.
pub record UploadFile : Type 0 where
  pub filename : Option Text
  pub header : List ℕ
  pub content_type : Option Text
  pub size_attribute : Option ℕ
  pub file_end : Option ℕ

-- A `JSONResponse` with its status code, or the name, the MIME type and the size.
pub data Validated : Type 0 where
  refused : ℕ → Validated
  accepted : Text → Text → ℕ → Validated

unfoldable pub get_upload_size_bytes : UploadFile → Option ℕ
get_upload_size_bytes u = elim u.size_attribute [ none ↦ u.file_end | some n ↦ some n ]

abbrev pub starts_with : List ℕ → List ℕ → Bool
starts_with bytes [] = true
starts_with [] (m ∷ magic) = false
starts_with (b ∷ bytes) (m ∷ magic) = eqb b m && starts_with bytes magic

abbrev pub pdf : Text
pdf = codes "application/pdf"

abbrev pub jpeg : Text
jpeg = codes "image/jpeg"

abbrev pub png : Text
png = codes "image/png"

unfoldable pub sniff_mime_type_from_magic : List ℕ → Option Text
sniff_mime_type_from_magic header =
    if starts_with header (codes "%PDF-")
    then some pdf
    else if starts_with header (0xff ∷ 0xd8 ∷ 0xff ∷ [])
    then some jpeg
    else if starts_with header (0x89 ∷ 0x50 ∷ 0x4e ∷ 0x47 ∷ 0x0d ∷ 0x0a ∷ 0x1a ∷ 0x0a ∷ [])
    then some png
    else none

abbrev pub text_eq : Text → Text → Bool
text_eq [] [] = true
text_eq [] (d ∷ t) = false
text_eq (c ∷ s) [] = false
text_eq (c ∷ s) (d ∷ t) = eqb c d && text_eq s t

-- s.lower(), for the safe names, which are ASCII
abbrev pub lower : Text → Text
lower = map λ c. if leb 65 c && leb c 90 then c + 32 else c

unfoldable pub expected_mime_type : Text → Option Text
expected_mime_type extension =
    if text_eq extension (codes ".pdf")
    then some pdf
    else if text_eq extension (codes ".jpg") || text_eq extension (codes ".jpeg")
    then some jpeg
    else if text_eq extension (codes ".png")
    then some png
    else none

abbrev pub same_type : Option Text → Text → Bool
same_type none t = false
same_type (some s) t = text_eq s t

abbrev pub check_size : Text → Text → ℕ → Option ℕ → Validated
check_size name mime limit none = refused 400
check_size name mime limit (some n) = if ltb limit n then refused 413 else accepted name mime n

unfoldable pub check_type : UploadFile → ℕ → Text → Option Text → Validated
check_type u max_filesize_mb name none = refused 415
check_type u max_filesize_mb name (some mime) =
    if not (same_type (sniff_mime_type_from_magic u.header) mime)
    then refused 415
    else if not (
        same_type u.content_type mime
        || same_type u.content_type (codes "application/octet-stream"))
    then refused 415
    else check_size name mime (max_filesize_mb * 1024 * 1024) (get_upload_size_bytes u)

abbrev pub check_name : UploadFile → ℕ → Outcome Text → Validated
check_name u max_filesize_mb (raised e) = refused 400
check_name u max_filesize_mb (returned name) =
    check_type u max_filesize_mb name (expected_mime_type (lower (splitext name).1))

abbrev pub is_missing : Option Text → Bool
is_missing none = true
is_missing (some s) = is_nil s

unfoldable pub validate_upload_for_processing : Unicode → UploadFile → ℕ → Validated
validate_upload_for_processing c u max_filesize_mb =
    if is_missing u.filename
    then refused 400
    else check_name u max_filesize_mb (sanitize_filename c u.filename 255 1024)
