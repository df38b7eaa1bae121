-- ===== src/Upload/Acceptance.antt =====
-- What an upload is like that `validate_upload_for_processing` of upload_validation.py accepts.
use claimsintelligence.Base.{
  ℕ, ◌*◌, ◌≤◌, ◌≡◌, refl, Bool, true, false, not, ◌||◌, Option, none, some, arith, if◌then◌else◌,
  ltb,
}
use claimsintelligence.Exec.{Outcome, returned, raised}
use claimsintelligence.Upload.Filename.{Text, codes, Unicode, splitext, sanitize_filename}
use claimsintelligence.Upload.Safety.{IsSafeName, sanitize_filename-IsSafeName}
use claimsintelligence.Upload.Validation.{
  UploadFile, Validated, refused, accepted, get_upload_size_bytes, sniff_mime_type_from_magic,
  lower, expected_mime_type, same_type, check_size, check_type, check_name, is_missing,
  validate_upload_for_processing,
}

-- The name is safe, its extension and the first bytes are those of the type, the declared type is
-- that one or a stream of bytes, and the size is known and within the limit.
pub record IsAcceptable (u : UploadFile) (max_filesize_mb : ℕ) (name mime : Text) (size : ℕ)
    : Type 0 where
  pub safe : IsSafeName 255 name
  pub extension : expected_mime_type (lower (splitext name).1) ≡ some mime
  pub magic : same_type (sniff_mime_type_from_magic u.header) mime ≡ true
  pub declared :
      (same_type u.content_type mime || same_type u.content_type (codes "application/octet-stream"))
      ≡ true
  pub sized : get_upload_size_bytes u ≡ some size
  pub within : size ≤ max_filesize_mb * 1024 * 1024

-- What an acceptance tells; a refusal tells nothing.
abbrev Tells : (Text → Text → ℕ → Type 0) → Validated → Type 0
Tells P (refused code) = Unit
Tells P (accepted name mime size) = P name mime size

Tells-if :
    (P : Text → Text → ℕ → Type 0) (b : Bool) (v : Validated) (code : ℕ)
    → (b ≡ false → Tells P v)
    → Tells P (if b then refused code else v)
Tells-if P true v code h = tt
Tells-if P false v code h = h refl

not-false : (b : Bool) → not b ≡ false → b ≡ true
not-false b h = ground arith

module _ (c : Unicode) (u : UploadFile) (mb : ℕ) where
  size-Tells :
      (name mime : Text) (o : Option ℕ)
      → get_upload_size_bytes u ≡ o
      → IsSafeName 255 name
      → expected_mime_type (lower (splitext name).1) ≡ some mime
      → same_type (sniff_mime_type_from_magic u.header) mime ≡ true
      → (same_type u.content_type mime
          || same_type u.content_type (codes "application/octet-stream"))
        ≡ true
      → Tells (IsAcceptable u mb) (check_size name mime (mb * 1024 * 1024) o)
  size-Tells name mime none sized safe ext magic decl = tt
  size-Tells name mime (some n) sized safe ext magic decl =
      Tells-if (IsAcceptable u mb) (ltb (mb * 1024 * 1024) n) (accepted name mime n) 413 λ within.
        record {
          safe = safe;
          extension = ext;
          magic = magic;
          declared = decl;
          sized = sized;
          within = ground arith;
        }

  type-Tells :
      (name : Text) (o : Option Text)
      → expected_mime_type (lower (splitext name).1) ≡ o
      → IsSafeName 255 name
      → Tells (IsAcceptable u mb) (check_type u mb name o)
  unfolding check_type
  type-Tells name none ext safe = tt
  type-Tells name (some mime) ext safe =
      Tells-if (IsAcceptable u mb) (not (same_type (sniff_mime_type_from_magic u.header) mime)) _
        415
        λ sniffed.
          Tells-if (IsAcceptable u mb) _
            (check_size name mime (mb * 1024 * 1024) (get_upload_size_bytes u)) 415
            λ typed.
              size-Tells name mime (get_upload_size_bytes u) refl safe ext
                (not-false (same_type (sniff_mime_type_from_magic u.header) mime) sniffed)
                (not-false
                  (same_type u.content_type mime
                    || same_type u.content_type (codes "application/octet-stream"))
                  typed)

  name-Tells :
      (o : Outcome Text)
      → sanitize_filename c u.filename 255 1024 ≡ o
      → Tells (IsAcceptable u mb) (check_name u mb o)
  name-Tells (raised e) h = tt
  name-Tells (returned name) h =
      type-Tells name (expected_mime_type (lower (splitext name).1)) refl
        (sanitize_filename-IsSafeName c u.filename 255 1024 name (omega arith) h)

  told :
      (v : Validated) (name mime : Text) (size : ℕ)
      → Tells (IsAcceptable u mb) v
      → v ≡ accepted name mime size
      → IsAcceptable u mb name mime size
  told v name mime size h e = (rw e at h)

  -- What is accepted has a safe name, the first bytes of the type that is expected for the name's
  -- extension, this type or that of a stream of bytes as the declared one, and a size that is known
  -- and within the limit.
  pub validate_upload-IsAcceptable :
      (name mime : Text) (size : ℕ)
      → validate_upload_for_processing c u mb ≡ accepted name mime size
      → IsAcceptable u mb name mime size
  unfolding validate_upload_for_processing
  validate_upload-IsAcceptable name mime size =
      told (validate_upload_for_processing c u mb) name mime size (
        Tells-if (IsAcceptable u mb) (is_missing u.filename)
          (check_name u mb (sanitize_filename c u.filename 255 1024)) 400
          λ present. name-Tells (sanitize_filename c u.filename 255 1024) refl)
