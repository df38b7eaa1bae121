-- ===== src/Upload/Tests.antt =====
-- A file name with a path and a character that is not safe, and the theorem applied to it.
use claimsintelligence.Base.{◌≡◌, refl, some, none, arith, length, select}
use claimsintelligence.Exec.{returned}
use claimsintelligence.Upload.Filename.{
  Text, codes, Unicode, slashes, after_slash, substitute, lstrip, rstrip, split_dot, splitext,
  assemble, sanitize_filename,
}
use claimsintelligence.Upload.Validation.{
  UploadFile, accepted, get_upload_size_bytes, sniff_mime_type_from_magic, expected_mime_type,
  check_type, validate_upload_for_processing,
}
use claimsintelligence.Upload.Acceptance.{IsAcceptable, validate_upload-IsAcceptable}
use claimsintelligence.Upload.Safety.{IsSafeName, sanitize_filename-IsSafeName}

-- For texts of ASCII without white space.
abbrev ascii : Unicode
ascii = record {
  nfkc = λ s. s;
  strip = λ s. s;
  to_utf8 = λ s. some (length s);
  replaced = λ s. (s, length s);
}

abbrev uploaded : Text
uploaded = codes "C:/fakepath/my#claim.pdf"

cleaned : sanitize_filename ascii (some uploaded) 255 1024 ≡ returned (codes "my_claim.pdf")
unfolding sanitize_filename slashes after_slash assemble splitext split_dot substitute lstrip rstrip
    select
cleaned = refl

sanitize_filename-IsSafeName_example : IsSafeName 255 (codes "my_claim.pdf")
sanitize_filename-IsSafeName_example =
    sanitize_filename-IsSafeName ascii (some uploaded) 255 1024 (codes "my_claim.pdf") (omega arith)
      cleaned

abbrev upload : UploadFile
upload = record {
  filename = some uploaded;
  header = codes "%PDF-1.7";
  content_type = some (codes "application/octet-stream");
  size_attribute = none;
  file_end = some 1000;
}

is_accepted :
    validate_upload_for_processing ascii upload 20
    ≡ accepted (codes "my_claim.pdf") (codes "application/pdf") 1000
unfolding validate_upload_for_processing check_type get_upload_size_bytes sniff_mime_type_from_magic
    expected_mime_type sanitize_filename slashes after_slash assemble splitext split_dot substitute
    lstrip rstrip select
is_accepted = refl

validate_upload-IsAcceptable_example :
    IsAcceptable upload 20 (codes "my_claim.pdf") (codes "application/pdf") 1000
validate_upload-IsAcceptable_example =
    validate_upload-IsAcceptable ascii upload 20 (codes "my_claim.pdf") (codes "application/pdf")
      1000 is_accepted
