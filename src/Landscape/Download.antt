-- ===== src/Landscape/Download.antt =====
-- download, wantRootfsChecksum and checksumMatches of
-- windows-agent/internal/proservices/landscape/executor.go. What the HTTP client answers, the file
-- system and SHA-256 in hexadecimal are arguments; a text is the list of its code points.
pub mod Sums
use ubuntu_pro_for_wsl.Prelude.{
  ℕ, Bool, true, false, List, [], ◌∷◌, Option, none, some, Result, ok, err, ◌>>=◌, if◌then◌else◌,
  ◌==◌, leb, ◌&&◌, ◌||◌, not, fields, same_codes, is_nil,
}

-- The answer to http.Get of the checksums file: its status, its lines, and the error that ends them.
pub record SumsResponse (E : Type 0) : Type 0 where
  pub status_code : ℕ
  pub lines : List (List ℕ)
  pub scan_error : Option E

-- The answer to http.Get of the image: its status, its body, and the error that cuts it short.
pub record ImageResponse (E : Type 0) : Type 0 where
  pub status_code : ℕ
  pub body : List ℕ
  pub copy_error : Option E

pub data DownloadError (E : Type 0) : Type 0 where
  no_answer : E → DownloadError E
  not_scanned : E → DownloadError E
  no_checksum : DownloadError E
  bad_status : ℕ → DownloadError E
  not_created : E → DownloadError E
  not_copied : E → DownloadError E
  mismatch : DownloadError E

-- strings.TrimPrefix(name, "*")
unfoldable pub trim_star : List ℕ → List ℕ
trim_star [] = []
trim_star (c ∷ s) = if c == b'*' then s else c ∷ s

-- What a line says of the image: its checksum, if it has two fields and the second is its name.
unfoldable pub checksum_in : List ℕ → List (List ℕ) → Option (List ℕ)
unfolding trim_star
checksum_in image (sum ∷ name ∷ []) =
    if same_codes (trim_star name) image && not (is_nil sum) then some sum else none
checksum_in image [] = none
checksum_in image (sum ∷ []) = none
checksum_in image (sum ∷ name ∷ f ∷ fs) = none

-- The loop over the scanner.
unfoldable pub find_checksum : List ℕ → List (List ℕ) → Option (List ℕ)
find_checksum image [] = none
find_checksum image (line ∷ lines) =
    let rest = find_checksum image lines in
    elim (checksum_in image (fields line)) [ some sum ↦ some sum | none ↦ rest ]

module _ {E : Type 0} where
  unfoldable pub search_sums : List ℕ → SumsResponse E → Result (DownloadError E) (List ℕ)
  search_sums image resp = elim (find_checksum image resp.lines) [
    | some sum ↦ ok sum
    | none ↦ elim resp.scan_error [ some e ↦ err (not_scanned e) | none ↦ err no_checksum ]
  ]

  -- wantRootfsChecksum: the empty text if there is no checksums file.
  unfoldable pub want_rootfs_checksum :
      List ℕ → Result E (SumsResponse E) → Result (DownloadError E) (List ℕ)
  want_rootfs_checksum image (err e) = err (no_answer e)
  want_rootfs_checksum image (ok resp) =
      if resp.status_code == 404 then ok [] else search_sums image resp

  -- The end of download: the body is written to the file as it is read. The file after it, and its
  -- result.
  unfoldable pub verify :
      (List ℕ → List ℕ)
      → List ℕ
      → ImageResponse E
      → Option (List ℕ) × Result (DownloadError E) (Unit {0})
  verify sha256 checksum resp = elim resp.copy_error [
    | some e ↦ (some resp.body, err (not_copied e))
    | none ↦
        if is_nil checksum || same_codes checksum (sha256 resp.body)
        then (some resp.body, ok tt)
        else (some resp.body, err mismatch)
  ]

  fetch_image :
      (List ℕ → List ℕ)
      → Result E (ImageResponse E)
      → Option E
      → List ℕ
      → Option (List ℕ) × Result (DownloadError E) (Unit {0})
  fetch_image sha256 (err e) create checksum = (none, err (no_answer e))
  fetch_image sha256 (ok resp) create checksum =
      if leb 400 resp.status_code
      then (none, err (bad_status resp.status_code))
      else elim create [ some e ↦ (none, err (not_created e)) | none ↦ verify sha256 checksum resp ]

  -- download, of an image with the given file name.
  unfoldable pub download :
      (List ℕ → List ℕ)
      → List ℕ
      → Result E (SumsResponse E)
      → Result E (ImageResponse E)
      → Option E
      → Option (List ℕ) × Result (DownloadError E) (Unit {0})
  unfolding fetch_image
  download sha256 image sums answer create = elim (want_rootfs_checksum image sums) [
    | err e ↦ (none, err e)
    | ok checksum ↦ fetch_image sha256 answer create checksum
  ]
