-- ===== src/Landscape/Download/Sums.antt =====
-- What the checksums file says, and what windows-agent/internal/proservices/landscape/executor.go
-- downloads.
use ubuntu_pro_for_wsl.Prelude.{
  ℕ, ◌≡◌, ◌<◌, refl, ◌⊎◌, inl, inr, true, false, List, [], ◌∷◌, ◌++◌, append_assoc, append-nil, map,
  Option, none, some, Result, ok, err, if◌then◌else◌, not, arith, All, ap, sym, ◌∙◌, Bool-cases,
  and_split, not_is_true, fields, fields_from, flush, same_codes, is_nil, is_space, is_word,
}
use ubuntu_pro_for_wsl.Landscape.Download.{
  SumsResponse, ImageResponse, DownloadError, checksum_in, find_checksum,
}

-- An entry of the file: the checksum, and the name of the image.
abbrev pub line_of : List ℕ × List ℕ → List ℕ
line_of (sum, name) = sum ++ b' ' ∷ b'*' ∷ name

abbrev pub IsEntry : List ℕ × List ℕ → Type 0
IsEntry (sum, name) = (is_nil sum ≡ false) × (is_word sum ≡ true) × (is_word name ≡ true)

-- The checksum of the first entry with the name.
abbrev pub first_sum : List ℕ → List (List ℕ × List ℕ) → Option (List ℕ)
first_sum image [] = none
first_sum image ((sum, name) ∷ es) =
    let rest = first_sum image es in if same_codes name image then some sum else rest

-- A word is taken up as it stands.
fields_from-append :
    (word w s : List ℕ) → is_word w ≡ true → fields_from word (w ++ s) ≡ fields_from (word ++ w) s
unfolding fields_from
fields_from-append word [] s h = ap (λ x. fields_from x s) (sym (append-nil word))
fields_from-append word (c ∷ w) s h =
    let (here, later) = and_split (not (is_space c)) (is_word w) h in
    rw (not_is_true (is_space c) here, fields_from)
      (fields_from-append (word ++ c ∷ []) w s later
        ∙ ap (λ x. fields_from x s) (append_assoc word (c ∷ []) w))

-- The two fields of an entry's line.
fields-line_of :
    (sum name : List ℕ)
    → IsEntry (sum, name)
    → fields (line_of (sum, name)) ≡ sum ∷ (b'*' ∷ name) ∷ []
unfolding fields fields_from is_space
fields-line_of [] name (n, _, _) = absurd (cc n)
fields-line_of (c ∷ sum) name (n, w, v) =
    fields_from-append [] (c ∷ sum) (b' ' ∷ b'*' ∷ name) w
    ∙ ap (λ fs. (c ∷ sum) ∷ fs) (last_field (b'*' ∷ name) (v))
  where
    last_field : (f : List ℕ) → is_word f ≡ true → fields_from [] f ≡ flush f []
    last_field f w = ap (fields_from []) (sym (append-nil f)) ∙ fields_from-append [] f [] w

checksum_in-line_of :
    (image sum name : List ℕ)
    → IsEntry (sum, name)
    → checksum_in image (fields (line_of (sum, name)))
      ≡ (if same_codes name image then some sum else none)
unfolding checksum_in
checksum_in-line_of image sum name h = rw (fields-line_of sum name h) (ground (arith, h.0))

-- A checksums file of entries, each a checksum and a name without white space, gives the checksum of
-- the first entry with the image's name, and none if there is none.
pub find_checksum-first_sum :
    (image : List ℕ) (es : List (List ℕ × List ℕ))
    → All IsEntry es
    → find_checksum image (map line_of es) ≡ first_sum image es
unfolding find_checksum
find_checksum-first_sum image [] h = refl
find_checksum-first_sum image ((sum, name) ∷ es) (h, hs) =
    elim (Bool-cases (same_codes name image)) [
      | inl q ↦ rw (checksum_in-line_of image sum name h, q, find_checksum) refl
      | inr q ↦
          rw (checksum_in-line_of image sum name h, q, find_checksum)
            (find_checksum-first_sum image es hs)
    ]

-- A line about the image: a checksum, which is not empty, and the name of the image, after a star or not.
abbrev pub IsAbout : List ℕ → List ℕ → List ℕ → Type 0
IsAbout image sum line =
    (is_nil sum ≡ false)
    × ((fields line ≡ sum ∷ image ∷ []) ⊎ (fields line ≡ sum ∷ (b'*' ∷ image) ∷ []))

-- One of the lines gives the checksum of the image.
abbrev pub IsVouched : List ℕ → List ℕ → List (List ℕ) → Type 0
IsVouched image sum [] = ⊥
IsVouched image sum (line ∷ lines) = IsAbout image sum line ⊎ IsVouched image sum lines

module _ {E : Type 0} where
  -- The checksums file is missing, or one of its lines has the checksum of the body for the image.
  abbrev pub Vouches : (List ℕ → List ℕ) → List ℕ → List ℕ → SumsResponse E → Type 0
  Vouches sha256 image body res = (res.status_code ≡ 404) ⊎ IsVouched image (sha256 body) res.lines

  -- What download leaves if it returns no error: the whole body, that the checksums vouch for.
  abbrev pub Downloads :
      (List ℕ → List ℕ)
      → List ℕ
      → Result E (SumsResponse E)
      → Result E (ImageResponse E)
      → Option (List ℕ) × Result (DownloadError E) (Unit {0})
      → Type 0
  Downloads sha256 image sums answer (file, err e) = Unit {0}
  Downloads sha256 image sums answer (file, ok _) =
      (res : SumsResponse E) × (resp : ImageResponse E) × (sums ≡ ok res)
      × (answer ≡ ok resp)
      × (file ≡ some resp.body)
      × (resp.status_code < 400)
      × Vouches sha256 image resp.body res

  -- What wantRootfsChecksum says: nothing of a file that is missing, or what the file says.
  Wants : List ℕ → SumsResponse E → List ℕ → Type 0
  Wants image res checksum =
      ((res.status_code ≡ 404) × (checksum ≡ [])) ⊎ (find_checksum image res.lines ≡ some checksum)
