-- ===== src/CloudInit/Atomic.antt =====
-- How windows-agent/internal/cloudinit/cloudinit.go replaces and removes a file.
use ubuntu_pro_for_wsl.Prelude.{
  ℕ, ◌≡◌, refl, ◌∙◌, ap, inl, inr, true, false, List, [], ◌∷◌, ◌++◌, Option, none, some, Result, ok,
  err, arith, if◌then◌else◌, Bool-cases, Option-cases, codes, same_codes, same_codes-≡,
  same_codes_self,
}
use ubuntu_pro_for_wsl.CloudInit.{Directory, put, WriteFaults, tmp, rename_tmp, write_file_in_dir}

longer : (s : List ℕ) (c : ℕ) (t : List ℕ) → same_codes s (s ++ c ∷ t) ≡ false
longer [] c t = refl
longer (a ∷ s) c t = ground (arith, longer s c t)

pub tmp_differs : (path name : List ℕ) → name ≡ path → same_codes name (tmp path) ≡ false
unfolding tmp
tmp_differs path name e = ap (λ n. same_codes n (tmp path)) e ∙ longer path b'.' (codes "tmp")

pub put_self :
    (file : List ℕ) (contents : Option (List ℕ)) (dir : Directory)
    → put file contents dir file ≡ contents
unfolding put
put_self file contents dir = rw (same_codes_self file) refl

pub put_other :
    (file name : List ℕ) (contents : Option (List ℕ)) (dir : Directory)
    → same_codes name file ≡ false
    → put file contents dir name ≡ dir name
unfolding put
put_other file name contents dir h = rw h refl

put_at :
    (file name : List ℕ) (contents : Option (List ℕ)) (dir : Directory)
    → same_codes name file ≡ true
    → put file contents dir name ≡ contents
unfolding put
put_at file name contents dir h = rw h refl

renamed :
    (path contents name : List ℕ) (dir : Directory)
    → let written = put (tmp path) (some contents) dir in
      put (tmp path) none (put path (written (tmp path)) written) name ≡ (
        if same_codes name path
        then some contents
        else if same_codes name (tmp path)
        then none
        else dir name)
renamed path contents name dir =
    let written = put (tmp path) (some contents) dir in
    let moved = put path (written (tmp path)) written in
    elim (Bool-cases (same_codes name path)) [
      | inl here ↦ rw here (
          put_other (tmp path) name none moved (tmp_differs path name (same_codes-≡ name path here))
          ∙ put_at path name (written (tmp path)) written here
          ∙ put_self (tmp path) (some contents) dir)
      | inr h ↦ elim (Bool-cases (same_codes name (tmp path))) [
        | inl t ↦ rw h (rw t (put_at (tmp path) name none moved t))
        | inr t ↦ rw h (
            rw t (
              put_other (tmp path) name none moved t
              ∙ put_other path name (written (tmp path)) written h
              ∙ put_other (tmp path) name (some contents) dir t))
      ]
    ]

module _ {E : Type 0} where
  -- The outcome of replacing a file: it has the new contents, the temporary file is gone and all else
  -- is as it was; or, on an error, all but the temporary file is as it was.
  abbrev pub Replaces : List ℕ → List ℕ → Directory → Directory × Result E (Unit {0}) → Type 0
  Replaces path contents dir (dir', ok _) =
      (name : List ℕ)
      → dir' name ≡ (
          if same_codes name path
          then some contents
          else if same_codes name (tmp path)
          then none
          else dir name)
  Replaces path contents dir (dir', err e) =
      (name : List ℕ) → same_codes name (tmp path) ≡ false → dir' name ≡ dir name

  rename_tmp-Replaces :
      (io : WriteFaults E) (path contents : List ℕ) (dir : Directory)
      → Replaces path contents dir (rename_tmp io path (put (tmp path) (some contents) dir))
  unfolding rename_tmp
  rename_tmp-Replaces io path contents dir = elim (Option-cases io.rename_error) [
    | inr (e, r) ↦ elim (Option-cases io.cleanup_error) [
      | inl c ↦
          rw (r, rename_tmp)
            (rw (c, rename_tmp)
              (λ name h.
                put_other (tmp path) name none (put (tmp path) (some contents) dir) h
                ∙ put_other (tmp path) name (some contents) dir h))
      | inr (_, c) ↦
          rw (r, rename_tmp)
            (rw (c, rename_tmp) (λ name h. put_other (tmp path) name (some contents) dir h))
    ]
    | inl r ↦ rw (r, rename_tmp) (λ name. renamed path contents name dir)
  ]

  -- If writing a file in the directory returns no error, the file has the new contents, its temporary
  -- file does not exist and every other file is as it was; if it returns an error, every file but the
  -- temporary one is as it was.
  pub write_file_in_dir-Replaces :
      (io : WriteFaults E) (path contents : List ℕ) (dir : Directory)
      → Replaces path contents dir (write_file_in_dir io path contents dir)
  unfolding write_file_in_dir
  write_file_in_dir-Replaces io path contents dir = elim (Option-cases io.mkdir_error) [
    | inr (e, m) ↦ rw (m, write_file_in_dir) (λ name h. refl)
    | inl m ↦ elim (Option-cases io.write_error) [
      | inr ((e, left), w) ↦
          rw (m, write_file_in_dir)
            (rw (w, write_file_in_dir) (λ name h. put_other (tmp path) name left dir h))
      | inl w ↦
          rw (m, write_file_in_dir)
            (rw (w, write_file_in_dir) (rename_tmp-Replaces io path contents dir))
    ]
  ]
