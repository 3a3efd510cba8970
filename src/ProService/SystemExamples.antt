-- ===== src/ProService/SystemExamples.antt =====
-- The theorems about the system of a distro and its streams at concrete inputs.
use ubuntu_pro_for_wsl.Prelude.{
  ℕ, ◌≡◌, refl, true, false, List, [], ◌∷◌, Option, none, some, Result, ok, String, codes, str_eq,
  str_eq_refl, is_nil, if◌then◌else◌,
}
use ubuntu_pro_for_wsl.ProService.System.{Ran, Named, wsl_distro_name}
use ubuntu_pro_for_wsl.ProService.System.DistroName.{printed, wsl_distro_name-root_path}
use ubuntu_pro_for_wsl.ProService.Landscape.{
  ClientIni, ConfigFiles, EnableAnswers, normalize_landscape_config, normalize_doc, refresh_title,
  override_ssl_certificate, ensure_valid,
}
use ubuntu_pro_for_wsl.ProService.Landscape.Normal.{IsIni, Settles}
use ubuntu_pro_for_wsl.ProService.Landscape.Idempotence.{ensure_valid-normalized}
use ubuntu_pro_for_wsl.ProService.Streams.{HandlerRound, returns}

abbrev ran : Ran String
ran = record { stdout = []; failure = some "no wslpath" }

wsl_distro_name-root_path_example :
    let found : Named String =
      wsl_distro_name []
        (record { stdout = printed (codes "wsl.localhost") (codes "Ubuntu"); failure = none })
        [] in
    (found ≡ (codes "Ubuntu", ok (codes "Ubuntu")))
    × (is_nil (codes "Ubuntu") ≡ false
        → wsl_distro_name [] ran found.0 ≡ (codes "Ubuntu", ok (codes "Ubuntu")))
wsl_distro_name-root_path_example =
    wsl_distro_name-root_path (codes "wsl.localhost") (codes "Ubuntu") [] ran refl refl

abbrev callback : ℕ → Option String
callback n = some "refused"

abbrev rounds : List (HandlerRound ℕ String)
rounds =
    record { stops = false; recv = returns (ok 1); send_error = none }
    ∷ record { stops = false; recv = returns (ok 2); send_error = some "closed" }
    ∷ []

-- A document as a function from its keys.
abbrev Doc : Type 0
Doc = String → Option String

abbrev ini : ClientIni String Doc Doc
ini = record {
  parse = λ d. ok d;
  get_client = λ _. ok tt;
  get_key = λ key d. d key;
  new_key = λ key value d. ok (λ k. if str_eq key k then some value else d k);
  set_value = λ key value d k. if str_eq key k then some value else d k;
  write = λ d. ok d;
}

ini-IsIni : IsIni ini
ini-IsIni = record {
  set_same = λ key value d. rw (str_eq_refl key) refl;
  set_other = λ key other value d h. rw h refl;
  new_same = λ key value d d' h. made key value d d' h;
  set_client = λ key value d. refl;
  new_client = λ key value d d' h. refl;
  reads = λ d s h. cc h;
}
  where
    made :
        (key value : String) (d d' : Doc)
        → ◌≡◌ {A = Result String Doc} (ok (λ k. if str_eq key k then some value else d k)) (ok d')
        → d' key ≡ some value
    made key value d d' h = rw⁻¹ (same key value d d' h) (rw (str_eq_refl key) refl)
      where
        same :
            (key value : String) (d d' : Doc)
            → ◌≡◌ {A = Result String Doc}
                (ok (λ k. if str_eq key k then some value else d k))
                (ok d')
            → (λ k. if str_eq key k then some value else d k) ≡ d'
        same key value d d' h = cc h

abbrev translate : String → Result String String
translate path = ok "/mnt/c/cert.pem"

translate-Settles : Settles translate
translate-Settles path linux h = h

abbrev enable_answers : EnableAnswers String Doc
enable_answers = record {
  name = ok "Ubuntu";
  translate = translate;
  writing = record {
    setup = none;
    write_error = none;
    chown_error = none;
    rename_error = none;
    remove_error = none;
  };
  command_error = none;
}

-- A configuration with a certificate and no title.
abbrev given : Doc
given key = if str_eq "ssl_public_key" key then some "C:/cert.pem" else none

abbrev normalized : Doc
normalized key =
    if str_eq "ssl_public_key" key
    then some "/mnt/c/cert.pem"
    else (if str_eq "computer_title" key then some "Ubuntu" else given key)

given-normalized :
    normalize_landscape_config ini (ok "Ubuntu") translate given ≡ ok (normalized, true)
unfolding normalize_landscape_config normalize_doc refresh_title override_ssl_certificate
given-normalized = refl

ensure_valid-normalized_example :
    let fs : ConfigFiles Doc = record { final = some normalized; tmp = none } in
    ((ensure_valid ini none enable_answers fs).0 ≡ fs)
    × ((ensure_valid ini none enable_answers fs).1 ≡ none)
ensure_valid-normalized_example =
    ensure_valid-normalized ini ini-IsIni enable_answers none "Ubuntu" refl translate-Settles given
      normalized true given-normalized none
