-- ===== src/Landscape/Executor/Protocol.antt =====
-- What exec of windows-agent/internal/proservices/landscape/executor.go tells the server.
use ubuntu_pro_for_wsl.Prelude.{
  ℕ, ◌≡◌, refl, ap, ◌∙◌, inl, inr, Bool, true, false, List, [], ◌∷◌, ◌++◌, append_assoc, Option,
  none, some, Result, ok, String, is_empty, if◌then◌else◌, Ensures, Bool-cases,
}
use ubuntu_pro_for_wsl.Task.{Task}
use ubuntu_pro_for_wsl.TaskManager.{Codec}
use ubuntu_pro_for_wsl.ClientConfig.{Ini}
use ubuntu_pro_for_wsl.Config.{ConfigCodec}
use ubuntu_pro_for_wsl.Database.{DbCodec}
use ubuntu_pro_for_wsl.Landscape.Executor.Host.{
  Host, sends, CommandError, call, Status, CommandState, queued, in_progress, completed,
  send_progress_status_msg,
}
use ubuntu_pro_for_wsl.Landscape.Executor.Commands.{
  Request, CommandAnswers, text_of, report, perform, context_of, acknowledged, exec,
}
use ubuntu_pro_for_wsl.Landscape.Executor.Reports.{statuses, statuses-append, progress, Sent}
use ubuntu_pro_for_wsl.Landscape.Executor.CommandReports.{announces, perform-Reports}

abbrev pub status_of : Request → CommandState → String → Status
status_of request state text = record {
  command_state = state;
  request_id = request.request_id;
  error = text;
}

-- The messages about a request: none without an ID, or else that it is queued, perhaps that it is in
-- progress, and that it is completed.
abbrev pub conversation :
    {E : Type 0}
    → (CommandError E → String)
    → Request
    → Bool
    → Result (CommandError E) (Unit {0})
    → List Status
conversation show request b r =
    if is_empty request.request_id
    then []
    else status_of request queued "" ∷ (if b then status_of request in_progress "" ∷ [] else [])
      ++ status_of request completed (text_of show r) ∷ []

same : (b : Bool) → ◌≡◌ {A = List Status} (if b then [] else []) []
same true = refl
same false = refl

progress_of :
    (request : Request)
    → is_empty request.request_id ≡ false
    → progress (some request.request_id) ≡ status_of request in_progress "" ∷ []
progress_of request z = rw z refl

joined :
    (s s0 s' p : List Status) (q : Status)
    → s' ≡ s0 ++ p
    → s0 ≡ s ++ q ∷ []
    → (c : Status) → s' ++ c ∷ [] ≡ s ++ (q ∷ p ++ c ∷ [])
joined s s0 s' p q e e0 c =
    ap (λ x. x ++ c ∷ []) (e ∙ ap (λ x. x ++ p) e0)
    ∙ append_assoc (s ++ q ∷ []) p (c ∷ [])
    ∙ append_assoc s (q ∷ []) (p ++ c ∷ [])

module _ {ConfBytes Bytes DbBytes : Type 0} where
  queued_host : Request → Host ConfBytes Bytes DbBytes → Host ConfBytes Bytes DbBytes
  queued_host request h = record h { calls = h.calls ++ sends (status_of request queued "") ∷ [] }

module _ {ConfBytes Bytes DbBytes E : Type 0} where
  -- If the command panics, so does exec; if it returns, exec has sent the conversation, in which a
  -- command that succeeds is announced as it is to.
  abbrev pub Converses :
      (CommandError E → String)
      → Request
      → Host ConfBytes Bytes DbBytes
      → Option (Host ConfBytes Bytes DbBytes × Result (CommandError E) (Unit {0}))
      → Option (Host ConfBytes Bytes DbBytes)
      → Type 0
  Converses show request h none o = o ≡ none
  Converses show request h (some (h', r)) o =
      (h'' : Host ConfBytes Bytes DbBytes) × (o ≡ some h'')
      × (b : Bool) × (statuses h''.calls ≡ statuses h.calls ++ conversation show request b r)
      × (r ≡ ok tt → b ≡ announces request.command)

  without_request :
      (show : CommandError E → String) (request : Request) (h : Host ConfBytes Bytes DbBytes)
      → is_empty request.request_id ≡ true
      → (o : Option (Host ConfBytes Bytes DbBytes × Result (CommandError E) (Unit {0})))
      → Ensures (Sent (announces request.command) none h) o
      → Converses show request h o (report show request.request_id o)
  unfolding report
  without_request show request h z none p = refl
  without_request show request h z (some (h', r)) (b, q, w) =
      rw (z, report) (h', refl, b, q ∙ ap (λ x. statuses h.calls ++ x) (same b), w)

  with_request :
      (show : CommandError E → String) (request : Request) (h h0 : Host ConfBytes Bytes DbBytes)
      → is_empty request.request_id ≡ false
      → statuses h0.calls ≡ statuses h.calls ++ status_of request queued "" ∷ []
      → (o : Option (Host ConfBytes Bytes DbBytes × Result (CommandError E) (Unit {0})))
      → Ensures (Sent (announces request.command) (some request.request_id) h0) o
      → Converses show request h o (report show request.request_id o)
  unfolding report
  with_request show request h h0 z e none p = refl
  with_request show request h h0 z e (some (h', r)) (b, q, w) =
      rw (z, report)
        (
          record h' {
            calls = h'.calls ++ sends (status_of request completed (text_of show r)) ∷ [];
          },
          refl,
          b,
          statuses-append h'.calls (sends (status_of request completed (text_of show r)) ∷ [])
              ∙ joined (statuses h.calls) (statuses h0.calls) (statuses h'.calls)
                  (if b then status_of request in_progress "" ∷ [] else [])
                  (status_of request queued "")
                  (q ∙ ap (λ x. statuses h0.calls ++ (if b then x else [])) (progress_of request z))
                  e (status_of request completed (text_of show r)),
          w,
        )

module _ {ConfBytes Bytes DbBytes Doc E : Type 0} (conf_codec : ConfigCodec E ConfBytes)
    (ini : Ini E Doc) (db_codec : DbCodec E DbBytes) (codec : Codec E Task Bytes)
    (sha256 : List ℕ → List ℕ) where
  acknowledged_without :
      (request : Request) (a : CommandAnswers E ConfBytes Bytes DbBytes)
      (h : Host ConfBytes Bytes DbBytes)
      → is_empty request.request_id ≡ true
      → acknowledged conf_codec ini db_codec codec sha256 request a h
        ≡ perform conf_codec ini db_codec codec sha256 none request.command a h
  unfolding acknowledged context_of send_progress_status_msg
  acknowledged_without request a h z = rw (z, acknowledged, context_of) refl

  acknowledged_with :
      (request : Request) (a : CommandAnswers E ConfBytes Bytes DbBytes)
      (h : Host ConfBytes Bytes DbBytes)
      → is_empty request.request_id ≡ false
      → acknowledged conf_codec ini db_codec codec sha256 request a h
        ≡ perform conf_codec ini db_codec codec sha256
            (some request.request_id)
            request.command
            a
            (queued_host request h)
  unfolding acknowledged context_of send_progress_status_msg call queued_host
  acknowledged_with request a h z =
      rw (z, acknowledged, context_of) (rw (z, send_progress_status_msg) refl)

  -- A request without an ID is never answered. Of a request with an ID, the server is told that it is
  -- queued, then at most once that it is in progress, and last that it is completed, with the text of the
  -- error just if the command returns one; a command that succeeds was announced as in progress, unless it is AssignHost. If the
  -- command panics, exec does.
  pub exec-Converses :
      (show : CommandError E → String) (request : Request)
      (a : CommandAnswers E ConfBytes Bytes DbBytes) (h : Host ConfBytes Bytes DbBytes)
      → Converses show request h
          (acknowledged conf_codec ini db_codec codec sha256 request a h)
          (exec conf_codec ini db_codec codec sha256 show request a h)
  unfolding exec queued_host
  exec-Converses show request a h = elim (Bool-cases (is_empty request.request_id)) [
    | inl z ↦
        rw (acknowledged_without request a h z, exec)
          (without_request show request h z _
            (perform-Reports conf_codec ini db_codec codec sha256 none request.command a h))
    | inr z ↦
        rw (acknowledged_with request a h z, exec)
          (with_request show request h (queued_host request h) z
            (statuses-append h.calls (sends (status_of request queued "") ∷ [])) _
            (perform-Reports conf_codec ini db_codec codec sha256 (some request.request_id)
              request.command a (queued_host request h)))
  ]
