-- ===== src/Landscape/Executor/Reports.antt =====
-- What the steps of windows-agent/internal/proservices/landscape/executor.go report to the server.
use ubuntu_pro_for_wsl.Prelude.{
  ◌≡◌, refl, ap, sym, ◌∙◌, inl, inr, Bool, true, false, List, [], ◌∷◌, ◌++◌, append-nil, Option,
  none, some, Result, ok, is_empty, if◌then◌else◌, ◌>>>◌, fails, Ensures, bind-Ensures, Bool-cases,
}
use ubuntu_pro_for_wsl.Landscape.Executor.Host.{
  Run, Host, Call, sends, downloads, imports, installs, launches, unregisters, sets_default,
  shuts_down, CommandError, Context, call, Status, in_progress, send_progress_status_msg,
}
use ubuntu_pro_for_wsl.Landscape.Executor.Frame.{IsSilent, Frames, View}

-- The messages among the calls.
abbrev pub statuses : List Call → List Status
statuses [] = []
statuses (sends status ∷ cs) = status ∷ statuses cs
statuses (_ ∷ cs) = statuses cs

pub statuses-append : (cs ds : List Call) → statuses (cs ++ ds) ≡ statuses cs ++ statuses ds
statuses-append [] ds = refl
statuses-append (sends status ∷ cs) ds = ap (λ x. status ∷ x) (statuses-append cs ds)
statuses-append (downloads _ ∷ cs) ds = statuses-append cs ds
statuses-append (imports _ ∷ cs) ds = statuses-append cs ds
statuses-append (installs _ ∷ cs) ds = statuses-append cs ds
statuses-append (launches _ ∷ cs) ds = statuses-append cs ds
statuses-append (unregisters _ ∷ cs) ds = statuses-append cs ds
statuses-append (sets_default _ ∷ cs) ds = statuses-append cs ds
statuses-append (shuts_down ∷ cs) ds = statuses-append cs ds

silent : (c : Call) → IsSilent c → statuses (c ∷ []) ≡ []
silent (sends status) s = absurd s
silent (downloads _) s = refl
silent (imports _) s = refl
silent (installs _) s = refl
silent (launches _) s = refl
silent (unregisters _) s = refl
silent (sets_default _) s = refl
silent shuts_down s = refl

pub statuses-silent :
    (c : Call) (cs : List Call) → IsSilent c → statuses (cs ++ c ∷ []) ≡ statuses cs
statuses-silent c cs s =
    statuses-append cs (c ∷ []) ∙ ap (λ x. statuses cs ++ x) (silent c s) ∙ append-nil (statuses cs)

-- The message that a command is in progress, in a context with a request.
abbrev pub progress : Context → List Status
progress none = []
progress (some id) =
    if is_empty id
    then []
    else record { command_state = in_progress; request_id = id; error = "" } ∷ []

module _ {ConfBytes Bytes DbBytes : Type 0} where
  abbrev pub sent : View ConfBytes Bytes DbBytes (List Status)
  sent = record {
    see = λ h. statuses h.calls;
    on_call = λ c h s. statuses-silent c h.calls s;
    on_database = λ db h. refl;
  }

module _ {ConfBytes Bytes DbBytes E : Type 0} where
  -- The step sent the message of progress, or nothing; if it returns no error, it sent it just if it
  -- is to.
  abbrev pub Sent :
      Bool
      → Context
      → Host ConfBytes Bytes DbBytes
      → Host ConfBytes Bytes DbBytes
      → Result (CommandError E) (Unit {0})
      → Type 0
  Sent want ctx h h' r =
      (b : Bool) × (statuses h'.calls ≡ statuses h.calls ++ (if b then progress ctx else []))
      × (r ≡ ok tt → b ≡ want)

  abbrev pub Reports : Bool → Context → Run ConfBytes Bytes DbBytes E → Type 0
  Reports want ctx m = (h : Host ConfBytes Bytes DbBytes) → Ensures (Sent want ctx h) (m h)

  silent-Sent :
      (ctx : Context) (h h' : Host ConfBytes Bytes DbBytes)
      → statuses h'.calls ≡ statuses h.calls
      → (r : Result (CommandError E) (Unit {0})) → Sent false ctx h h' r
  silent-Sent ctx h h' q r = (false, q ∙ sym (append-nil (statuses h.calls)), λ _. refl)

  pub silent-Reports :
      (ctx : Context) (m : Run ConfBytes Bytes DbBytes E)
      → Frames (λ h. statuses h.calls) m
      → Reports false ctx m
  silent-Reports ctx m fm h = step (m h) (fm h)
    where
      step :
          (o : Option (Host ConfBytes Bytes DbBytes × Result (CommandError E) (Unit {0})))
          → Ensures (λ h' r. statuses h'.calls ≡ statuses h.calls) o
          → Ensures (Sent false ctx h) o
      step none p = tt
      step (some (h', r)) p = silent-Sent ctx h h' p r

  pub fails-Reports :
      (want : Bool) (ctx : Context) (e : CommandError E) → Reports want ctx (fails e)
  fails-Reports want ctx e h = (false, sym (append-nil (statuses h.calls)), λ q. absurd (cc q))

  -- A silent step before one that reports.
  pub before-Reports :
      (want : Bool) (ctx : Context) (m f : Run ConfBytes Bytes DbBytes E)
      → Frames (λ h. statuses h.calls) m
      → Reports want ctx f
      → Reports want ctx (m >>> λ _. f)
  before-Reports want ctx m f fm rf h =
      bind-Ensures (λ h' r. statuses h'.calls ≡ statuses h.calls) (Sent want ctx h) m (λ _. f) h
        (fm h) (λ h' e q. (false, q ∙ sym (append-nil (statuses h.calls)), λ p. absurd (cc p)))
        (λ h' _ q. widen h' q (f h') (rf h'))
    where
      widen :
          (h' : Host ConfBytes Bytes DbBytes)
          → statuses h'.calls ≡ statuses h.calls
          → (o : Option (Host ConfBytes Bytes DbBytes × Result (CommandError E) (Unit {0})))
          → Ensures (Sent want ctx h') o
          → Ensures (Sent want ctx h) o
      widen h' q none p = tt
      widen h' q (some (h'', r)) (b, e, w) =
          (b, e ∙ ap (λ x. x ++ (if b then progress ctx else [])) q, w)

  -- A silent step after one that reports.
  pub after-Reports :
      (want : Bool) (ctx : Context) (m f : Run ConfBytes Bytes DbBytes E)
      → Reports want ctx m
      → Frames (λ h. statuses h.calls) f
      → Reports want ctx (m >>> λ _. f)
  after-Reports want ctx m f rm ff h =
      bind-Ensures (Sent want ctx h) (Sent want ctx h) m (λ _. f) h (rm h)
        (λ h' e q. (q.0, q.1, λ p. absurd (cc p))) (λ h' a q. widen h' a q (f h') (ff h'))
    where
      widen :
          (h' : Host ConfBytes Bytes DbBytes) (a : Unit {0})
          → Sent want ctx h h' (ok a)
          → (o : Option (Host ConfBytes Bytes DbBytes × Result (CommandError E) (Unit {0})))
          → Ensures (λ h'' r. statuses h''.calls ≡ statuses h'.calls) o
          → Ensures (Sent want ctx h) o
      widen h' a q none p = tt
      widen h' a (b, e, w) (some (h'', r)) p = (b, p ∙ e, λ _. w refl)

module _ {ConfBytes Bytes DbBytes : Type 0} (E : Type 0) where
  pub send-Reports :
      (ctx : Context)
      → Reports {ConfBytes = ConfBytes} {Bytes = Bytes} {DbBytes = DbBytes} {E = E} true ctx
          (send_progress_status_msg ctx in_progress)
  unfolding send_progress_status_msg call
  send-Reports none h = (true, sym (append-nil (statuses h.calls)), λ _. refl)
  send-Reports (some id) h = elim (Bool-cases (is_empty id)) [
    | inl z ↦
        rw (z, send_progress_status_msg)
          (true, rw z (sym (append-nil (statuses h.calls))), λ _. refl)
    | inr z ↦
        rw (z, send_progress_status_msg)
          (
            true,
            rw z (
                statuses-append h.calls (
                  sends (record { command_state = in_progress; request_id = id; error = "" })
                  ∷ [])),
            λ _. refl,
          )
  ]
