-- ===== src/ProService/Streams/Conversation.antt =====
-- How the handlers of wsl-pro-service/internal/streams/server.go answer.
use ubuntu_pro_for_wsl.Prelude.{◌≡◌, List, [], ◌∷◌, ◌++◌, Option, none, some, String, if◌then◌else◌}
use ubuntu_pro_for_wsl.ProService.Streams.{
  receives, ends, breaks, receive_with_context, HandlerRound, HandlerEnd, could_not_send,
  HandlerEvent, calls_back, sends_result, sends_info, result_text,
}

module _ {Command : Type 0} (callback : Command → Option String) where
  -- The conversation about the commands that are answered.
  abbrev pub conversation : List Command → List (HandlerEvent Command)
  conversation [] = []
  conversation (c ∷ cs) =
      calls_back c ∷ sends_result (result_text (callback c)) ∷ sends_info ∷ conversation cs

module _ {Command E : Type 0} (callback : Command → Option String) where
  -- The commands that arrive before the handler stops, the last of them that whose result cannot be sent.
  abbrev pub taken : List (HandlerRound Command E) → List Command
  taken [] = []
  taken (round ∷ rounds) = if round.stops then [] else elim (receive_with_context round.recv) [
    | breaks e ↦ []
    | ends ↦ []
    | receives command ↦ elim round.send_error [
      | some e ↦ command ∷ []
      | none ↦ command ∷ taken rounds
    ]
  ]

  -- The events: every command that arrives is answered, but for the last, if its result could not be sent.
  abbrev pub IsAnswered : List Command → List (HandlerEvent Command) × HandlerEnd E → Type 0
  IsAnswered commands (events, could_not_send e) =
      (answered : List Command) × (last : Command) × (commands ≡ answered ++ last ∷ [])
      × (events ≡ conversation callback answered ++ calls_back last ∷ [])
  IsAnswered commands (events, _) = events ≡ conversation callback commands
