-- ===== src/ProService/Streams.antt =====
-- wsl-pro-service/internal/streams: server.go and multiclient.go, with ApplyProToken of
-- wsl-pro-service/internal/commandservice/commandservice.go. What gRPC and the system answer is an argument.
pub mod Conversation
pub mod Handlers
use ubuntu_pro_for_wsl.Prelude.{
  ℕ, Bool, true, false, List, [], ◌∷◌, ◌++◌, Option, none, some, Result, ok, err, String, is_empty,
  if◌then◌else◌,
}

-- connect: the errors of the three streams.
pub record ConnectAnswers (E : Type 0) : Type 0 where
  pub main_error : Option E
  pub pro_error : Option E
  pub landscape_error : Option E

-- The streams that stay open, and the error.
unfoldable pub connect_streams : {E : Type 0} → ConnectAnswers E → ℕ × Option E
connect_streams a = elim a.main_error [
  | some e ↦ (0, some e)
  | none ↦ elim a.pro_error [
    | some e ↦ (0, some e)
    | none ↦ elim a.landscape_error [ some e ↦ (0, some e) | none ↦ (3, none) ]
  ]
]

-- What receiveWithContext returns: a command, the end without an error, or an error.
pub data Reception (Command E : Type 0) : Type 0 where
  receives : Command → Reception Command E
  ends : Reception Command E
  breaks : E → Reception Command E

-- receiveWithContext: the context may be done before Recv is called, with the error of the context, or
-- while it waits; io.EOF is the end of the stream.
pub data Recv (Command E : Type 0) : Type 0 where
  done_before : E → Recv Command E
  done_waiting end_of_stream : Recv Command E
  returns : Result E Command → Recv Command E

unfoldable pub receive_with_context : {Command E : Type 0} → Recv Command E → Reception Command E
receive_with_context (done_before e) = breaks e
receive_with_context done_waiting = ends
receive_with_context end_of_stream = ends
receive_with_context (returns (err e)) = breaks e
receive_with_context (returns (ok command)) = receives command

-- A round of a handler: whether it is to stop, what is received, the error of sending the result,
-- and of gathering or sending the info, which is only logged.
pub record HandlerRound (Command E : Type 0) : Type 0 where
  pub stops : Bool
  pub recv : Recv Command E
  pub send_error : Option E

pub data HandlerEnd (E : Type 0) : Type 0 where
  handles_on ends_well : HandlerEnd E
  could_not_receive could_not_send : E → HandlerEnd E

-- What a handler does: it calls the callback, sends its result, or sends the info.
pub data HandlerEvent (Command : Type 0) : Type 0 where
  calls_back : Command → HandlerEvent Command
  sends_result : String → HandlerEvent Command
  sends_info : HandlerEvent Command

-- The message of SendResult.
unfoldable pub result_text : Option String → String
result_text none = ""
result_text (some text) = text

-- run of handlingLoop; `callback` is the error of the callback, as a text.
unfoldable pub run_handler :
    {Command E : Type 0}
    → (Command → Option String)
    → List (HandlerRound Command E)
    → List (HandlerEvent Command) × HandlerEnd E
unfolding receive_with_context result_text
run_handler callback [] = ([], handles_on)
run_handler callback (round ∷ rounds) =
    let (events, end) = run_handler callback rounds in
    if round.stops then ([], ends_well) else elim (receive_with_context round.recv) [
      | breaks e ↦ ([], could_not_receive e)
      | ends ↦ ([], ends_well)
      | receives command ↦
          let result = sends_result (result_text (callback command)) in
          elim round.send_error [
            | some e ↦ (calls_back command ∷ [], could_not_send e)
            | none ↦ (calls_back command ∷ result ∷ sends_info ∷ events, end)
          ]
    ]

-- What Serve meets after connect: the info of the system, its first message, and those of the streams.
pub record Preface (E : Type 0) : Type 0 where
  pub info_error : Option E
  pub send_error : Option E
  pub pro_error : Option E
  pub landscape_error : Option E

pub data ServeError (E : Type 0) : Type 0 where
  could_not_connect from_system could_not_send_first : E → ServeError E
  from_handlers : List E → ServeError E

-- The end of a handler, for the channel.
unfoldable pub end_error : {E : Type 0} → HandlerEnd E → List E
end_error (could_not_receive e) = e ∷ []
end_error (could_not_send e) = e ∷ []
end_error _ = []

-- The first error of the preface.
unfoldable pub preface_error : {E : Type 0} → Preface E → Option (ServeError E)
preface_error p = elim p.info_error [
  | some e ↦ some (from_system e)
  | none ↦ elim p.send_error [
    | some e ↦ some (could_not_send_first e)
    | none ↦ elim p.pro_error [
      | some e ↦ some (could_not_send_first e)
      | none ↦ elim p.landscape_error [ some e ↦ some (could_not_send_first e) | none ↦ none ]
    ]
  ]
]

unfoldable pub joined : {E : Type 0} → List E → Result (ServeError E) (Unit {0})
joined [] = ok tt
joined (e ∷ es) = err (from_handlers (e ∷ es))

-- Serve, with how its two handlers end: how many of their goroutines are left, which block on a channel
-- that nobody reads, and the result.
unfoldable pub serve_streams :
    {E : Type 0}
    → Option E
    → Preface E
    → HandlerEnd E
    → HandlerEnd E
    → ℕ × Result (ServeError E) (Unit {0})
unfolding end_error preface_error joined
serve_streams connect_error p pro landscape = elim connect_error [
  | some e ↦ (0, err (could_not_connect e))
  | none ↦ elim (preface_error p) [
    | some e ↦ (2, err e)
    | none ↦ (0, joined (end_error pro ++ end_error landscape))
  ]
]

-- The calls of `pro`.
pub data ProCall : Type 0 where
  detaches : ProCall
  attaches : String → ProCall

-- ApplyProToken, with the errors of ProDetach and ProAttach.
unfoldable pub apply_pro_token :
    {E : Type 0} → Option E → Option E → String → List ProCall × Option E
apply_pro_token detach_error attach_error token = elim detach_error [
  | some e ↦ (detaches ∷ [], some e)
  | none ↦
      if is_empty token
      then (detaches ∷ [], none)
      else (detaches ∷ attaches token ∷ [], attach_error)
]
