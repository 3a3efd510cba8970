-- ===== src/WslInstance.antt =====
-- windows-agent/internal/proservices/wslinstance: the clients, each of which gathers the three streams
-- of a distro. Clients and streams are numbered.
pub mod Names
pub mod Examples
use ubuntu_pro_for_wsl.Prelude.{
  ℕ, ◌+◌, Bool, true, false, List, [], ◌∷◌, Option, none, some, Result, ok, err, String, str_eq,
  is_empty, if◌then◌else◌, ◌==◌, any, reject,
}
use ubuntu_pro_for_wsl.Distro.{Properties}

pub data Stream : Type 0 where
  connected pro_attachment landscape_config : Stream

-- A client, which is a pointer: its name and its number.
pub record Client : Type 0 where
  pub name : String
  pub id : ℕ

-- The streams of a client. One that is there has its channel closed.
pub record ClientStreams : Type 0 where
  pub conn_stream : Option ℕ
  pub pro_stream : Option ℕ
  pub lpe_stream : Option ℕ

-- The map of the service, and the clients whose context Close has cancelled.
pub record Clients : Type 0 where
  pub registered : List Client
  pub cancelled : List ℕ
  pub next : ℕ

unfoldable pub new_clients : Clients
new_clients = record { registered = []; cancelled = []; next = 0 }

unfoldable pub find_client : String → List Client → Option Client
find_client name [] = none
find_client name (c ∷ cs) =
    let rest = find_client name cs in if str_eq c.name name then some c else rest

-- The streams of a new client.
unfoldable pub no_streams : ClientStreams
no_streams = record { conn_stream = none; pro_stream = none; lpe_stream = none }

-- Service.client: the client of a name, which is made if there is none.
unfoldable pub client : String → Clients → Clients × Client
unfolding find_client
client name s = elim (find_client name s.registered) [
  | some c ↦ (s, c)
  | none ↦
      let c : Client = record { name = name; id = s.next } in
      (record s { registered = c ∷ s.registered; next = s.next + 1 }, c)
]

-- Close: the context of the client is cancelled, and its name is deleted from the map.
unfoldable pub close : Client → Clients → Clients
close c s = record s {
  registered = reject (λ x. str_eq x.name c.name) s.registered;
  cancelled = c.id ∷ s.cancelled;
}

unfoldable pub stream_of : Stream → ClientStreams → Option ℕ
stream_of connected c = c.conn_stream
stream_of pro_attachment c = c.pro_stream
stream_of landscape_config c = c.lpe_stream

unfoldable pub put_stream : Stream → ℕ → ClientStreams → ClientStreams
put_stream connected stream c = record c { conn_stream = some stream }
put_stream pro_attachment stream c = record c { pro_stream = some stream }
put_stream landscape_config stream c = record c { lpe_stream = some stream }

-- SetConnectedStream, SetProAttachmentStream and SetLandscapeConfigStream: `none` is the error that the
-- stream is already connected.
unfoldable pub set_stream : Stream → ℕ → ClientStreams → Option ClientStreams
unfolding stream_of put_stream
set_stream kind stream c = elim (stream_of kind c) [
  | some _ ↦ none
  | none ↦ some (put_stream kind stream c)
]

-- What ends a wait for a stream that is not there: its arrival, the client, the context, or the timer.
pub data WaitEnd : Type 0 where
  arrives client_closed context_done timed_out : WaitEnd

-- WaitReady: the three waits, in their order, or the one that fails.
unfoldable pub wait_ready : List (Bool × WaitEnd) → Result WaitEnd (Unit {0})
wait_ready [] = ok tt
wait_ready ((true, e) ∷ ws) = wait_ready ws
wait_ready ((false, arrives) ∷ ws) = wait_ready ws
wait_ready ((false, client_closed) ∷ ws) = err client_closed
wait_ready ((false, context_done) ∷ ws) = err context_done
wait_ready ((false, timed_out) ∷ ws) = err timed_out

-- agentapi.MSG, which has a result or a name, or nothing.
pub data Msg : Type 0 where
  result wsl_name : String → Msg
  no_data : Msg

pub data SendError : Type 0 where
  closed no_stream could_not_send could_not_receive empty_message no_result : SendError
  from_distro : String → SendError

-- msgToError: whether the message could be read, and its error.
unfoldable pub msg_to_error : Option Msg → Bool × Option SendError
msg_to_error none = (false, some empty_message)
msg_to_error (some (result text)) = (true, if is_empty text then none else some (from_distro text))
msg_to_error (some _) = (false, some no_result)

-- SendProAttachment and SendLandscapeConfig: what the client's context, the stream, Send and Recv
-- answer. The first result is whether Close is called.
pub record SendAnswers : Type 0 where
  pub is_closed : Bool
  pub has_stream : Bool
  pub sends : Bool
  pub received : Option (Option Msg)

unfoldable pub send_command : SendAnswers → Bool × Option SendError
unfolding msg_to_error
send_command a =
    if a.is_closed
    then (false, some closed)
    else (if a.has_stream
        then (if a.sends
            then elim a.received [
              | none ↦ (true, some could_not_receive)
              | some msg ↦ (false, (msg_to_error msg).1)
            ]
            else (true, some could_not_send))
        else (false, some no_stream))

-- DistroInfo
pub record DistroInfo : Type 0 where
  pub wsl_name : String
  pub properties : Properties

unfoldable pub props_from_info : DistroInfo → Option Properties
props_from_info info = if is_empty info.wsl_name then none else some info.properties

-- The handshakes: what is received within 20 seconds, and the client of the name.
unfoldable pub main_handshake : Option DistroInfo → Clients → Clients × Option (Client × DistroInfo)
main_handshake none s = (s, none)
main_handshake (some info) s =
    let (s', c) = client info.wsl_name s in
    if is_empty info.wsl_name then (s, none) else (s', some (c, info))

unfoldable pub name_of : Msg → String
name_of (wsl_name name) = name
name_of _ = ""

unfoldable pub command_handshake : Option Msg → Clients → Clients × Option Client
unfolding name_of
command_handshake none s = (s, none)
command_handshake (some msg) s =
    let (s', c) = client (name_of msg) s in
    if is_empty (name_of msg) then (s, none) else (s', some c)
