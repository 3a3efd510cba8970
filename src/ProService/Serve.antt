-- ===== src/ProService/Serve.antt =====
-- wsl-pro-service/internal/daemon/daemon.go: the loop that connects to the Windows agent. What a round of
-- the loop is answered is an argument: by the file system, the network and systemd. Waits are in
-- seconds.
pub mod Backoff
use ubuntu_pro_for_wsl.Prelude.{
  ℕ, zero, suc, ◌+◌, ◌*◌, Bool, true, false, List, [], ◌∷◌, ◌++◌, Option, none, some, Result, ok,
  err, ◌>>=◌, if◌then◌else◌, ltb, min,
}
use ubuntu_pro_for_wsl.ContractClient.{ℤ, pos, negsuc}
use ubuntu_pro_for_wsl.ProService.Networking.{NetworkError, Routes, windows_host_address}

-- `system_error` is a streams.SystemError, after which the daemon does not connect again.
pub data DaemonError (E : Type 0) : Type 0 where
  system_error : NetworkError E → DaemonError E
  stream_error : E → DaemonError E
  other : E → DaemonError E
  zero_port negative_port already_quit : DaemonError E

-- errors.Is(err, streams.SystemError{})
unfoldable pub is_system_error : {E : Type 0} → DaemonError E → Bool
is_system_error (system_error e) = true
is_system_error (stream_error e) = true
is_system_error _ = false

-- How the server ends: with a SystemError, or with another error or none, and whether the timer of one
-- minute has gone off by then.
pub data Ending (E : Type 0) : Type 0 where
  fails_with : E → Ending E
  disconnects : Bool → Ending E

-- What one attempt is answered. The port is that of net.SplitHostPort and strconv.Atoi on the contents of
-- the file that the agent has written.
pub record Attempt (E : Type 0) : Type 0 where
  pub address_file : Result E (List ℕ)
  pub split_host_port : Result E (List ℕ)
  pub atoi : Result E ℤ
  pub mode : Result E (List ℕ)
  pub routes : Result E (Routes E)
  pub tls_config : Option E
  pub client : Option E
  pub served : Ending E

unfoldable pub min_wait : ℕ
min_wait = 1

unfoldable pub max_wait : ℕ
max_wait = 60

unfoldable pub growth_factor : ℕ
growth_factor = 2

unfoldable pub max : ℕ → ℕ → ℕ
max a b = if ltb a b then b else a

unfoldable pub clamp : ℕ → ℕ → ℕ → ℕ
unfolding max
clamp minimum value maximum = max minimum (min value maximum)

unfoldable pub next_wait : ℕ → Bool → ℕ
unfolding clamp min_wait max_wait growth_factor
next_wait wait true = 0
next_wait wait false = clamp min_wait (wait * growth_factor) max_wait

module _ {E : Type 0} where
  unfoldable pub wrapped : {A : Type 0} → Result E A → Result (DaemonError E) A
  wrapped (ok a) = ok a
  wrapped (err e) = err (other e)

  check_port : ℤ → Result (DaemonError E) ℕ
  check_port (pos zero) = err zero_port
  check_port (pos (suc n)) = ok (suc n)
  check_port (negsuc n) = err negative_port

  unfoldable pub split_port : Result E (List ℕ) → Result E ℤ → Result (DaemonError E) ℕ
  unfolding check_port
  split_port split atoi = wrapped split >>= λ _. wrapped atoi >>= check_port

  host : Result (NetworkError E) (List ℕ) → Result (DaemonError E) (List ℕ)
  host (ok ip) = ok ip
  host (err e) = err (system_error e)

  -- address: the address of the host, and the port.
  unfoldable pub address : Attempt E → Result (DaemonError E) (List ℕ × ℕ)
  unfolding host
  address a = wrapped a.address_file >>= λ _. split_port a.split_host_port a.atoi >>= λ port.
      host (windows_host_address a.mode a.routes) >>= λ ip. ok (ip, port)

  unfoldable pub no_error : Option E → Result (DaemonError E) (Unit {0})
  no_error none = ok tt
  no_error (some e) = err (other e)

  -- connect
  unfoldable pub connect : Attempt E → Result (DaemonError E) (List ℕ × ℕ)
  connect a =
      address a >>= λ addr. no_error a.tls_config >>= λ _. no_error a.client >>= λ _. ok addr

  -- The result of an attempt: whether it is a success, or an error that ends the loop.
  unfoldable pub after_serve : Ending E → Result (DaemonError E) Bool
  after_serve (fails_with e) = err (stream_error e)
  after_serve (disconnects long_lived) = ok long_lived

  unfoldable pub attempt : Attempt E → Result (DaemonError E) Bool
  unfolding after_serve
  attempt a = elim (connect a) [
    | err e ↦ if is_system_error e then err e else ok false
    | ok _ ↦ after_serve a.served
  ]

-- A round of the loop: Quit, or an attempt once the wait is over.
pub data Round (E : Type 0) : Type 0 where
  quits : Round E
  tries : Attempt E → Round E

-- How long the loop has waited before each attempt, and its result; `none` if it goes on.
abbrev pub Served : Type 0 → Type 0
Served E = List ℕ × Option (Result (DaemonError E) (Unit {0}))

module _ {E : Type 0} where
  unfoldable pub serve_rounds : ℕ → List (Round E) → Served E
  unfolding next_wait
  serve_rounds wait [] = ([], none)
  serve_rounds wait (quits ∷ rs) = ([], some (ok tt))
  serve_rounds wait (tries a ∷ rs) = elim (attempt a) [
    | err e ↦ (wait ∷ [], some (err e))
    | ok success ↦ let (waits, r) = serve_rounds (next_wait wait success) rs in (wait ∷ waits, r)
  ]

  -- Serve, of a daemon that has quit already or not, with the answer of systemd.
  unfoldable pub serve : Bool → Option E → List (Round E) → Served E
  serve true ready rs = ([], some (err already_quit))
  serve false (some e) rs = ([], some (err (other e)))
  serve false none rs = serve_rounds 0 rs
