-- ===== src/Landscape/Retry.antt =====
-- retryConnection of windows-agent/internal/proservices/landscape/utils.go: a channel that is closed
-- once, and replaced. `none` is the panic of closing a channel twice.
pub mod Flag
use ubuntu_pro_for_wsl.Prelude.{
  ℕ, ◌+◌, Bool, true, false, List, [], ◌∷◌, Option, none, some, ◌==◌, any, if◌then◌else◌,
}

-- `ch` is the number of the channel, and `once` whether its sync.Once was used. `closed` are the
-- channels that are closed: whoever awaits one of them goes on.
pub record RetryConnection : Type 0 where
  pub ch : ℕ
  pub once : Bool
  pub closed : List ℕ
  pub next : ℕ

close_channel : ℕ → RetryConnection → Option RetryConnection
close_channel c r =
    if any (λ x. x == c) r.closed then none else some (record r { closed = c ∷ r.closed })

-- init
renew : RetryConnection → RetryConnection
renew r = record r { ch = r.next; next = r.next + 1; once = false }

unfoldable pub new_retry_connection : RetryConnection
unfolding renew
new_retry_connection = renew (record { ch = 0; once = false; closed = []; next = 0 })

-- r.once.Do(func() { close(r.ch) })
close_once : RetryConnection → Option RetryConnection
unfolding close_channel
close_once r = if r.once then some r else close_channel r.ch (record r { once = true })

-- Request; Stop calls it.
unfoldable pub request : RetryConnection → Option RetryConnection
unfolding close_once
request r = close_once r

-- Await: the channel to wait for.
unfoldable pub await : RetryConnection → ℕ
await r = r.ch

unfoldable pub reset : RetryConnection → Option RetryConnection
unfolding close_once renew
reset r = elim (close_once r) [ none ↦ none | some r' ↦ some (renew r') ]

-- Whether a receive from the channel goes on.
unfoldable pub is_closed : ℕ → RetryConnection → Bool
is_closed c r = any (λ x. x == c) r.closed

-- The calls of the client.
pub data RetryCall : Type 0 where
  requests resets : RetryCall

unfoldable pub apply : RetryCall → RetryConnection → Option RetryConnection
apply requests r = request r
apply resets r = reset r

unfoldable pub run : List RetryCall → RetryConnection → Option RetryConnection
run [] r = some r
run (c ∷ cs) r = elim (apply c r) [ none ↦ none | some r' ↦ run cs r' ]
