-- ===== src/Landscape/Retry/Flag.antt =====
-- retryConnection of windows-agent/internal/proservices/landscape/utils.go refines a flag.
use ubuntu_pro_for_wsl.Prelude.{
  ℕ, ◌+◌, ◌<◌, ◌≡◌, refl, Bool, true, false, List, [], ◌∷◌, some, ◌==◌, any, All, arith, Bool-cases,
  inl, inr,
}
use ubuntu_pro_for_wsl.Landscape.Retry.{
  RetryConnection, new_retry_connection, close_channel, renew, close_once, request, await, reset,
  is_closed, RetryCall, requests, resets, apply, run,
}

-- The specification: a request is pending or not.
abbrev pub flag : RetryCall → Bool → Bool
flag requests pending = true
flag resets pending = false

abbrev pub flags : List RetryCall → Bool → Bool
flags [] pending = pending
flags (c ∷ cs) pending = flags cs (flag c pending)

-- The retrier stands for the flag: its channel is closed just if a request is pending, and every
-- channel that it had before is closed.
pub record Stands (pending : Bool) (r : RetryConnection) : Type 0 where
  pub used : r.once ≡ pending
  pub current : is_closed (await r) r ≡ pending
  pub numbered : r.next ≡ r.ch + 1
  pub made : All (λ c. c < r.next) r.closed
  pub earlier : (c : ℕ) → c < r.ch → is_closed c r ≡ true

not_made : (n : ℕ) (cs : List ℕ) → All (λ c. c < n) cs → any (λ x. x == n) cs ≡ false
not_made n [] h = refl
not_made n (c ∷ cs) (h, hs) = ground (arith, not_made n cs hs)

close_once-Stands :
    (pending : Bool) (r : RetryConnection)
    → Stands pending r
    → (r' : RetryConnection) × (close_once r ≡ some r') × Stands true r'
unfolding close_once is_closed await close_channel
close_once-Stands true r s = (r, rw s.used refl, s)
close_once-Stands false r s = (
  record r { once = true; closed = r.ch ∷ r.closed },
  ground (arith, s.used, s.current),
  record {
    used = refl;
    current = ground arith;
    numbered = s.numbered;
    made = (ground (arith, s.numbered), s.made);
    earlier = λ c l. ground (arith, s.earlier c l);
  },
)

made_later : (n : ℕ) (cs : List ℕ) → All (λ c. c < n) cs → All (λ c. c < n + 1) cs
made_later n [] h = tt
made_later n (c ∷ cs) (h, hs) = (omega arith, made_later n cs hs)

renew-Stands : (r : RetryConnection) → Stands true r → Stands false (renew r)
unfolding renew is_closed await
renew-Stands r s = record {
  used = refl;
  current = not_made r.next r.closed s.made;
  numbered = refl;
  made = made_later r.next r.closed s.made;
  earlier = λ c l. elim (Bool-cases (c == r.ch)) [
    | inl e ↦ ground (arith, e, s.current)
    | inr e ↦ s.earlier c (ground (arith, l, e, s.numbered))
  ];
}

pub apply-Stands :
    (c : RetryCall) (pending : Bool) (r : RetryConnection)
    → Stands pending r
    → (r' : RetryConnection) × (apply c r ≡ some r') × Stands (flag c pending) r'
unfolding apply request reset
apply-Stands requests pending r s = close_once-Stands pending r s
apply-Stands resets pending r s =
    let (r', e, s') = close_once-Stands pending r s in
    (renew r', rw (e, reset) refl, renew-Stands r' s')

run-Stands_from :
    (cs : List RetryCall) (pending : Bool) (r : RetryConnection)
    → Stands pending r
    → (r' : RetryConnection) × (run cs r ≡ some r') × Stands (flags cs pending) r'
unfolding run
run-Stands_from [] pending r s = (r, refl, s)
run-Stands_from (c ∷ cs) pending r s =
    let (r', e, s') = apply-Stands c pending r s in
    let (r'', e', s'') = run-Stands_from cs (flag c pending) r' s' in (r'', rw (e, run) e', s'')

pub new-Stands : Stands false new_retry_connection
unfolding new_retry_connection renew is_closed await
new-Stands = record {
  used = refl;
  current = refl;
  numbered = refl;
  made = tt;
  earlier = λ c l. ground (arith, l);
}

-- After any sequence of Request, Stop and Reset on a new retrier, no channel was closed twice; the
-- channel that Await gives is closed just if a Request or Stop came after the last Reset, and
-- every channel that Await gave before the last Reset is closed, so nobody is left waiting on it.
pub run-Stands :
    (cs : List RetryCall)
    → (r : RetryConnection) × (run cs new_retry_connection ≡ some r) × Stands (flags cs false) r
run-Stands cs = run-Stands_from cs false new_retry_connection new-Stands

pub request-Stands :
    (pending : Bool) (r : RetryConnection)
    → Stands pending r
    → (r' : RetryConnection) × (request r ≡ some r') × Stands true r'
unfolding apply
request-Stands pending r s = apply-Stands requests pending r s

pub reset-Stands :
    (pending : Bool) (r : RetryConnection)
    → Stands pending r
    → (r' : RetryConnection) × (reset r ≡ some r') × Stands false r'
unfolding apply
reset-Stands pending r s = apply-Stands resets pending r s
