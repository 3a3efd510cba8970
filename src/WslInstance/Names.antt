-- ===== src/WslInstance/Names.antt =====
-- The map of clients of windows-agent/internal/proservices/wslinstance/client.go.
use ubuntu_pro_for_wsl.Prelude.{
  ◌≡◌, refl, List, [], ◌∷◌, none, some, String, str_eq, any, reject, arith, ◌==◌, Bool-cases, inl,
  inr, ◌≢◌,
}
use ubuntu_pro_for_wsl.WslInstance.{Client, Clients, find_client, client, close}

find_client-deleted :
    (name : String) (cs : List Client)
    → find_client name (reject (λ x. str_eq x.name name) cs) ≡ none
unfolding find_client
find_client-deleted name [] = refl
find_client-deleted name (c ∷ cs) = elim (Bool-cases (str_eq c.name name)) [
  | inl q ↦ rw q (find_client-deleted name cs)
  | inr q ↦ rw q (rw (q, find_client) (find_client-deleted name cs))
]

-- Close of a client drops whatever client is registered under its name. If that is another one, which
-- was made since, its context is not cancelled by it: it stays in use, but the streams of its
-- distro that ask for it later are given a third client.
pub close_drops :
    (c d : Client) (s : Clients)
    → find_client c.name s.registered ≡ some d
    → d.id ≢ c.id
    → (find_client c.name (close c s).registered ≡ none)
      × (any (λ x. x == d.id) (close c s).cancelled ≡ any (λ x. x == d.id) s.cancelled)
      × ((client c.name (close c s)).1.id ≡ s.next)
unfolding close client
close_drops c d s f n = (
  find_client-deleted c.name s.registered,
  ground (arith, n),
  rw (find_client-deleted c.name s.registered, client) refl,
)
