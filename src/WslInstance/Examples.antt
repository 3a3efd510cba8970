-- ===== src/WslInstance/Examples.antt =====
-- The clients at concrete inputs.
use ubuntu_pro_for_wsl.Prelude.{◌≡◌, ◌≢◌, refl, [], ◌∷◌, none, some, any, ◌==◌, arith}
use ubuntu_pro_for_wsl.WslInstance.{Client, Clients, find_client, client, close}
use ubuntu_pro_for_wsl.WslInstance.Names.{close_drops}

abbrev first : Client
first = record { name = "ubuntu"; id = 0 }

abbrev second : Client
second = record { name = "ubuntu"; id = 1 }

-- The distro has connected anew.
abbrev clients : Clients
clients = record { registered = second ∷ []; cancelled = 0 ∷ []; next = 2 }

second-found : find_client "ubuntu" clients.registered ≡ some second
unfolding find_client
second-found = refl

second-other : second.id ≢ first.id
second-other h = absurd (omega (arith, h))

close_drops_example :
    (find_client "ubuntu" (close first clients).registered ≡ none)
    × (any (λ x. x == 1) (close first clients).cancelled ≡ any (λ x. x == 1) (0 ∷ []))
    × ((client "ubuntu" (close first clients)).1.id ≡ 2)
close_drops_example = close_drops first second clients second-found second-other
