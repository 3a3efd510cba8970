-- ===== src/ProService/Examples.antt =====
-- The theorems about the service in the distros at concrete inputs.
use ubuntu_pro_for_wsl.Prelude.{
  arith, ℕ, ◌≡◌, refl, true, false, List, [], ◌∷◌, map, none, some, ok, String, codes, fields,
  is_space,
}
use ubuntu_pro_for_wsl.ContractClient.{pos}
use ubuntu_pro_for_wsl.ProService.Networking.{Routes, default_gateway}
use ubuntu_pro_for_wsl.ProService.Networking.Gateway.{show_address, default_gateway-show_address}
use ubuntu_pro_for_wsl.ProService.Serve.{Attempt, disconnects, Round, quits, tries, serve}
use ubuntu_pro_for_wsl.ProService.Serve.Backoff.{backoff, streaks, serve-backoff}

abbrev row : List ℕ
row = codes "eth0 00000000 012019AC 0003"

abbrev routes : Routes String
routes = record { lines = codes "Iface Destination Gateway Flags" ∷ row ∷ []; scan_error = none }

fields-row :
    fields row ≡ codes "eth0" ∷ codes "00000000" ∷ show_address 172 25 32 1 ∷ codes "0003" ∷ []
unfolding fields is_space
fields-row = refl

default_gateway-show_address_example : default_gateway (ok routes) ≡ ok (172 ∷ 25 ∷ 32 ∷ 1 ∷ [])
default_gateway-show_address_example =
    default_gateway-show_address (codes "Iface Destination Gateway Flags") row []
      (codes "0003" ∷ []) (codes "eth0") (codes "00000000") 172 25 32 1 none fields-row
      (omega arith) (omega arith) (omega arith) (omega arith)

abbrev served : Attempt String
served = record {
  address_file = ok (codes "127.0.0.1:4242");
  split_host_port = ok (codes "4242");
  atoi = ok (pos 4242);
  mode = ok (codes "nat\n");
  routes = ok routes;
  tls_config = none;
  client = none;
  served = disconnects true;
}

abbrev refused : Attempt String
refused = record served { client = some "connection refused" }

abbrev rounds : List (Round String)
rounds = tries refused ∷ tries refused ∷ tries served ∷ quits ∷ []

serve-backoff_example : (serve false none rounds).0 ≡ map backoff (streaks 0 rounds)
serve-backoff_example = serve-backoff rounds
