-- ===== src/AgentDaemon/Examples.antt =====
-- The agent's daemon at concrete inputs: the WSL adapter appears after the first round.
use ubuntu_pro_for_wsl.Prelude.{
  ℕ, ◌<◌, refl, false, [], ◌∷◌, none, some, ok, err, String, All, arith,
}
use ubuntu_pro_for_wsl.AgentDaemon.Adapters.{AddressesAnswer, overflows, filled, get_addr_list}
use ubuntu_pro_for_wsl.AgentDaemon.Adapters.Fits.{IsSafe, get_addr_list-IsSafe}
use ubuntu_pro_for_wsl.AgentDaemon.Serving.{
  AgentDaemon, Round, requests, restart, quit_force, serve,
}
use ubuntu_pro_for_wsl.AgentDaemon.Serving.Ends.{Ends, removes, serve-Ends}

-- The first buffer is too small.
abbrev api : ℕ → AddressesAnswer String String
api ℕ.zero = overflows 20000
api (ℕ.suc n) = filled []

positive : 0 < 448
positive = omega arith

get_addr_list-IsSafe_example : All (IsSafe 448) (get_addr_list 448 api).0
get_addr_list-IsSafe_example = get_addr_list-IsSafe 448 positive api

abbrev without_adapter : Round String
without_adapter = record {
  setup = record {
    wsl_ip = err "could not find WSL adapter";
    subscribe_error = none;
    listen = λ ip. ok ip;
    write_error = none;
  };
  waking = requests restart;
  server_error = none;
  remove_error = none;
}

abbrev with_adapter : Round String
with_adapter = record {
  setup = record {
    wsl_ip = ok "172.20.0.1";
    subscribe_error = none;
    listen = λ ip. ok ip;
    write_error = none;
  };
  waking = requests quit_force;
  server_error = none;
  remove_error = none;
}

abbrev daemon : AgentDaemon
daemon = record {
  serving = false;
  stopped = false;
  address_file = some "127.0.0.1:50051";
  servers = 0;
  stops = [];
  subscribed = 0;
  net_subs = none;
  stopped_subs = [];
}

serve-Ends_example :
    Ends
      (removes (without_adapter ∷ with_adapter ∷ []))
      (serve (without_adapter ∷ with_adapter ∷ []) daemon)
serve-Ends_example = serve-Ends (without_adapter ∷ with_adapter ∷ []) daemon refl refl refl
