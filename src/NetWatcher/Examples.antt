-- ===== src/NetWatcher/Examples.antt =====
-- The theorems about the network adapters at concrete inputs: the adapter "vEthernet" is added.
use ubuntu_pro_for_wsl.Prelude.{ℕ, ◌≡◌, refl, true, List, [], ◌∷◌, some, ok, String, codes}
use ubuntu_pro_for_wsl.NetWatcher.{
  Devices, NetWatcher, subscribe, list_adapters, Event, context_done, devices_changed, start,
  compare_names, is_greater, sort, insert, filter,
}
use ubuntu_pro_for_wsl.NetWatcher.Find.{IsSorted}
use ubuntu_pro_for_wsl.NetWatcher.Difference.{hears, start-hears}

abbrev cached : List (List ℕ)
cached = codes "Ethernet" ∷ codes "WiFi" ∷ []

abbrev current : List (List ℕ)
current = codes "Ethernet" ∷ codes "WiFi" ∷ codes "vEthernet" ∷ []

cached-IsSorted : IsSorted cached
unfolding compare_names is_greater
cached-IsSorted = ((refl, tt), (tt, tt))

abbrev before : Devices String
before = record { guids = ok cached; is_uuid = λ _. true; connection_name = λ guid. ok guid }

abbrev after : Devices String
after = record { guids = ok current; is_uuid = λ _. true; connection_name = λ guid. ok guid }

abbrev watcher : NetWatcher
watcher = record { cache = cached; notified = [] }

subscribed : subscribe before ≡ ok watcher
unfolding subscribe list_adapters sort insert filter compare_names is_greater
subscribed = refl

abbrev events : List (Event String)
events = devices_changed after ∷ context_done ∷ []

start-hears_example : start (λ _. true) events watcher ≡ some (hears (λ _. true) events watcher)
start-hears_example = start-hears before (λ _. true) events watcher subscribed
