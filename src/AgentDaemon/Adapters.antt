-- ===== src/AgentDaemon/Adapters.antt =====
-- windows-agent/internal/daemon/networking.go: the address of the WSL adapter. What wslinfo and the
-- Win32 API answer is an argument; the linked list of adapters is a list. A text is the list of its
-- code points.
pub mod Fits
use ubuntu_pro_for_wsl.Prelude.{
  ℕ, suc, ◌+◌, ◌*◌, ◌/◌, ◌%◌, Bool, true, false, ◌&&◌, ◌||◌, List, [], ◌∷◌, ◌++◌, Option, none,
  some, Result, ok, err, ◌>>=◌, if◌then◌else◌, ◌==◌, ltb, leb, codes, same_codes, length,
}
use ubuntu_pro_for_wsl.Landscape.DefaultUser.{trim_space}
use ubuntu_pro_for_wsl.AgentDaemon.Buffer.{Buffer, resize_bytes, BufferError, limit_reached}

pub record Adapter (Ip : Type 0) : Type 0 where
  pub description : List ℕ
  pub friendly_name : List ℕ
  pub ip : Ip

pub data NetworkError (E : Type 0) : Type 0 where
  from_system : E → NetworkError E
  from_buffer : BufferError → NetworkError E
  iteration_limit no_adapter : NetworkError E
  unknown_mode : List ℕ → NetworkError E

-- strings.Contains
unfoldable pub starts_with : List ℕ → List ℕ → Bool
starts_with [] s = true
starts_with (c ∷ w) [] = false
starts_with (c ∷ w) (d ∷ s) = c == d && starts_with w s

unfoldable pub contains_codes : List ℕ → List ℕ → Bool
unfolding starts_with
contains_codes w [] = starts_with w []
contains_codes w (c ∷ s) = starts_with w (c ∷ s) || contains_codes w s

unfoldable pub is_wsl_adapter : {Ip : Type 0} → Adapter Ip → Bool
unfolding contains_codes
is_wsl_adapter a =
    contains_codes (codes "Hyper-V Virtual Ethernet Adapter") a.description
    && contains_codes (codes "vEthernet (WSL") a.friendly_name

-- The loop of findWslAdapterIP.
unfoldable pub find_adapter : {Ip : Type 0} → List (Adapter Ip) → Option Ip
find_adapter [] = none
find_adapter (a ∷ more) =
    let rest = find_adapter more in if is_wsl_adapter a then some a.ip else rest

-- What GetAdaptersAddresses answers: the list, ERROR_BUFFER_OVERFLOW with a size, or another error.
pub data AddressesAnswer (E Ip : Type 0) : Type 0 where
  filled : List (Adapter Ip) → AddressesAnswer E Ip
  overflows : ℕ → AddressesAnswer E Ip
  refuses : E → AddressesAnswer E Ip

-- A call of it: the elements of the buffer, and the size in bytes that it is told.
pub record ApiCall : Type 0 where
  pub elements : ℕ
  pub size : ℕ

-- The calls, and the result.
abbrev pub Listed : Type 0 → Type 0 → Type 0
Listed E Ip = List ApiCall × Result (NetworkError E) (List (Adapter Ip))

-- The loop of getAddrList, with what the rounds that are left are answered. It is given as many answers
-- as it has rounds.
unfoldable pub list_loop :
    {E Ip : Type 0} → ℕ → List (AddressesAnswer E Ip) → Buffer → ℕ → Listed E Ip
unfolding resize_bytes
list_loop size_of [] b size = ([], err iteration_limit)
list_loop size_of (filled adapters ∷ answers) b size =
    (record { elements = b.elements; size = size } ∷ [], ok adapters)
list_loop size_of (refuses e ∷ answers) b size =
    (record { elements = b.elements; size = size } ∷ [], err (from_system e))
list_loop size_of (overflows needed ∷ answers) b size =
    let (b', r) = resize_bytes size_of needed b in
    elim r [
      | err e ↦ (record { elements = b.elements; size = size } ∷ [], err (from_buffer e))
      | ok size' ↦
          let (calls, listed) = list_loop size_of answers b' size' in
          (record { elements = b.elements; size = size } ∷ calls, listed)
    ]

-- getAddrList, with the answers of ten rounds.
unfoldable pub get_addr_list : {E Ip : Type 0} → ℕ → (ℕ → AddressesAnswer E Ip) → Listed E Ip
unfolding list_loop resize_bytes
get_addr_list size_of api =
    let (b, r) = resize_bytes size_of (15 * 1024) (record { elements = 0 }) in
    elim r [
      | err e ↦ ([], err (from_buffer e))
      | ok size ↦
          list_loop size_of
            (api 0 ∷ api 1 ∷ api 2 ∷ api 3 ∷ api 4 ∷ api 5 ∷ api 6 ∷ api 7 ∷ api 8 ∷ api 9 ∷ []) b
            size
    ]

unfoldable pub find_wsl_adapter_ip :
    {E Ip : Type 0} → Result (NetworkError E) (List (Adapter Ip)) → Result (NetworkError E) Ip
unfolding find_adapter
find_wsl_adapter_ip (err e) = err e
find_wsl_adapter_ip (ok adapters) = elim (find_adapter adapters) [
  | none ↦ err no_adapter
  | some ip ↦ ok ip
]

-- The text before the first line feed.
unfoldable pub first_line : List ℕ → List ℕ
first_line [] = []
first_line (c ∷ s) = let rest = first_line s in if c == 10 then [] else c ∷ rest

-- networkingMode, by what the command prints or the error that it ends with.
unfoldable pub networking_mode : {E : Type 0} → Result E (List ℕ) → Result E (List ℕ)
unfolding first_line
networking_mode out = out >>= λ s. ok (first_line (trim_space s))

-- getWslIP: NAT is assumed if the mode is not known. `loopback` is 127.0.0.1.
unfoldable pub get_wsl_ip :
    {E Ip : Type 0}
    → Ip
    → Result E (List ℕ)
    → Result (NetworkError E) (List (Adapter Ip))
    → Result (NetworkError E) Ip
unfolding networking_mode
get_wsl_ip loopback out adapters =
    let mode : List ℕ = elim (networking_mode out) [ err e ↦ codes "nat" | ok mode ↦ mode ] in
    if same_codes mode (codes "mirrored")
    then ok loopback
    else (if same_codes mode (codes "nat")
        then find_wsl_adapter_ip adapters
        else err (unknown_mode mode))
