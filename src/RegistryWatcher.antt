-- ===== src/RegistryWatcher.antt =====
-- windows-agent/internal/proservices/registrywatcher/watcher.go. What the Windows registry answers to
-- a call is an argument. The keys and the events that are open are counted.
pub mod Handles
pub mod Backoff
pub mod Defaults
pub mod Examples
use ubuntu_pro_for_wsl.Prelude.{
  ℕ, ◌+◌, ◌-◌, ◌*◌, min, Bool, true, false, List, [], ◌∷◌, Option, none, some, Result, ok, err,
  ◌>>=◌, String, if◌then◌else◌,
}
use ubuntu_pro_for_wsl.Config.Registry.{RegistryData}

-- The answer to HKCUOpenKey.
pub data Opening (E : Type 0) : Type 0 where
  opened : Opening E
  key_not_exist : Opening E
  not_opened : E → Opening E

-- The answer to ReadValue.
pub data Reading (E : Type 0) : Type 0 where
  value : String → Reading E
  field_not_exist : Reading E
  not_read : E → Reading E

-- What the registry answers while it is read once.
pub record Snapshot (E : Type 0) : Type 0 where
  pub opening : Opening E
  pub token : Reading E
  pub landscape : Reading E

-- What happens in one round of the loop of run: the answers to the calls, in their order, and
-- whether the context is cancelled at each of the two looks at it.
pub record Round (E : Type 0) : Type 0 where
  pub stopped : Bool
  pub opening : Opening E
  pub opening_parent : Opening E
  pub watching : Option E
  pub read : Snapshot E
  pub waiting : Option E
  pub read_again : Snapshot E
  pub stopped_asleep : Bool

-- Service. `slept` are the times that it slept for, in seconds, and `pushed` the data that it handed
-- to the configuration, each with the last first.
pub record Service : Type 0 where
  pub keys : ℕ
  pub events : ℕ
  pub retry_rate : ℕ
  pub slept : List ℕ
  pub pushed : List RegistryData

abbrev pub min_rate : ℕ
min_rate = 1

abbrev pub growth_factor : ℕ
growth_factor = 2

abbrev pub max_rate : ℕ
max_rate = 1800

open_key : Service → Service
open_key s = record s { keys = s.keys + 1 }

close_key : Service → Service
close_key s = record s { keys = s.keys - 1 }

open_event : Service → Service
open_event s = record s { events = s.events + 1 }

close_event : Service → Service
close_event s = record s { events = s.events - 1 }

module _ {E : Type 0} where
  unfoldable pub read_from_registry : Reading E → Result E String
  read_from_registry (value v) = ok v
  read_from_registry field_not_exist = ok ""
  read_from_registry (not_read e) = err e

  -- The two reads of loadRegistry.
  unfoldable pub read_fields : Snapshot E → Result E RegistryData
  unfolding read_from_registry
  read_fields snap = do
    token ← read_from_registry snap.token
    conf ← read_from_registry snap.landscape
    ok (record { ubuntu_pro_token = token; landscape_config = conf })

  -- loadRegistry: the key is closed by a deferred call.
  load_opened : Snapshot E → Opening E → Service → Service × Result E RegistryData
  unfolding open_key close_key read_fields
  load_opened snap opened s = let s' = open_key s in (close_key s', read_fields snap)
  load_opened snap key_not_exist s =
      (s, ok (record { ubuntu_pro_token = ""; landscape_config = "" }))
  load_opened snap (not_opened e) s = (s, err e)

  unfoldable pub load_registry : Snapshot E → Service → Service × Result E RegistryData
  unfolding load_opened
  load_registry snap s = load_opened snap snap.opening s

  -- readThenPushRegistryData
  push_loaded : Service × Result E RegistryData → Service
  push_loaded (s, ok d) = record s { pushed = d ∷ s.pushed }
  push_loaded (s, err e) = s

  unfoldable pub read_then_push : Snapshot E → Service → Service
  unfolding push_loaded load_registry
  read_then_push snap s = push_loaded (load_registry snap s)

  -- HKCUOpenKey of the key, or of its parent if it does not exist: the error, or none.
  open_watched : Opening E → Opening E → Option (Option E)
  open_watched opened _ = none
  open_watched (not_opened e) _ = some (some e)
  open_watched key_not_exist opened = none
  open_watched key_not_exist (not_opened e) = some (some e)
  open_watched key_not_exist key_not_exist = some none

  -- The function that run calls in each round, from RegNotifyChangeKeyValue on: whether it returns
  -- an error.
  watch_event : Round E → Service → Service × Bool
  unfolding open_event close_event
  watch_event r s = elim r.watching [
    | some e ↦ (s, true)
    | none ↦
        let s' = read_then_push r.read (open_event s) in
        (close_event s', elim r.waiting [ none ↦ false | some e ↦ true ])
  ]

  unfoldable pub watch_once : Round E → Service → Service × Bool
  unfolding open_watched watch_event open_key close_key
  watch_once r s = elim (open_watched r.opening r.opening_parent) [
    | some e ↦ (s, true)
    | none ↦ let (s', failed) = watch_event r (open_key s) in (close_key s', failed)
  ]

  -- What follows an error: the wait, and the growth of the rate.
  fall_back : Round E → Service → Service × Bool
  fall_back r s =
      let s' = read_then_push r.read_again s in
      if r.stopped_asleep then (s', false) else (
        record s' {
          slept = s'.retry_rate ∷ s'.slept;
          retry_rate = min (growth_factor * s'.retry_rate) max_rate;
        },
        true,
      )

  -- One round of run, and whether the loop goes on.
  unfoldable pub run_round : Round E → Service → Service × Bool
  unfolding fall_back
  run_round r s =
      let (s', failed) = watch_once r s in
      if r.stopped
      then (s, false)
      else (if failed then fall_back r s' else (record s' { retry_rate = min_rate }, true))

  -- run, over the rounds that there are before it is looked at.
  unfoldable pub run : List (Round E) → Service → Service
  run [] s = s
  run (r ∷ rs) s =
      let (s', go_on) = run_round r s in let rest = run rs s' in if go_on then rest else s'
