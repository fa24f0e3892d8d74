-- ===== src/ShmStatus.antt =====
-- The notifications of esdm/esdm_shm_status.c: the status page and its three semaphores.
use esdm.Base.{ℕ, ◌+◌, Bool, true, false, not, Option, none, some, ltb, if◌then◌else◌}
use esdm.System.{Shm}

-- `_esdm_shm_status_up`: the semaphore toggles between 0 and 1.
unfoldable pub sem_up : Option ℕ → Option ℕ
sem_up none = none
sem_up (some semval) = if ltb 0 semval then some semval else some (semval + 1)

unfoldable pub status_up : Shm → Shm
unfolding sem_up
status_up m = record m { sem_random = sem_up m.sem_random; sem_urandom = sem_up m.sem_urandom }

unfoldable pub wake_all : Shm → Shm
unfolding sem_up status_up
wake_all m = record (status_up m) {
  sem_need_entropy_level = sem_up (status_up m).sem_need_entropy_level;
}

abbrev pub bool_eq : Bool → Bool → Bool
bool_eq true b = b
bool_eq false b = not b

unfoldable pub set_operational : Bool → Shm → Shm
unfolding status_up
set_operational enabled m = elim m.status [
  | none ↦ m
  | some st ↦
      if bool_eq st.operational enabled
      then m
      else status_up (record m { status = some (record st { operational = enabled }) })
]

-- `esdm_shm_status_set_need_entropy`, given what `esdm_need_entropy` says.
unfoldable pub set_need_entropy : Bool → Shm → Shm
unfolding sem_up status_up
set_need_entropy need m = elim m.status [
  | none ↦ m
  | some st ↦
      let m' =
        if bool_eq st.need_entropy need
        then m
        else status_up (record m { status = some (record st { need_entropy = need }) }) in
      if need then record m' { sem_need_entropy_level = sem_up m'.sem_need_entropy_level } else m'
]

unfoldable pub set_suspend : Shm → Shm
unfolding wake_all
set_suspend m = elim m.status [
  | none ↦ m
  | some st ↦ wake_all (record m { status = some (record st { suspend_trigger = true }) })
]
