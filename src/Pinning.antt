-- ===== src/Pinning.antt =====
-- core/src/pinning.rs: the placement of a thread. The ids of the cores, what the call that pins to one
-- returns, and what the request for a class of service on macOS returns (false elsewhere) are arguments.
use aetherflow.Base.{
  ℕ, Bool, false, ◌||◌, Option, none, some, List, if◌then◌else◌, length, get_elem?,
}

-- `match core_affinity::get_core_ids()`
abbrev pub hard_pin : Option (List ℕ) → (ℕ → Bool) → ℕ → Bool
hard_pin none set_for_current core = false
hard_pin (some ids) set_for_current core = elim (get_elem? ids core) [
  | none ↦ false
  | some id ↦ set_for_current id
]

-- `pin_current_thread_to`; `miri` says that the program runs under that interpreter.
unfoldable pub pin_current_thread_to :
    (miri macos_qos : Bool) → Option (List ℕ) → (ℕ → Bool) → ℕ → Bool
pin_current_thread_to miri macos_qos core_ids set_for_current core =
    if miri then false else hard_pin core_ids set_for_current core || macos_qos

-- `available_cores`
abbrev pub available_cores : Option (List ℕ) → Option ℕ
available_cores none = none
available_cores (some ids) = some (length ids)
