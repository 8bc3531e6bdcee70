-- ===== src/Status.antt =====
-- include/gt/error.h and src/runtime/error.c: the status codes and their descriptions.
use text.Mathlib.Text.{◌==◌}
use green_threads.Base.{
  ℕ, ◌≡◌, refl, sym, ap, ◌∙◌, ◌↔◌, List, [], ◌∷◌, if◌then◌else◌, arith, Bool, true, false,
}
use Prim.Native.String.{String}

pub data Status : Type 0 where
  success invalid_argument invalid_state out_of_memory unsupported internal_error : Status
  runtime_already_initialized runtime_not_initialized runtime_running : Status
  resource_exhausted task_limit_reached task_not_found : Status
  vm_reservation_failed vm_protection_failed vm_release_failed page_size_unavailable : Status

abbrev pub is_success : Status → Bool
is_success success = true
is_success _ = false

pub code : Status → ℕ
code success = 0
code invalid_argument = 1
code invalid_state = 2
code out_of_memory = 3
code unsupported = 4
code internal_error = 5
code runtime_already_initialized = 100
code runtime_not_initialized = 101
code runtime_running = 102
code resource_exhausted = 103
code task_limit_reached = 200
code task_not_found = 201
code vm_reservation_failed = 600
code vm_protection_failed = 601
code vm_release_failed = 602
code page_size_unavailable = 603

-- `resource_exhausted` has no case of its own and meets the default.
pub status_string : Status → String
status_string success = "success"
status_string invalid_argument = "invalid argument"
status_string invalid_state = "invalid state"
status_string out_of_memory = "out of memory"
status_string unsupported = "unsupported operation"
status_string internal_error = "internal error"
status_string runtime_already_initialized = "runtime already initialized"
status_string runtime_not_initialized = "runtime not initialized"
status_string runtime_running = "runtime already running"
status_string task_limit_reached = "task limit reached"
status_string task_not_found = "task not found"
status_string vm_reservation_failed = "vm mapping reservation failed"
status_string vm_protection_failed = "vm mapping protection failed"
status_string vm_release_failed = "vm mapping release failed"
status_string page_size_unavailable = "page size unavailable"
status_string resource_exhausted = "unknown status"

-- Two status codes with the same number are the same code.
pub code-injective : (s t : Status) → code s ≡ code t → s ≡ t
unfolding code
code-injective s t e = ground arith

-- The status that has a description, found by comparing texts.
described : List Status → String → Status
unfolding status_string
described [] text = success
described (s ∷ ss) text = if status_string s == text then s else described ss text

abbrev all_statuses : List Status
all_statuses =
    success ∷ invalid_argument ∷ invalid_state ∷ out_of_memory ∷ unsupported ∷ internal_error
    ∷ runtime_already_initialized ∷ runtime_not_initialized ∷ runtime_running ∷ resource_exhausted
    ∷ task_limit_reached ∷ task_not_found ∷ vm_reservation_failed ∷ vm_protection_failed
    ∷ vm_release_failed ∷ page_size_unavailable ∷ []

described-status_string : (s : Status) → described all_statuses (status_string s) ≡ s
unfolding described
described-status_string success = refl
described-status_string invalid_argument = refl
described-status_string invalid_state = refl
described-status_string out_of_memory = refl
described-status_string unsupported = refl
described-status_string internal_error = refl
described-status_string runtime_already_initialized = refl
described-status_string runtime_not_initialized = refl
described-status_string runtime_running = refl
described-status_string resource_exhausted = refl
described-status_string task_limit_reached = refl
described-status_string task_not_found = refl
described-status_string vm_reservation_failed = refl
described-status_string vm_protection_failed = refl
described-status_string vm_release_failed = refl
described-status_string page_size_unavailable = refl

-- Two declared statuses that gt_status_string describes by the same text are the same status.
pub status_string-injective : (s t : Status) → status_string s ≡ status_string t → s ≡ t
status_string-injective s t e =
    sym (described-status_string s) ∙ ap (described all_statuses) e ∙ described-status_string t

-- gt_status_string describes a declared status as unknown exactly when it is
-- GT_STATUS_RESOURCE_EXHAUSTED.
pub unknown_status_iff :
    (s : Status) → (status_string s ≡ "unknown status") ↔ (s ≡ resource_exhausted)
unknown_status_iff s = (
  (λ e. status_string-injective s resource_exhausted (e ∙ unfold status_string in refl)),
  λ e. ap status_string e ∙ unfold status_string in refl,
)
