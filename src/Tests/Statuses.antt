-- ===== src/Tests/Statuses.antt =====
-- The statuses.
use green_threads.Base.{◌≡◌, ◌↔◌}
use green_threads.Status.{status_string, unknown_status_iff}
use green_threads.Status.{resource_exhausted}

unknown_status_iff_example :
    (status_string resource_exhausted ≡ "unknown status")
    ↔ (resource_exhausted ≡ resource_exhausted)
unknown_status_iff_example = unknown_status_iff resource_exhausted
