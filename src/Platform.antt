-- ===== src/Platform.antt =====
-- src/platform, with its page, virtual memory, heap and context parts, and what lies below it.
pub mod Interface
pub mod Ledger
pub mod Page
pub mod Vm
pub mod Heap
pub mod Context
use green_threads.Outcome.Cmd.{Cmd, pure, ◌>>=◌}
use green_threads.Base.{if◌then◌else◌}
use green_threads.Status.{Status, success, is_success}
use green_threads.Platform.Interface.{Host, Machine}

-- `gt_platform_init`.
unfoldable pub init : Host → Cmd Machine Status
init host = do status ← Page.init host; if is_success status then pure success else pure status

-- `gt_platform_destroy`.
unfoldable pub destroy : Cmd Machine (Unit {0})
destroy = pure tt
