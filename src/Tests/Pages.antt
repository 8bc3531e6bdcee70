-- ===== src/Tests/Pages.antt =====
-- A size of 5000 bytes on pages of 4096.
use green_threads.Base.{refl, ℕ, ◌+◌, ◌%◌, ◌^◌, ◌≤◌, ◌<◌, ◌≡◌, arith}
use green_threads.Outcome.{ok}
use green_threads.Platform.Page.{page_align_up}
use green_threads.Platform.Page.Laws.{page_align_up-multiple}
use green_threads.Tests.Threads.{machine}

page_align_up-multiple_example :
    (r : ℕ) × (page_align_up 5000 machine ≡ ok (r, machine))
    × (r % machine.page.size ≡ 0)
    × (5000 ≤ r)
    × (r < 5000 + machine.page.size)
    × (r < 2 ^ 64)
page_align_up-multiple_example =
    page_align_up-multiple machine 5000 refl (omega arith) refl refl (omega arith)
