-- ===== src/Tests/Queues.antt =====
-- The queue at a run of six requests.
use green_threads.Base.{◌≡◌, [], ◌∷◌}
use green_threads.Outcome.{ok}
use green_threads.Links.{Links}
use green_threads.Links.Ring.{IsRing}
use green_threads.Queue.Laws.{serve, serve-serve_list}
use green_threads.Tests.Data.{three, three-IsRing, five_served, six_requests, six_run}

serve-serve_list_example :
    (g : Links) × (serve 1 six_requests three ≡ ok (five_served.got, g))
    × IsRing g 1 five_served.left
serve-serve_list_example =
    serve-serve_list 1 six_requests (10 ∷ 20 ∷ 30 ∷ []) three five_served three-IsRing six_run
