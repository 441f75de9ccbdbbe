-- ===== src/Tests/Ring.antt =====
-- The ring buffer at work.
use map_reduce_rpc.Prelude.{◌^◌, ◌≡◌, some, List, [], ◌∷◌}
use map_reduce_rpc.RingBuffer.Calls.{Call, put, get, run, run_queue, run_refines}
use map_reduce_rpc.Durable.Types.{Content}
use map_reduce_rpc.Tests.Data.{content_a, content_b, empty_ring, empty_ring-IsQueue}

abbrev calls : List (Call Content)
calls = put content_a ∷ put content_b ∷ put content_a ∷ get ∷ put content_b ∷ get ∷ get ∷ get ∷ []

run_refines_example : run calls empty_ring ≡ some (run_queue (2 ^ 1) calls [])
run_refines_example = run_refines calls [] empty_ring-IsQueue
