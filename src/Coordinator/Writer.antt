-- ===== src/Coordinator/Writer.antt =====
-- dagger/online_dagger.py: the worker that writes `session.json`. It runs the writes one after the
-- other, in the order in which they were handed over; one that fails is logged and leaves the file as
-- it was.
use apollo_mavis_v2_runtime.Coordinator.State.{SessionJson}
use apollo_mavis_v2_runtime.Prelude.{Bool, List, [], ◌∷◌, Option, some, if◌then◌else◌}

-- The file after the writes that were run, with what came of each: of the documents handed over, those
-- beyond the results still wait, or were lost in a crash.
unfoldable pub work : Option SessionJson → List SessionJson → List Bool → Option SessionJson
work file [] oks = file
work file (doc ∷ docs) [] = file
work file (doc ∷ docs) (ok ∷ oks) = work (if ok then some doc else file) docs oks
