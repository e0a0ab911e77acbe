-- ===== src/Tests/DraftTests.antt =====
-- Drafts, run.
use wiredraft.Prelude.{List, [], ◌∷◌, some, refl, ◌⊎◌, string_eq}
use wiredraft.Topology.{Topology}
use wiredraft.DraftRecovery.{working, new_recovery, Call, captures, accepts, run, capture}
use wiredraft.DraftRecovery.Drafts.{IsKept, SomeSaves, run-capture}
use wiredraft.Tests.Samples.{sample}

abbrev elsewhere : Topology
elsewhere = record sample { id = "other" }

abbrev session : List Call
session = captures "d2" 5 (some elsewhere) ∷ accepts (some (record sample { name = "THEIRS" })) ∷ []

run-capture_example :
    IsKept sample (run session (capture "d1" 4 (some sample) (new_recovery working []))).entries
    ⊎ SomeSaves sample session
run-capture_example =
    run-capture "d1" 4 sample session (new_recovery working []) refl (refl, (tt, tt))
