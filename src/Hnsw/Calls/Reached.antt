-- ===== src/Hnsw/Calls/Reached.antt =====
-- What a search with room for every vertex finds after any calls.
use coltt.Prelude.Outcome.{Outcome, ok, err, panic}
use coltt.Hnsw.{Hnsw}

value_or : {A : Type 0} → A → Outcome A → A
value_or a (ok b) = b
value_or a (err e) = a
value_or a panic = a
