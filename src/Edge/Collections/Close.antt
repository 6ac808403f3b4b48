-- ===== src/Edge/Collections/Close.antt =====
-- Close of edge/edge.go: every loaded collection is saved. An error is logged and nothing more, so
-- a file that could not be made is written empty.
pub mod Kept
use coltt.Prelude.{ℕ, Bool, true, false, List, [], ◌∷◌}
use coltt.Prelude.Bytes.{Bytes}
use coltt.Prelude.Dict.{Dict}
use coltt.Prelude.Outcome.{Outcome, ok, err, panic, continue}
use coltt.Edge.Storage.{Storage}
use coltt.Edge.Vectorstore.{Vectorspace, saved_metadata, saved_vertex, saved_inverted}
use coltt.Edge.Collections.{
  ◌>>=◌, ◌>>◌, Action, pure, reads, EdgeState, put_file, metadata_object, vertex_object,
  inverted_object,
}

-- the bytes beside an error are nil
unfoldable pub bytes_or_nil : Outcome Bytes → Outcome Bytes
bytes_or_nil (ok bytes) = ok bytes
bytes_or_nil (err e) = ok []
bytes_or_nil panic = panic

module _ {E : Type 0} where
  unfoldable pub log_error : Outcome (Unit {0}) × E → Outcome (Unit {0}) × E
  log_error (ok u, s) = (ok u, s)
  log_error (err e, s) = (ok tt, s)
  log_error (panic, s) = (panic, s)

module _ {V S : Type 0} ⦃vectorspace : Vectorspace V⦄ ⦃storage : Storage S⦄ where
  abbrev put_logged : Bytes → Bytes → Bytes → Action (EdgeState V S) (Unit {0})
  put_logged name object bytes s = log_error (put_file name object bytes s)

  -- the body of the loop
  unfoldable pub save_anyway : Bytes → Action (EdgeState V S) (Unit {0})
  save_anyway name = do
    meta_bytes ← reads (λ s. bytes_or_nil (saved_metadata name s.spaces))
    put_logged name (metadata_object name) meta_bytes
    vertex_bytes ← reads (λ s. bytes_or_nil (saved_vertex name s.spaces))
    put_logged name (vertex_object name) vertex_bytes
    index_bytes ← reads (λ s. bytes_or_nil (saved_inverted name s.spaces))
    put_logged name (inverted_object name) index_bytes

  unfoldable pub close_loop : Dict Bytes Bool → Action (EdgeState V S) (Unit {0})
  close_loop [] = pure tt
  close_loop ((name, true) ∷ collections) = do save_anyway name; close_loop collections
  close_loop ((name, false) ∷ collections) = close_loop collections

  unfoldable pub close : Action (EdgeState V S) (Unit {0})
  close s = close_loop s.load s
