-- ===== src/Edge/Collections/Requests.antt =====
-- Requests, handled one after the other, whatever their outcomes.
use coltt.Prelude.{◌≡◌, true, false, List, [], ◌∷◌, arith, ap}
use coltt.Prelude.Bytes.{Bytes}
use coltt.Prelude.Dict
use coltt.Prelude.Dict.{Dict, bytes_key}
use coltt.Prelude.Float.{Floats}
use coltt.Prelude.Outcome.{Outcome, panic}
use coltt.Inverted.Index.{Metadata}
use coltt.Edge.Storage.{Storage, Json}
use coltt.Edge.Vectorstore.{Vectorspace, read_space}
use coltt.Edge.Collections.{reads, EdgeState, flag, already_load_collection}
use coltt.Edge.Collections.Handlers.{
  Collection, create_collection, delete_collection, get_collection, detail_of, collection_detail,
  load_collection, release_collection, flush,
}
use coltt.Edge.Collections.Vertices.{IndexChange, SearchIndex, index, search}
use coltt.Edge.Collections.Loaded.{Loaded}
use coltt.Edge.Collections.Handled.{
  create_collection-Loaded, release_collection-Loaded, delete_collection-Loaded,
  get_collection-Loaded, flush-Loaded, index-Loaded, search-Loaded, load_collection-Loaded,
}

-- A request to package edge.
pub data Request : Type 0 where
  creates : Collection → Request
  deletes gets loads releases flushes : Bytes → Request
  changes : IndexChange → Request
  searches : SearchIndex → Request

module _ {V S : Type 0} ⦃vectorspace : Vectorspace V⦄ ⦃storage : Storage S⦄ ⦃json : Json⦄
    ⦃floats : Floats⦄ (new_struct : Metadata → Outcome Metadata) where
  -- the state after the request
  unfoldable pub handled : Request → EdgeState V S → EdgeState V S
  handled (creates req) s = (create_collection req s).1
  handled (deletes name) s = (delete_collection name s).1
  handled (gets name) s = (get_collection name s).1
  handled (loads name) s = (load_collection name s).1
  handled (releases name) s = (release_collection name s).1
  handled (flushes name) s = (flush name s).1
  handled (changes req) s = (index req s).1
  handled (searches req) s = (search new_struct req s).1

  unfoldable pub all_handled : List Request → EdgeState V S → EdgeState V S
  all_handled [] s = s
  all_handled (r ∷ requests) s = all_handled requests (handled r s)

  started : (s : EdgeState V S) → s.load ≡ [] → Loaded s
  unfolding already_load_collection Dict.lookup
  started s e name l =
      let h : flag (Dict.lookup name s.load) ≡ true = l in
      let nothing : flag (Dict.lookup name s.load) ≡ false =
        ap (λ m. flag (Dict.lookup name m)) e in
      cc

  handled-Loaded : (r : Request) (s : EdgeState V S) → Loaded s → Loaded (handled r s)
  unfolding handled
  handled-Loaded (creates req) = create_collection-Loaded req
  handled-Loaded (deletes name) = delete_collection-Loaded name
  handled-Loaded (gets name) = get_collection-Loaded name
  handled-Loaded (loads name) = load_collection-Loaded name
  handled-Loaded (releases name) = release_collection-Loaded name
  handled-Loaded (flushes name) = flush-Loaded name
  handled-Loaded (changes req) = index-Loaded req
  handled-Loaded (searches req) = search-Loaded new_struct req

  all_lem :
      (requests : List Request) (s : EdgeState V S) → Loaded s → Loaded (all_handled requests s)
  unfolding all_handled
  all_lem [] s l = l
  all_lem (r ∷ requests) s l = all_lem requests (handled r s) (handled-Loaded r s l)

  -- From a state in which nothing is loaded, after any requests, whatever their outcomes, each
  -- loaded collection exists and has its space in the registry.
  pub all_handled-Loaded :
      (requests : List Request) (s : EdgeState V S) → s.load ≡ [] → Loaded (all_handled requests s)
  all_handled-Loaded requests s e = all_lem requests s (started s e)

  get_lem : (name : Bytes) (s : EdgeState V S) → Loaded s → ¬ ((get_collection name s).0 ≡ panic)
  unfolding get_collection collection_detail reads read_space detail_of
  get_lem name s l p = let h = l name in ground arith

  -- After any such requests, GetCollection does not panic.
  pub get_collection-all_handled :
      (requests : List Request) (s : EdgeState V S) (name : Bytes)
      → s.load ≡ []
      → ¬ ((get_collection name (all_handled requests s)).0 ≡ panic)
  get_collection-all_handled requests s name e =
      get_lem name (all_handled requests s) (all_handled-Loaded requests s e)
