-- ===== src/Lib.antt =====
-- coltt is a vector database. A collection is a vector space: vertices, each a vector with
-- metadata, and an inverted index from metadata values to the ids of the vertices. This library
-- models the package edge, which serves collections, down to the inverted index that it filters by,
-- and the two indexes of the package core: the tags and the graph of vectors.
--
-- The parts and their files:
--   Prelude and Prelude/*: lists, byte strings, Go maps as association lists (Dict), Go integers
--     and their binary forms (Int, Binary), floats as bit patterns (Float), the outcome of a call
--     (Outcome: a value, a returned error, or a panic), counting (Count).
--   Inverted/*: pkg/inverted. Value: a metadata value (interface{}); Filter: filter.go; Compare:
--     compareValues and satisfiesOp of bitmap_index.go; Index: getShard, Add and Remove of
--     bitmap_index.go; Search: search.go; Codec: save.go; Roaring: what the package uses of the
--     roaring bitmaps. The files under these hold the proofs.
--   Edge/Heap and Edge/Queue: edge/priority_queue.go over edge/priorityqueue/priority_queue.go and
--     Go's container/heap.
--   Edge/Analyzer: standardAnalyzer, defaultType and dropKeyAnalyzer of edge/edge_analyzer.go.
--   Edge/Query: queryExprAnalyzer of edge/edge_analyzer.go, with convertProtoOp and
--     convertProtoLogicalOperator of edge/edge_helper.go, over the messages of a request.
--   Edge/Sharding: ShardVertex and ShardVertexV2 of pkg/sharding/shard.go.
--   Edge/Space: edge/none_vectorstore.go. resolve_id, place_vertex and commit_vertex are the steps
--     of ChangedVertex in their order; drop_vertex and drop_all are the loop of RemoveVertex.
--     Edge/Space/Search: VertexSearch and FilterableVertexSearch. collect is what both do with the
--     items of the shards, in either mode.
--     Edge/Space/Save: SaveVertex and LoadVertex; Edge/Space/Files: the metadata file and the index
--     file, and what the three files restore.
--   Edge/Vectorstore: edge/vectorstore.go, the interface vectorspace and the registry of spaces.
--   Edge/Spaces: the spaces of edge/none_vectorstore.go, edge/f8_vectorstore.go,
--     edge/f16_vectorstore.go and edge/bf16_vectorstore.go behind that interface.
--   Edge/Storage: what is called of the object storage and of encoding/json.
--   Edge/Collections: edge/edge_state_manager.go and edge/edge_helper.go. Under it, Handlers and
--     Vertices: the handlers of edge/edge.go; Candidates: the candidates of a reply; Close: Close.
--     Requests runs any requests one after another; Triple states what holds after a call, by its
--     outcome, and Loaded, Rules, Kept and Handled are proofs; Stored and Restored treat the three
--     objects of a collection, and Replies the errors. Phases is the life cycle of a collection as
--     an abstract specification, which Quiet and Refines relate the handlers to.
--   Tags: pkg/index, the index that package core filters by (BitmapIndex there is TagIndex, Add
--     add_node and Remove remove_node); Tags/Held and Tags/Found are what it holds and finds,
--     and Tags/Files its file (save_index.go: serialize_tags and deserialize_tags).
--   Hnsw: core/vectorindex, the graph of vectors. The parent has the data and the writes to edge
--     sets (hnsw_config.go, hnsw_vertex.go, hnsw.go); Hnsw/Queue: priority_queue.go and the
--     selections of neighbors; Hnsw/Search: Search with greedyClosestNeighbor and searchLevel;
--     Hnsw/Change: Insert and Remove; Hnsw/Calls: any calls of them, and the map that they keep.
--     Hnsw/Search/Complete says what the edges lead to, as a data type.
--     Hnsw/Shape is the shape of the graph that all calls keep. The files under these hold the proofs.
--   Tests/*: bitmaps, floats and a sort to instantiate the parameters, and the theorems at
--     concrete inputs.
--
-- State is passed and returned: an operation that changes the index or the space returns its
-- outcome with the new state, also where it fails. Names follow the source in lower case:
-- SearchSingleFilter is search_single_filter, noneVecSpace is NoneVecSpace.
--
-- Bounds: a float is its bit pattern; a Go int or int64 is an integer in range; the lengths that
-- the index is stored with are cut to 32 bits as in the source. The loops of the heap run on fuel:
-- `up` from index j gets j + 1 rounds and halves the index in each, `down` over n items gets n + 1
-- rounds and the index grows in each, so the test of the loop fails before the fuel is used up;
-- Edge/Heap/Up and Edge/Heap/Down treat the loops. The walks of the graph get one round more than
-- there are vertices in the store: each round of the greedy walk leaves fewer vertices that are
-- nearer, and each round of searchLevel takes a candidate that does not come back. Out of fuel they
-- would panic. A removed vertex stays in the store, since edges may still lead to it. All else is
-- structural recursion.
--
-- Parameters: the object storage (Storage; Durable says that an available one keeps what was
-- written), encoding/json on the metadata (Json, with the round trip of the metadata that it
-- keeps), structpb.NewStruct, strconv and fmt.Sprintf (Formats), the commit ids that a request is
-- given, the conversions and similarities of the quantizations (Quantizers), roaring bitmaps
-- (Roaring) with the laws of a set, float arithmetic and conversions (Floats), sort.Slice (Sorter:
-- a sorted list of the same items), and the similarity of two vectors (Similarity, Distances): the
-- float arithmetic of pkg/distance, and which vectors it can be run on, since it checks no length
-- and panics where it cannot. A search over a space and the walks of the graph then panic too.
--
-- Not modelled: locks and goroutines (a call runs alone, and the goroutines of a search share
-- nothing but slots of their own), log messages and the text of errors, the integer types of Go
-- other than int and int64 in metadata, the goroutine and the channel of a handler, the handlers
-- of package core, Commit and Load of its graph, the option extendCandidates of the graph, the package
-- experimental.
pub mod Prelude
pub mod Inverted
pub mod Edge
pub mod Tags
pub mod Hnsw
mod Tests
