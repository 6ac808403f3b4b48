-- ===== src/Edge/Collections/Candidates.antt =====
-- scoreHelper of edge/edge_helper.go, and the loop of Search in edge/edge.go that turns the items
-- found into the candidates of the response.
use coltt.Prelude.{ℕ, Bool, List, [], ◌∷◌, ltb, if◌then◌else◌}
use coltt.Prelude.Float.{Floats, float32_nan, float32_rank}
use coltt.Prelude.Outcome.{Outcome, ok, ◌>>=◌}
use coltt.Inverted.Index.{Metadata}
use coltt.Edge.Queue.{SearchResultItem}

pub record Candidate : Type 0 where
  pub metadata : Metadata
  pub score : ℕ

module _ ⦃floats : Floats⦄ where
  open floats use {sub32, div32, mul32}

  -- float32(math.Max(0, float64(x)))
  abbrev max_zero : ℕ → ℕ
  max_zero x = if float32_nan x then x else if ltb (float32_rank 0) (float32_rank x) then x else 0

  -- ((2 - score) / 2) * 100 for the cosine, and 100 - score, but not below 0, for the other
  unfoldable pub score_helper : ℕ → Bool → ℕ
  score_helper score is_cosine =
      if is_cosine
      then mul32 (div32 (sub32 0x40000000 score) 0x40000000) 0x42c80000
      else max_zero (sub32 0x42c80000 score)

  -- The loop over the items; `new_struct` is structpb.NewStruct.
  unfoldable pub candidates :
      (Metadata → Outcome Metadata) → Bool → List SearchResultItem → Outcome (List Candidate)
  candidates new_struct is_cosine [] = ok []
  candidates new_struct is_cosine (item ∷ items) = do
    st ← new_struct item.metadata
    rest ← candidates new_struct is_cosine items
    ok (record { metadata = st; score = score_helper item.score is_cosine } ∷ rest)
