-- ===== src/Retrieval/Fusion.antt =====
-- retrieval_v2/fusion.py: `reciprocal_rank_fusion`. Dictionaries are association lists; a memory is
-- its number, a channel its name.
pub mod Sums
use memory_os.Base.{
  ℕ, suc, ◌+◌, String, Bool, true, false, Option, none, some, List, [], ◌∷◌, or_default, ◌==◌,
  str_eq, if◌then◌else◌, Floats,
}

-- `d[key] = value` and `d.get(key)`
module _ {ℓ κ} {K : Type ℓ} {V : Type κ} (same : K → K → Bool) where
  unfoldable pub put : K → V → List (K × V) → List (K × V)
  put k v [] = (k, v) ∷ []
  put k v ((j, w) ∷ d) = let rest = put k v d in if same j k then (j, v) ∷ d else (j, w) ∷ rest

  unfoldable pub get : K → List (K × V) → Option V
  get k [] = none
  get k ((j, w) ∷ d) = let rest = get k d in if same j k then some w else rest

module _ (f : Floats) where
  open f use {Float, zero_float, one_float, plus, over}

  -- What the two dictionaries hold: scores, and the ranks by channel.
  pub record Fused : Type 0 where
    pub scores : List (ℕ × Float)
    pub traces : List (ℕ × List (String × ℕ))

  abbrev pub empty : Fused
  empty = record { scores = []; traces = [] }

  -- `configured.get(channel, 1.0)`
  abbrev pub weight_of : List (String × Float) → String → Float
  weight_of weights channel = or_default (get str_eq channel weights) one_float

  -- The body of the inner loop.
  unfoldable pub credit : Float → ℕ → String → ℕ → Fused → ℕ → Fused
  unfolding put get
  credit weight k channel rank fused id = record {
    scores =
        put ◌==◌ id
          (plus (or_default (get ◌==◌ id fused.scores) zero_float) (over weight (k + rank)))
          fused.scores;
    traces =
        put ◌==◌ id (put str_eq channel rank (or_default (get ◌==◌ id fused.traces) []))
          fused.traces;
  }

  -- `for rank, item_id in enumerate(ids, start=rank)`
  unfoldable pub fuse_channel : Float → ℕ → String → ℕ → List ℕ → Fused → Fused
  unfolding credit
  fuse_channel weight k channel rank [] fused = fused
  fuse_channel weight k channel rank (id ∷ ids) fused =
      fuse_channel weight k channel (rank + 1) ids (credit weight k channel rank fused id)

  unfoldable pub fuse_rankings : List (String × Float) → ℕ → List (String × List ℕ) → Fused → Fused
  unfolding fuse_channel
  fuse_rankings weights k [] fused = fused
  fuse_rankings weights k ((channel, ids) ∷ rankings) fused =
      fuse_rankings weights k rankings
        (fuse_channel (weight_of weights channel) k channel 1 ids fused)

  unfoldable pub reciprocal_rank_fusion : List (String × Float) → ℕ → List (String × List ℕ) → Fused
  unfolding fuse_rankings
  reciprocal_rank_fusion weights k rankings = fuse_rankings weights k rankings empty
