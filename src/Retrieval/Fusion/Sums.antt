-- ===== src/Retrieval/Fusion/Sums.antt =====
-- retrieval_v2/fusion.py: the score of a memory is the sum of its shares, one for each place that it
-- has in a ranking.
use memory_os.Base.{
  ℕ, ◌+◌, ◌≡◌, refl, sym, ap, ◌∙◌, String, Option, none, some, List, [], ◌∷◌, ◌++◌, or_default,
  ◌==◌, ==_iff, if◌then◌else◌, Floats, Bool-cases, inl, inr, arith,
}
use memory_os.Retrieval.Fusion.{
  put, get, Fused, empty, weight_of, credit, fuse_channel, fuse_rankings, reciprocal_rank_fusion,
}

get-put {ℓ} :
    {V : Type ℓ} (j k : ℕ) (v : V) (d : List (ℕ × V))
    → get ◌==◌ j (put ◌==◌ k v d) ≡ (if k == j then some v else get ◌==◌ j d)
unfolding put get
get-put j k v [] = refl
get-put j k v ((i, w) ∷ d) = ground (arith, ==_iff i k, ==_iff i j, ==_iff k j, get-put j k v d)

module _ (f : Floats) where
  open f use {Float, zero_float, one_float, plus, over}

  -- The shares of a memory, in the order in which the rankings are read.
  abbrev pub channel_shares : Float → ℕ → ℕ → List ℕ → ℕ → List Float
  channel_shares weight k rank [] id = []
  channel_shares weight k rank (x ∷ ids) id =
      if x == id
      then over weight (k + rank) ∷ channel_shares weight k (rank + 1) ids id
      else channel_shares weight k (rank + 1) ids id

  abbrev pub shares : List (String × Float) → ℕ → List (String × List ℕ) → ℕ → List Float
  shares weights k [] id = []
  shares weights k ((channel, ids) ∷ rankings) id =
      channel_shares (weight_of f weights channel) k 1 ids id ++ shares weights k rankings id

  -- A sum on top of what is there.
  abbrev pub add_shares : Option Float → List Float → Option Float
  add_shares total [] = total
  add_shares total (s ∷ more) = add_shares (some (plus (or_default total zero_float) s)) more

  add_shares-append :
      (total : Option Float) (xs ys : List Float)
      → add_shares total (xs ++ ys) ≡ add_shares (add_shares total xs) ys
  add_shares-append total [] ys = refl
  add_shares-append total (x ∷ xs) ys =
      add_shares-append (some (plus (or_default total zero_float) x)) xs ys

  fuse_channel-scores :
      (weight : Float) (k : ℕ) (channel : String) (rank : ℕ) (ids : List ℕ) (fused : Fused f)
      (id : ℕ)
      → get ◌==◌ id (fuse_channel f weight k channel rank ids fused).scores
        ≡ add_shares (get ◌==◌ id fused.scores) (channel_shares weight k rank ids id)
  unfolding fuse_channel credit
  fuse_channel-scores weight k channel rank [] fused id = refl
  fuse_channel-scores weight k channel rank (x ∷ ids) fused id =
      fuse_channel-scores weight k channel (rank + 1) ids (credit f weight k channel rank fused x)
        id
      ∙ elim (Bool-cases (x == id)) [
        | inl e ↦
            let at : x ≡ id = (==_iff x id).0 e in
            rw (
              get-put id x
                  (plus (or_default (get ◌==◌ x fused.scores) zero_float) (over weight (k + rank)))
                  fused.scores,
              e,
              at,
            )
        | inr e ↦ rw (
          get-put id x
              (plus (or_default (get ◌==◌ x fused.scores) zero_float) (over weight (k + rank)))
              fused.scores,
          e,
        )
      ]

  fuse_rankings-scores :
      (weights : List (String × Float)) (k : ℕ) (rankings : List (String × List ℕ))
      (fused : Fused f) (id : ℕ)
      → get ◌==◌ id (fuse_rankings f weights k rankings fused).scores
        ≡ add_shares (get ◌==◌ id fused.scores) (shares weights k rankings id)
  unfolding fuse_rankings
  fuse_rankings-scores weights k [] fused id = refl
  fuse_rankings-scores weights k ((channel, ids) ∷ rankings) fused id =
      let weight = weight_of f weights channel in
      fuse_rankings-scores weights k rankings (fuse_channel f weight k channel 1 ids fused) id
      ∙ ap (λ t. add_shares t (shares weights k rankings id))
          (fuse_channel-scores weight k channel 1 ids fused id)
      ∙ sym (
          add_shares-append (get ◌==◌ id fused.scores) (channel_shares weight k 1 ids id)
            (shares weights k rankings id))

  -- The fused score of a memory is the sum of weight / (k + rank) over its places in the rankings, in
  -- the order of the channels; a memory in no ranking has none.
  pub reciprocal_rank_fusion-scores :
      (weights : List (String × Float)) (k : ℕ) (rankings : List (String × List ℕ)) (id : ℕ)
      → get ◌==◌ id (reciprocal_rank_fusion f weights k rankings).scores
        ≡ add_shares none (shares weights k rankings id)
  unfolding reciprocal_rank_fusion get
  reciprocal_rank_fusion-scores weights k rankings id =
      fuse_rankings-scores weights k rankings (empty f) id
