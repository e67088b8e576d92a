-- ===== src/Claims/Versioning/Timeline.antt =====
-- claims/versioning.py: the history of a claim is a chain of half-open intervals of knowledge.
use memory_os.Base.{
  ℕ, suc, ◌<◌, ◌≡◌, ◌≢◌, refl, ◌∙◌, none, some, List, [], ◌∷◌, keep, length, All, sym, arith,
}
use memory_os.Store.{ClaimVersionRow}
use memory_os.Claims.Versioning.{newest, max_number, history, is_open, end_version}

-- The versions that a later version, recorded at `moment`, has ended: each ends where the next one
-- begins, begins before that, and has the next smaller number.
abbrev pub IsEnded : ℕ → List ClaimVersionRow → Type 0
IsEnded moment [] = Unit
IsEnded moment (v ∷ rest) =
    (v.transaction_to ≡ some moment)
    × (v.transaction_from < moment)
    × (v.version_number ≡ suc (length rest))
    × IsEnded v.transaction_from rest

-- The whole history of a claim, newest first: only the newest version is open, the numbers count
-- down to 1, and the intervals of transaction time meet with no gap and no overlap.
abbrev pub IsTimeline : List ClaimVersionRow → Type 0
IsTimeline [] = Unit
IsTimeline (v ∷ rest) =
    (v.transaction_to ≡ none)
    × (v.version_number ≡ suc (length rest))
    × IsEnded v.transaction_from rest

-- Every claim's rows in the table are a timeline.
abbrev pub IsWellFormed : List ClaimVersionRow → Type 0
IsWellFormed rows = (claim_id : ℕ) → IsTimeline (history claim_id rows)

open_of_ended : (m : ℕ) (rows : List ClaimVersionRow) → IsEnded m rows → keep is_open rows ≡ []
unfolding keep
open_of_ended m [] h = refl
open_of_ended m (v ∷ rest) h = ground (arith, open_of_ended v.transaction_from rest h.3)

-- The open row of a timeline is its first.
pub newest-open :
    (v : ClaimVersionRow) (rest : List ClaimVersionRow)
    → IsTimeline (v ∷ rest)
    → newest (keep is_open (v ∷ rest)) ≡ some v
unfolding keep newest
newest-open v rest h = ground (arith, open_of_ended v.transaction_from rest h.2)

numbers_of_ended :
    (m : ℕ) (rows : List ClaimVersionRow) → IsEnded m rows → max_number rows ≡ length rows
unfolding max_number
numbers_of_ended m [] h = refl
numbers_of_ended m (v ∷ rest) h = ground (arith, numbers_of_ended v.transaction_from rest h.3)

history-keeps : (c : ℕ) (rows : List ClaimVersionRow) → history c (history c rows) ≡ history c rows
unfolding history keep
history-keeps c [] = refl
history-keeps c (v ∷ rest) = ground (arith, history-keeps c rest)

-- Ending a version does not move a row to another claim.
pub history-end_version :
    (c m : ℕ) (current : ClaimVersionRow) (rows : List ClaimVersionRow)
    → history c (end_version current m rows) ≡ end_version current m (history c rows)
unfolding history keep end_version
history-end_version c m current [] = refl
history-end_version c m current (v ∷ rest) = ground (arith, history-end_version c m current rest)

-- It does nothing to the rows of other claims.
pub end_version_other :
    (c m : ℕ) (current : ClaimVersionRow) (rows : List ClaimVersionRow)
    → c ≢ current.claim_id
    → end_version current m (history c rows) ≡ history c rows
unfolding history keep end_version
end_version_other c m current [] h = refl
end_version_other c m current (v ∷ rest) h = ground (arith, end_version_other c m current rest h)

-- It does nothing to rows with smaller numbers.
end_version_ended :
    (n m : ℕ) (current : ClaimVersionRow) (rows : List ClaimVersionRow)
    → IsEnded n rows
    → length rows < current.version_number
    → end_version current m rows ≡ rows
unfolding end_version
end_version_ended n m current [] h k = refl
end_version_ended n m current (v ∷ rest) h k =
    ground (arith, end_version_ended v.transaction_from m current rest h.3)

abbrev pub Belongs : ℕ → List ClaimVersionRow → Type 0
Belongs c = All (λ v. v.claim_id ≡ c)

pub history-Belongs : (c : ℕ) (rows : List ClaimVersionRow) → Belongs c (history c rows)
unfolding history keep
history-Belongs c [] = tt
history-Belongs c (v ∷ rest) = ground (arith, history-Belongs c rest)

-- Ending the open version of a timeline leaves ended versions alone, with the same count.
pub end_open :
    (c m : ℕ) (current : ClaimVersionRow) (h : List ClaimVersionRow)
    → IsTimeline h
    → Belongs c h
    → newest (keep is_open h) ≡ some current
    → current.transaction_from < m
    → IsEnded m (end_version current m h)
      × (max_number (end_version current m h) ≡ length (end_version current m h))
      × (current.claim_id ≡ c)
unfolding newest keep
end_open c m current [] t b e k = cc
end_open c m current (v ∷ rest) t b e k =
    let same : some v ≡ some current = sym (newest-open v rest t) ∙ e in
    let ended : IsEnded m (end_version current m (v ∷ rest)) =
      unfold end_version in
      ground (arith, end_version_ended v.transaction_from m current rest t.2, same) in
    (ended, numbers_of_ended m (end_version current m (v ∷ rest)) ended, ground (arith, same))
