-- ===== src/Claims/Versioning/Latest.antt =====
-- claims/versioning.py: which version of a claim `visible_versions` takes from a timeline.
use memory_os.Base.{
  ℕ, ◌≤◌, true, false, ◌&&◌, none, some, List, [], ◌∷◌, ◌≡◌, refl, keep, leb, ltb, arith,
  Bool-cases, inl, inr, if◌then◌else◌,
}
use memory_os.Store.{ClaimVersionRow}
use memory_os.Claims.Versioning.{VersionQuery, is_visible_row}
use memory_os.Claims.Versioning.Timeline.{IsEnded, IsTimeline}

-- The version recorded last by the known time, if it holds at the valid time with a status asked for.
unfoldable pub latest_known : VersionQuery → List ClaimVersionRow → List ClaimVersionRow
latest_known q h = elim (keep (λ v. leb v.transaction_from q.known_time) h) [
  | [] ↦ []
  | v ∷ earlier ↦
      if (elim v.valid_from [ none ↦ true | some start ↦ leb start q.valid_time ])
        && (elim v.valid_to [ none ↦ true | some end ↦ ltb q.valid_time end ])
        && (elim q.statuses [ none ↦ true | some allowed ↦ allowed v.status ])
      then v ∷ []
      else []
]

-- What was ended before the known time is not visible.
unseen_of_ended :
    (q : VersionQuery) (m : ℕ) (rows : List ClaimVersionRow)
    → IsEnded m rows
    → m ≤ q.known_time
    → keep (is_visible_row q) rows ≡ []
unfolding keep is_visible_row
unseen_of_ended q m [] h k = refl
unseen_of_ended q m (v ∷ rest) h k =
    ground (arith, h, unseen_of_ended q v.transaction_from rest h.3)

visible_of_ended :
    (q : VersionQuery) (m : ℕ) (rows : List ClaimVersionRow)
    → IsEnded m rows
    → leb m q.known_time ≡ false
    → keep (is_visible_row q) rows ≡ latest_known q rows
unfolding keep is_visible_row latest_known
visible_of_ended q m [] h k = refl
visible_of_ended q m (v ∷ rest) h k = elim (Bool-cases (leb v.transaction_from q.known_time)) [
  | inl e ↦ ground (arith, e, h, unseen_of_ended q v.transaction_from rest h.3)
  | inr e ↦ ground (arith, e, h, visible_of_ended q v.transaction_from rest h.3 e)
]

pub keep-is_visible_row :
    (q : VersionQuery) (h : List ClaimVersionRow)
    → IsTimeline h
    → keep (is_visible_row q) h ≡ latest_known q h
unfolding keep is_visible_row latest_known
keep-is_visible_row q [] h = refl
keep-is_visible_row q (v ∷ rest) h = elim (Bool-cases (leb v.transaction_from q.known_time)) [
  | inl e ↦ ground (arith, e, h, unseen_of_ended q v.transaction_from rest h.2)
  | inr e ↦ ground (arith, e, h, visible_of_ended q v.transaction_from rest h.2 e)
]
