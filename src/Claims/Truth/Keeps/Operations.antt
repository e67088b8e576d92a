-- ===== src/Claims/Truth/Keeps/Operations.antt =====
-- claims/truth.py: a property of the database that the writes keep is kept by every operation.
use memory_os.Base.{
  ℕ, String, Bool, true, false, ◌&&◌, Option, none, some, List, [], ◌∷◌, ok, expect, value_error,
  Returns, Returns-bind, Returns-after, Returns-for_each, Returns-if, for_each, if◌then◌else◌,
}
use memory_os.Domain.{
  ClaimStatus, ClaimStaleState, ConflictStrategy, ClaimRelationType, RelationMethod, is_supersede,
  is_reject, is_superseded, is_contested, is_accepted,
}
use memory_os.Store.{Db, ClaimRow, MemoryRow, get_claim, get_memory}
use memory_os.Claims.Canonical.{Texts}
use memory_os.Claims.Extraction.{ClaimCandidate}
use memory_os.Claims.Versioning.{transition}
use memory_os.Claims.Truth.Services.{Services, claims_of, refresh, text_or}
use memory_os.Claims.Truth.Relations.{claims_conflict}
use memory_os.Claims.Truth.Ensure.{ensure_claims}
use memory_os.Claims.Truth.Lifecycle.{
  to_status, transition_each, unless_rejected, unless_historical, unless_closed, unless_marked,
  forgetting, expiring, resetting, marking, confirming, is_unknown_or_active, reject_claims,
  forget_claims, expire_claims, mark_memory_stale, reset_claims, contest, contest_both,
  apply_manual_conflict_resolution,
}
use memory_os.Claims.Truth.Activation.{
  accepting, refusing, superseding, contesting, supersede, keep_both, settle, activate_claim,
  active_claims, resolve_claims, activate_claims,
}
use memory_os.Claims.Truth.Keeps.{
  IsClosed, First, transition-keeps, transition_each-keeps, move_unless-keeps, add_relation-keeps,
  ensure_claims-keeps,
}

module _ (P : Db → Type 0) (c : IsClosed P) where
  module _ (t : Texts) (now : ℕ) (db : Db) (w : P db) where
    pub reject_claims-keeps :
        (id : ℕ) (actor reason : String) → Returns P (reject_claims t now db id actor reason)
    unfolding reject_claims
    reject_claims-keeps id actor reason =
        transition_each-keeps P c t now unless_rejected
          (λ c. to_status ClaimStatus.rejected actor reason) none (claims_of db id) db w

    pub forget_claims-keeps :
        (id : ℕ) (actor : String) → Returns P (forget_claims t now db id actor)
    unfolding forget_claims
    forget_claims-keeps id actor =
        transition_each-keeps P c t now unless_historical (λ c. forgetting actor) none
          (claims_of db id) db w

    pub expire_claims-keeps :
        (id : ℕ) (reason : String) (at : ℕ) → Returns P (expire_claims t now db id reason at)
    unfolding expire_claims
    expire_claims-keeps id reason at =
        transition_each-keeps P c t now unless_closed (expiring reason at) (some at)
          (claims_of db id) db w

    pub mark_memory_stale-keeps :
        (id : ℕ) (state : ClaimStaleState) (actor : String)
        → Returns P (mark_memory_stale t now db id state actor)
    unfolding mark_memory_stale
    mark_memory_stale-keeps id state actor =
        transition_each-keeps P c t now (unless_marked state) (λ c. marking state actor) none
          (claims_of db id) db w

  module _ (t : Texts) (now : ℕ) (actor : String) where
    contest-keeps :
        (explanation : String) (db : Db) (p : ClaimRow × ClaimRow)
        → P db
        → Returns P (contest t now actor explanation db p)
    unfolding contest
    contest-keeps explanation db (row, other) w =
        let claim = refresh db row in
        let change = confirming t actor explanation other in
        Returns-if P (is_accepted claim.status) (transition t now db claim.id change none) (ok db)
          (transition-keeps P c t now db claim.id change none w) w

    contest_both-keeps :
        (explanation : String) (left right : ClaimRow) (db : Db)
        → P db
        → Returns P (contest_both t now actor explanation left right db)
    unfolding contest_both
    contest_both-keeps explanation left right db w =
        let both = (left, right) ∷ (right, left) ∷ [] in
        Returns-if P
          (is_unknown_or_active (get_memory db left.memory_id)
            && is_unknown_or_active (get_memory db right.memory_id))
          (for_each (contest t now actor explanation) both db) (ok db)
          (Returns-for_each P (contest t now actor explanation) (contest-keeps explanation) both db
            w)
          w

    pub apply_manual_conflict_resolution-keeps :
        (db : Db) (left_id right_id : ℕ) (confirmed : Bool) (rationale : Option String)
        → P db
        → Returns P
            (apply_manual_conflict_resolution t now db left_id right_id confirmed actor rationale)
    unfolding apply_manual_conflict_resolution
    apply_manual_conflict_resolution-keeps db left_id right_id false rationale w = w
    apply_manual_conflict_resolution-keeps db left_id right_id true rationale w =
        let explanation = text_or rationale "Possible conflict manually confirmed" in
        Returns-after P (expect (get_claim db left_id) value_error) _ (λ left e.
          Returns-after P (expect (get_claim db right_id) value_error) _ (λ right k.
            contest_both-keeps explanation left right _ (
              add_relation-keeps P c left right ClaimRelationType.contradicts RelationMethod.manual
                db w)))

  module _ (t : Texts) (now : ℕ) (strategy : Option ConflictStrategy) (rationale : Option String)
      (actor : String) (row : ClaimRow) where
    supersede-keeps :
        (active : ClaimRow) (db : Db)
        → P db
        → Returns P (supersede t now strategy rationale actor row active db)
    unfolding supersede
    supersede-keeps active db w =
        Returns-bind P P _ _
          (move_unless-keeps P c t now is_superseded (superseding t now rationale actor row) active
            db w)
          (λ d h. add_relation-keeps P c row active ClaimRelationType.supersedes _ d h)

    keep_both-keeps :
        (active : ClaimRow) (db : Db)
        → P db
        → Returns P (keep_both t now strategy rationale actor row active db)
    unfolding keep_both
    keep_both-keeps active db w =
        Returns-bind P P _ _
          (move_unless-keeps P c t now is_contested (λ c. contesting t rationale actor active) row
            db w)
          (λ d h.
            Returns-bind P P _ _
              (move_unless-keeps P c t now is_contested (λ c. contesting t rationale actor row)
                active d h)
              (λ d h. add_relation-keeps P c row active ClaimRelationType.contradicts _ d h))

    settle-keeps :
        (db : Db) (active : ClaimRow)
        → P db
        → Returns P (settle t now strategy rationale actor row db active)
    unfolding settle
    settle-keeps db active w =
        let superseded = supersede t now strategy rationale actor row active db in
        let kept = keep_both t now strategy rationale actor row active db in
        Returns-if P (claims_conflict t db (refresh db row) (refresh db active))
          (if is_supersede strategy then superseded else kept) (ok db)
          (Returns-if P (is_supersede strategy) superseded kept (supersede-keeps active db w)
            (keep_both-keeps active db w))
          w

    activate_claim-keeps :
        (actives : List ClaimRow) (db : Db)
        → P db
        → Returns P (activate_claim t now strategy rationale actor actives db row)
    unfolding activate_claim
    activate_claim-keeps actives db w =
        Returns-bind P P _ _
          (move_unless-keeps P c t now is_accepted (λ c. accepting rationale actor) row db w)
          (λ d h.
            Returns-for_each P (settle t now strategy rationale actor row) settle-keeps actives d h)

  module _ (s : Services) (now : ℕ) (db : Db) (w : P db) where
    pub activate_claims-keeps :
        (memory : MemoryRow) (strategy : Option ConflictStrategy) (conflicts : List MemoryRow)
        (rationale : Option String) (actor : String)
        → Returns P (activate_claims s now db memory strategy conflicts rationale actor)
    unfolding activate_claims resolve_claims
    activate_claims-keeps memory strategy conflicts rationale actor =
        let step = λ (d : Db).
          activate_claim s.texts now strategy rationale actor (active_claims conflicts d) in
        Returns-bind (First P c {A = List ClaimRow}) P (ensure_claims s now db memory none) _
          (ensure_claims-keeps P c s now db memory none w)
          (λ r h.
            Returns-if P (is_reject strategy)
              (transition_each s.texts now (λ c. true) (λ c. refusing rationale actor) none r.1 r.0)
              (for_each (step r.0) r.1 r.0)
              (transition_each-keeps P c s.texts now (λ c. true) (λ c. refusing rationale actor)
                none r.1 r.0 h)
              (Returns-for_each P (step r.0)
                (λ d row k.
                  activate_claim-keeps s.texts now strategy rationale actor row
                    (active_claims conflicts r.0) d k)
                r.1 r.0 h))

    pub reset_claims-keeps :
        (memory : MemoryRow) (candidates : Option (List ClaimCandidate))
        → Returns (First P c {A = List ClaimRow}) (reset_claims s now db memory candidates)
    unfolding reset_claims
    reset_claims-keeps memory candidates =
        Returns-bind P (First P c {A = List ClaimRow}) _ _
          (transition_each-keeps P c s.texts now unless_closed (λ c. resetting) none
            (claims_of db memory.id) db w)
          (λ d h. ensure_claims-keeps P c s now d memory candidates h)
