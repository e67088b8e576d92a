-- ===== src/Entities/Merge.antt =====
-- entities/resolver.py: what `merge` does to the redirects.
use memory_os.Base.{
  ℕ, zero, suc, ◌<◌, find, row_at, ◌≡◌, ◌≢◌, refl, sym, ap, ◌∙◌, subst, true, false, String, none,
  some, List, [], ◌∷◌, length, ◌==◌, ==_iff, arith, any, ok, raise, expect, expect-eq-ok, require,
  >>=-eq-ok, ok_pair, value_error, not_found, find_sound, row_at-update_at, row_at-update_at_other,
}
use mathlib.Core.Path.{ap₂}
use memory_os.Store.{Db, EntityRow, get_entity, update_entity}
use memory_os.Claims.Canonical.{Texts}
use memory_os.Entities.{
  is_seen, follow, follow_redirect, same_kind, combined_aliases, sorted_set, link, merge,
}
use memory_os.Entities.Redirects.{IsChain, follow-step, follow_redirect_iff}

abbrev redirected : ℕ → EntityRow → EntityRow
redirected id row = record row { redirect_to_id = some id }

id_of_stored : (db : Db) (id : ℕ) {e : EntityRow} → get_entity db id ≡ some e → e.id ≡ id
unfolding get_entity
id_of_stored db id {e} h =
    (==_iff e.id id).0 (find_sound (λ (row : EntityRow). row.id == id) db.entities h)

module _ (t : Texts) (source target : EntityRow) (actor : String) (db : Db) where
  source-link :
      source.id ≢ target.id
      → get_entity db source.id ≡ some source
      → get_entity (link t source target actor db) source.id ≡ some (redirected target.id source)
  unfolding link get_entity update_entity
  source-link apart stored =
      row_at-update_at (λ row. row.id) (redirected target.id) (λ row. refl) source.id _
        (row_at-update_at_other (λ row. row.id) (λ row. record row { aliases = _ }) (λ row. refl)
            target.id source.id db.entities (λ e. apart (sym e))
          ∙ stored)

  target-link :
      source.id ≢ target.id
      → get_entity db target.id ≡ some target
      → (named : List String) × (get_entity (link t source target actor db) target.id
          ≡ some (record target { aliases = named }))
  unfolding link get_entity update_entity
  target-link apart stored = (
    sorted_set (combined_aliases t source target),
    row_at-update_at_other (λ row. row.id) (redirected target.id) (λ row. refl) source.id target.id
          _ apart
        ∙ row_at-update_at (λ row. row.id)
            (λ row. record row { aliases = sorted_set (combined_aliases t source target) })
            (λ row. refl) target.id db.entities stored,
  )

stored_nonempty :
    (db : Db) (id : ℕ) {e : EntityRow} → get_entity db id ≡ some e → 0 < length db.entities
unfolding get_entity find
stored_nonempty db id {e} h = go db.entities h
  where
    go : (rows : List EntityRow) → row_at (λ row. row.id) id rows ≡ some e → 0 < length rows
    go [] h = cc
    go (x ∷ rows) h = omega arith

seen_again : (a id : ℕ) → is_seen (id ∷ a ∷ []) a ≡ true
unfolding any
seen_again a id = ground arith

two_cycle :
    (db : Db) (a b : EntityRow) (id : ℕ)
    → a.redirect_to_id ≡ some id
    → get_entity db id ≡ some b
    → a.id ≢ id
    → b.redirect_to_id ≡ some a.id
    → follow_redirect db a ≡ raise value_error
unfolding follow_redirect any
two_cycle db a b id next found apart back = go (length db.entities) (stored_nonempty db id found)
  where
    go : (n : ℕ) → 0 < n → follow db (suc n) (a.id ∷ []) a ≡ raise value_error
    go zero h = absurd (omega arith)
    go (suc n) h =
        let apart' : (a.id == id) ≡ false = ground arith in
        follow-step db (suc n) (a.id ∷ []) a id next
        ∙ rw (apart', found)
            (follow-step db n (id ∷ a.id ∷ []) b a.id back ∙ rw (seen_again a.id id) refl)

-- A merge that returned, taken apart.
merge-eq-ok :
    (t : Texts) (db : Db) (source_id target_id : ℕ) (actor : String) {db' : Db} {row : EntityRow}
    → merge t db source_id target_id actor ≡ ok (db', row)
    → (source : EntityRow) × (target : EntityRow) × (get_entity db source_id ≡ some source)
      × (get_entity db target_id ≡ some target)
      × (link t source target actor db ≡ db')
      × (get_entity db' target.id ≡ some row)
unfolding merge
merge-eq-ok t db source_id target_id actor {db'} {row} h =
    let (source, at_source, h1) = >>=-eq-ok (expect (get_entity db source_id) not_found) _ h in
    let (target, at_target, h2) = >>=-eq-ok (expect (get_entity db target_id) not_found) _ h1 in
    let (_, _, h3) = >>=-eq-ok (require (same_kind source target) value_error) _ h2 in
    let linked = link t source target actor db in
    let (r, at_row, h4) = >>=-eq-ok (expect (get_entity linked target.id) not_found) _ h3 in
    let (same_db, same_row) = ok_pair h4 in
    (
      source,
      target,
      expect-eq-ok _ not_found at_source,
      expect-eq-ok _ not_found at_target,
      same_db,
      subst (λ d. get_entity d target.id ≡ some row) same_db
          (expect-eq-ok _ not_found at_row ∙ ap some same_row),
    )

module _ (t : Texts) (db : Db) (source_id target_id : ℕ) (actor : String) {db' : Db}
    {row : EntityRow} (apart : source_id ≢ target_id)
    (merged : merge t db source_id target_id actor ≡ ok (db', row)) where
  after_merge :
      (source : EntityRow) × (target : EntityRow) × (get_entity db target_id ≡ some target)
      × (source.id ≡ source_id)
      × (get_entity db' source_id ≡ some (redirected target_id source))
      × (get_entity db' target_id ≡ some row)
      × (row.redirect_to_id ≡ target.redirect_to_id)
  after_merge =
      let (source, target, at_source, at_target, same_db, at_row) =
        merge-eq-ok t db source_id target_id actor merged in
      let s : source.id ≡ source_id = id_of_stored db source_id at_source in
      let g : target.id ≡ target_id = id_of_stored db target_id at_target in
      let differ : source.id ≢ target.id = λ e. apart (sym s ∙ e ∙ g) in
      let linked = source-link t source target actor db differ (rw s at_source) in
      let (named, kept) = target-link t source target actor db differ (rw g at_target) in
      let is_row : some row ≡ some (record target { aliases = named }) =
        sym at_row ∙ ap (λ d. get_entity d target.id) (sym same_db) ∙ kept in
      let same_row : row ≡ record target { aliases = named } = cc is_row in
      (
        source,
        target,
        at_target,
        s,
        ap₂ get_entity (sym same_db) (sym s) ∙ linked ∙ ap (λ i. some (redirected i source)) g,
        subst (λ i. get_entity db' i ≡ some row) g at_row,
        ap (λ r. r.redirect_to_id) same_row,
      )

  -- If two different entities are merged and the target had no redirect, then the source afterwards
  -- resolves to the entity that the merge returned.
  pub merge-follow_redirect :
      {target : EntityRow}
      → get_entity db target_id ≡ some target
      → target.redirect_to_id ≡ none
      → (source : EntityRow) × (get_entity db' source_id ≡ some source)
        × (follow_redirect db' source ≡ ok row)
  merge-follow_redirect {target} stored root =
      let (source, target', at_target, s, at_source, at_row, redirect) = after_merge in
      let same : target ≡ target' = cc (stored, at_target) in
      let moved = redirected target_id source in
      let end : row.redirect_to_id ≡ none =
        redirect ∙ subst (λ x. x.redirect_to_id ≡ none) same root in
      (
        moved,
        at_source,
        (follow_redirect_iff db' moved row
              (subst (λ i. get_entity db' i ≡ some moved) (sym s) at_source)).1
            (1, (unfold IsChain in (target_id, row, refl, at_row, refl), end)),
      )

  -- If two different entities are merged and the target redirected to the source, then the source
  -- afterwards lies on a cycle: resolving it raises `ValueError`.
  pub merge-cycle :
      {target : EntityRow}
      → get_entity db target_id ≡ some target
      → target.redirect_to_id ≡ some source_id
      → (source : EntityRow) × (get_entity db' source_id ≡ some source)
        × (follow_redirect db' source ≡ raise value_error)
  merge-cycle {target} stored back =
      let (source, target', at_target, s, at_source, at_row, redirect) = after_merge in
      let same : target ≡ target' = cc (stored, at_target) in
      let moved = redirected target_id source in
      let returns : row.redirect_to_id ≡ some moved.id =
        redirect ∙ subst (λ x. x.redirect_to_id ≡ some source_id) same back ∙ ap some (sym s) in
      (
        moved,
        at_source,
        two_cycle db' moved row target_id refl at_row (λ e. apart (sym s ∙ e)) returns,
      )
