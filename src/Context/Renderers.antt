-- ===== src/Context/Renderers.antt =====
-- context/renderers.py: the texts of a context and of a delta, and `SECTION_ORDER` of
-- retrieval/context.py. `str.splitlines` is an argument.
use memory_os.Base.{
  String, Bool, ◌&&◌, List, [], ◌∷◌, ◌++◌, map, keep, sort_by, ltb, str_eq, starts_with, slice, len,
  text_before, append_text, is_empty, if◌then◌else◌, Result, ok, raise, value_error, ◌>>=◌,
}
use memory_os.Context.Delta.{Item, DeltaPlan}

abbrev pub section_order : List String
section_order =
    "CURRENT DECISIONS" ∷ "ACTIVE CONSTRAINTS" ∷ "KNOWN FAILURES / DO NOT REPEAT"
    ∷ "RELEVANT PREFERENCES" ∷ "CURRENT BRANCH / TASK STATE" ∷ "HISTORICAL / SUPERSEDED" ∷ []

-- `"\n".join(lines)`
unfoldable pub join_lines : List String → String
join_lines [] = ""
join_lines (line ∷ []) = line
join_lines (line ∷ next ∷ lines) = append_text line (append_text "\n" (join_lines (next ∷ lines)))

-- The lines of a section; none for a section with no entry.
unfoldable pub section_lines : List Item → String → List String
section_lines items name = elim (keep (λ i. str_eq i.section name) items) [
  | [] ↦ []
  | i ∷ rest ↦ "" ∷ name ∷ map (λ (x : Item). x.rendered_text) (i ∷ rest)
]

unfoldable pub all_sections : List Item → List String → List String
unfolding section_lines
all_sections items [] = []
all_sections items (name ∷ names) = section_lines items name ++ all_sections items names

unfoldable pub render_full_items : List Item → String
unfolding all_sections join_lines
render_full_items items = join_lines (
    "Project Memory Context v2.3"
    ∷ all_sections (sort_by (λ a b. ltb a.ordinal b.ordinal) items) section_order)

-- A heading and its lines, if there are any.
abbrev titled : String → List String → List String
titled title [] = []
titled title (line ∷ lines) = "" ∷ title ∷ line ∷ lines

abbrev pub is_unchanged : DeltaPlan → Bool
is_unchanged p = is_empty p.added && is_empty p.changed && is_empty p.removed

module _ (splitlines : String → List String) where
  -- `_prefix_atom`; an empty text has no first line to unpack.
  unfoldable pub prefix_atom : String → String → Result String
  unfolding join_lines
  prefix_atom prefix rendered = elim (splitlines rendered) [
    | [] ↦ raise value_error
    | first ∷ remaining ↦
        let normalized = if starts_with first "- " then slice first 2 (len first) else first in
        ok (join_lines (append_text prefix (append_text " " normalized) ∷ remaining))
  ]

  unfoldable pub prefix_atoms : String → List Item → Result (List String)
  unfolding prefix_atom
  prefix_atoms prefix [] = ok []
  prefix_atoms prefix (i ∷ items) = do
    line ← prefix_atom prefix i.rendered_text
    lines ← prefix_atoms prefix items
    ok (line ∷ lines)

  unfoldable pub removed_line : Item → String
  removed_line i = append_text "- [" (
      append_text i.memory_id
        (append_text " @ " (append_text i.atom_sha256 "] no longer present in current context")))

  unfoldable pub render_delta : DeltaPlan → Result String
  unfolding prefix_atoms removed_line join_lines
  render_delta p = do
    added ← prefix_atoms "+" p.added
    changed ← prefix_atoms "~" p.changed
    let removed = map removed_line (sort_by (λ a b. text_before a.memory_id b.memory_id) p.removed)
    ok (
        join_lines (
          "Memory Context Delta v2.3"
          ∷ (titled "ADDED" added
              ++ titled "CHANGED" changed
              ++ titled "REMOVED" removed
              ++ (if is_unchanged p then "" ∷ "No memory-context changes." ∷ [] else []))))
