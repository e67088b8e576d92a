-- ===== src/Base/Tables.antt =====
-- A table as a list of rows with a key: a row by its key, and an assignment to the columns of it.
use Prim.Native.Nat.{ℕ}
use mathlib.Core.Path.{◌≡◌, refl, sym, ap, ◌∙◌}
use mathlib.Core.Bool.{true, false}
use mathlib.Core.Logic.{◌≢◌, inl, inr}
use mathlib.Core.Option.{Option, none, some}
use mathlib.Core.Option as Option
use mathlib.Core.List.{List, [], ◌∷◌, map}
use native.Mathlib.Omega.{arith}
use memory_os.Base.Tests.{if◌then◌else◌, ◌==◌, Bool-cases, ==_iff}
use memory_os.Base.Lists.{find}

module _ {ℓ} {A : Type ℓ} (key : A → ℕ) where
  abbrev pub row_at : ℕ → List A → Option A
  row_at id = find (λ row. key row == id)

  abbrev pub update_at : ℕ → (A → A) → List A → List A
  update_at id f = map (λ row. if key row == id then f row else row)

  module _ (f : A → A) (id : ℕ) (same_key : (row : A) → key row ≡ id → key (f row) ≡ id) where
    pub row_at-update_at_here :
        (rows : List A) {row : A}
        → row_at id rows ≡ some row
        → row_at id (update_at id f rows) ≡ some (f row)
    unfolding find
    row_at-update_at_here [] h = cc
    row_at-update_at_here (x ∷ rows) {row} h = elim (Bool-cases (key x == id)) [
      | inl e ↦
          let found : some x ≡ some row = rw (e, find) at h in
          let here : (key (f x) == id) ≡ true =
            (==_iff (key (f x)) id).1 (same_key x ((==_iff (key x) id).0 e)) in
          rw (e, here) (ap (λ o. Option.map f o) found)
      | inr e ↦
          let later : row_at id rows ≡ some row = rw (e, find) at h in
          rw (e, e) (row_at-update_at_here rows later)
    ]

    pub row_at-update_at_there :
        (other : ℕ) (rows : List A)
        → id ≢ other
        → row_at other (update_at id f rows) ≡ row_at other rows
    unfolding find
    row_at-update_at_there other [] h = refl
    row_at-update_at_there other (x ∷ rows) h = elim (Bool-cases (key x == id)) [
      | inl e ↦
          let at : key x ≡ id = (==_iff (key x) id).0 e in
          let moved : key (f x) ≡ id = same_key x at in
          let miss : (key x == other) ≡ false = ground (arith, at, h) in
          let missed : (key (f x) == other) ≡ false = ground (arith, moved, h) in
          rw (e, miss, missed) (row_at-update_at_there other rows h)
      | inr e ↦ rw (e, row_at-update_at_there other rows h)
    ]

    pub keys-update_at : (rows : List A) → map key (update_at id f rows) ≡ map key rows
    keys-update_at [] = refl
    keys-update_at (x ∷ rows) = elim (Bool-cases (key x == id)) [
      | inl e ↦
          let at : key x ≡ id = (==_iff (key x) id).0 e in
          rw e (cong2 (same_key x at ∙ sym at) (keys-update_at rows))
      | inr e ↦ rw e (ap (λ l. key x ∷ l) (keys-update_at rows))
    ]
      where
        cong2 : {a b : ℕ} {l k : List ℕ} → a ≡ b → l ≡ k → ◌≡◌ {A = List ℕ} (a ∷ l) (b ∷ k)
        cong2 h k = cc

  module _ (f : A → A) (same_key : (row : A) → key (f row) ≡ key row) where
    pub row_at-update_at :
        (id : ℕ) (rows : List A) {row : A}
        → row_at id rows ≡ some row
        → row_at id (update_at id f rows) ≡ some (f row)
    row_at-update_at id rows = row_at-update_at_here f id (λ row e. same_key row ∙ e) rows

    pub row_at-update_at_other :
        (id other : ℕ) (rows : List A)
        → id ≢ other
        → row_at other (update_at id f rows) ≡ row_at other rows
    row_at-update_at_other id other rows =
        row_at-update_at_there f id (λ row e. same_key row ∙ e) other rows
