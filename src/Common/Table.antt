-- ===== src/Common/Table.antt =====
-- A table of the database as a list of rows, and what the statements of the stores do to it.
use mathlib.Core.Path.{◌≡◌, subst}
use mathlib.Core.Logic.{inl, inr}
use mathlib.Core.Bool.{Bool, true}
use mathlib.Core.Option.{some}
use mathlib.Core.List.{List, [], ◌∷◌}
use Prim.Native.Nat.{ℕ, ◌+◌}
use native.Mathlib.Omega.{arith}
use rdoc_cam_hub.Common.Compare.{if◌then◌else◌, Bool-cases}
use rdoc_cam_hub.Common.Lists.{find, All}

module _ {A : Type 0} where
  -- DELETE … WHERE
  unfoldable pub delete_where : (A → Bool) → List A → List A
  delete_where p [] = []
  delete_where p (r ∷ rows) = let rest = delete_where p rows in if p r then rest else r ∷ rest

  -- UPDATE … WHERE
  unfoldable pub update_where : (A → Bool) → (A → A) → List A → List A
  update_where p f [] = []
  update_where p f (r ∷ rows) = (if p r then f r else r) ∷ update_where p f rows

  -- SELECT … WHERE, of several rows
  unfoldable pub select_where : (A → Bool) → List A → List A
  select_where p [] = []
  select_where p (r ∷ rows) = let rest = select_where p rows in if p r then r ∷ rest else rest

  -- RowsAffected
  unfoldable pub count_where : (A → Bool) → List A → ℕ
  count_where p [] = 0
  count_where p (r ∷ rows) = (if p r then 1 else 0) + count_where p rows

  pub All-delete_where :
      (P : A → Type 0) (p : A → Bool) (rows : List A) → All P rows → All P (delete_where p rows)
  unfolding delete_where
  All-delete_where P p [] h = tt
  All-delete_where P p (r ∷ rows) (h, hs) = elim (Bool-cases (p r)) [
    | inl hit ↦ rw hit (All-delete_where P p rows hs)
    | inr miss ↦ rw miss (h, All-delete_where P p rows hs)
  ]

  pub All-update_where :
      (P : A → Type 0) (p : A → Bool) (f : A → A) (rows : List A)
      → ((r : A) → p r ≡ true → P r → P (f r))
      → All P rows
      → All P (update_where p f rows)
  unfolding update_where
  All-update_where P p f [] keep h = tt
  All-update_where P p f (r ∷ rows) keep (h, hs) = elim (Bool-cases (p r)) [
    | inl hit ↦ rw hit (keep r hit h, All-update_where P p f rows keep hs)
    | inr miss ↦ rw miss (h, All-update_where P p f rows keep hs)
  ]

  pub All-of_find :
      (P : A → Type 0) (p : A → Bool) (rows : List A) (a : A)
      → All P rows
      → find p rows ≡ some a
      → P a
  unfolding find
  All-of_find P p [] a h e = cc
  All-of_find P p (r ∷ rows) a (h, hs) e = elim (Bool-cases (p r)) [
    | inl hit ↦ (let same : r ≡ a = ground arith in subst P same h)
    | inr miss ↦ All-of_find P p rows a hs (rw miss at e)
  ]
