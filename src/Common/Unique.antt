-- ===== src/Common/Unique.antt =====
-- A column of texts with a UNIQUE constraint, and the statements that keep it.
use mathlib.Core.Path.{◌≡◌, refl, sym, ◌∙◌, subst}
use mathlib.Core.Logic.{◌≢◌, inl, inr}
use mathlib.Core.Bool.{Bool, true, false}
use mathlib.Core.Option.{some}
use mathlib.Core.List.{List, [], ◌∷◌, ◌++◌}
use native.Mathlib.Omega.{arith}
use rdoc_cam_hub.Common.Compare.{if◌then◌else◌, Bool-cases, ◌==◌}
use rdoc_cam_hub.Common.Lists.{find, All, All-append, any}
use rdoc_cam_hub.Common.Bytes.{Text, text_eq, text_beq_iff}
use rdoc_cam_hub.Common.Table.{delete_where, update_where, All-delete_where, All-update_where}

module _ {A : Type 0} (key : A → Text) where
  -- No two rows have the same key.
  abbrev pub Distinct : List A → Type 0
  Distinct [] = Unit
  Distinct (r ∷ rows) = All (λ q. key q ≢ key r) rows × Distinct rows

  pub All-ne_of_any :
      (k : Text) (rows : List A) → any (λ r. key r == k) rows ≡ false → All (λ q. key q ≢ k) rows
  unfolding any
  All-ne_of_any k [] h = tt
  All-ne_of_any k (r ∷ rows) h =
      (ground (arith, text_beq_iff (key r) k), All-ne_of_any k rows (ground arith))

  All-ne_snoc :
      (k : Text) (rows : List A) (row : A)
      → All (λ q. key q ≢ k) rows
      → key row ≢ k
      → All (λ q. key q ≢ k) (rows ++ row ∷ [])
  All-ne_snoc k rows row h n = All-append (λ q. key q ≢ k) rows (row ∷ []) h (n, tt)

  pub Distinct-append :
      (rows : List A) (row : A)
      → All (λ q. key q ≢ key row) rows
      → Distinct rows
      → Distinct (rows ++ row ∷ [])
  Distinct-append [] row h d = (tt, tt)
  Distinct-append (r ∷ rows) row (n, h) (fresh, d) =
      (All-ne_snoc (key r) rows row fresh (λ e. n (sym e)), Distinct-append rows row h d)

  pub Distinct-delete_where :
      (p : A → Bool) (rows : List A) → Distinct rows → Distinct (delete_where p rows)
  unfolding delete_where
  Distinct-delete_where p [] d = tt
  Distinct-delete_where p (r ∷ rows) (fresh, d) = elim (Bool-cases (p r)) [
    | inl hit ↦ rw hit (Distinct-delete_where p rows d)
    | inr miss ↦
        rw miss (All-delete_where (λ q. key q ≢ key r) p rows fresh, Distinct-delete_where p rows d)
  ]

  -- With a unique key, what holds of the row that a query finds holds of every row with its key.
  pub All-of_find_unique :
      (Q : A → Type 0) (k : Text) (rows : List A) (s : A)
      → Distinct rows
      → find (λ r. key r == k) rows ≡ some s
      → Q s
      → All (λ r. (key r == k) ≡ true → Q r) rows
  unfolding find
  All-of_find_unique Q k [] s d e q = tt
  All-of_find_unique Q k (r ∷ rows) s (fresh, d) e q = elim (Bool-cases (key r == k)) [
    | inl hit ↦
        let same : s ≡ r = ground arith in
        let here : key r ≡ k = (text_beq_iff (key r) k).0 hit in
        ((λ _. subst Q same q), others rows (subst (λ x. All (λ p. key p ≢ x) rows) here fresh))
    | inr miss ↦ ((λ hit. ground arith), All-of_find_unique Q k rows s d (rw miss at e) q)
  ]
    where
      others :
          (tail : List A) → All (λ p. key p ≢ k) tail → All (λ p. (key p == k) ≡ true → Q p) tail
      others [] h = tt
      others (p ∷ tail) (n, h) =
          ((λ hit. absurd (n ((text_beq_iff (key p) k).0 hit))), others tail h)

  -- An UPDATE that leaves the key alone.
  pub Distinct-update_where :
      (p : A → Bool) (f : A → A)
      → ((r : A) → p r ≡ true → key (f r) ≡ key r)
      → (rows : List A) → Distinct rows
      → Distinct (update_where p f rows)
  unfolding update_where
  Distinct-update_where p f keep [] d = tt
  Distinct-update_where p f keep (r ∷ rows) (fresh, d) =
      let head : key (if p r then f r else r) ≡ key r =
        ground (arith, λ (h : p r ≡ true). keep r h) in
      (
        subst (λ k. All (λ q. key q ≢ k) (update_where p f rows)) (sym head)
            (All-update_where (λ q. key q ≢ key r) p f rows (λ q hit n e. n (sym (keep q hit) ∙ e))
              fresh),
        Distinct-update_where p f keep rows d,
      )

  update_where_absent :
      (k : Text) (f : A → A) (rows : List A)
      → All (λ q. key q ≢ k) rows
      → update_where (λ r. key r == k) f rows ≡ rows
  unfolding update_where
  update_where_absent k f [] h = refl
  update_where_absent k f (r ∷ rows) (n, h) =
      ground (arith, text_beq_iff (key r) k, update_where_absent k f rows h)

  -- An UPDATE of the key itself, from `k` to a key that no row has.
  pub Distinct-update_key :
      (k new : Text) (f : A → A)
      → ((r : A) → key (f r) ≡ new)
      → (rows : List A) → All (λ q. key q ≢ new) rows
      → Distinct rows
      → Distinct (update_where (λ r. key r == k) f rows)
  unfolding update_where
  Distinct-update_key k new f sets [] absent d = tt
  Distinct-update_key k new f sets (r ∷ rows) (n, absent) (fresh, d) =
      elim (Bool-cases (key r == k)) [
        | inl hit ↦
            let here : key r ≡ k = (text_beq_iff (key r) k).0 hit in
            let others : All (λ q. key q ≢ k) rows =
              subst (λ x. All (λ q. key q ≢ x) rows) here fresh in
            rw (hit, update_where_absent k f rows others, sets r) (absent, d)
        | inr miss ↦ rw miss (
          All-update_where (λ q. key q ≢ key r) (λ q. key q == k) f rows
              (λ q hit m e. n (sym e ∙ sets q)) fresh,
          Distinct-update_key k new f sets rows absent d,
        )
      ]
