-- ===== src/Deleter/Refinement/Buffers.antt =====
-- The buffers of several delete workers (src/pipeline.rs), with one of them taken out of the others.
use mathlib.Core.List.{reverse, flatten, Perm, perm_middle, perm_append_comm, reverse_perm}
use mathlib.Core.List.Perm
use s3rm_rs.Base.{◌≡◌, refl, sym, ap, ◌∙◌, subst, List, [], ◌∷◌, ◌++◌, append_assoc, All}

module _ {A : Type 0} where
  pub flatten-middle :
      (left right : List (List A)) (b : List A)
      → flatten (left ++ b ∷ right) ≡ flatten left ++ (b ++ flatten right)
  unfolding flatten
  flatten-middle [] right b = refl
  flatten-middle (l ∷ left) right b =
      ap (◌++◌ l) (flatten-middle left right b)
      ∙ sym (append_assoc l (flatten left) (b ++ flatten right))

  pub All-at :
      (P : List A → Type 0) (left right : List (List A)) (b : List A)
      → All P (left ++ b ∷ right)
      → P b
  All-at P [] right b h = h.0
  All-at P (l ∷ left) right b h = All-at P left right b h.1

  pub All-replaced :
      (P : List A → Type 0) (left right : List (List A)) (b b' : List A)
      → All P (left ++ b ∷ right)
      → P b'
      → All P (left ++ b' ∷ right)
  All-replaced P [] right b b' h p = (p, h.1)
  All-replaced P (l ∷ left) right b b' h p = (h.0, All-replaced P left right b b' h.1 p)

  -- What was deleted and what the buffers hold, with a buffer taken out of the others.
  abbrev pub everything : List A → List A → List A → List A → List A
  everything deleted l b r = deleted ++ (l ++ (b ++ r))

  pub everything-cons :
      (deleted l b r : List A) (o : A)
      → Perm (everything deleted l (o ∷ b) r) (o ∷ everything deleted l b r)
  everything-cons deleted l b r o =
      Perm.trans (Perm.append_left deleted (perm_middle l (b ++ r)))
        (perm_middle deleted (l ++ (b ++ r)))

  pub everything-flushed :
      (deleted l b r : List A)
      → Perm (everything (deleted ++ reverse b) l [] r) (everything deleted l b r)
  everything-flushed deleted l b r =
      subst (λ all. Perm all (everything deleted l b r))
        (sym (append_assoc deleted (reverse b) (l ++ r)))
        (Perm.append_left deleted (Perm.trans (Perm.append_right (l ++ r) (reverse_perm b)) moved))
    where
      moved : Perm (b ++ (l ++ r)) (l ++ (b ++ r))
      moved =
          subst (λ all. Perm all (l ++ (b ++ r))) (append_assoc b l r)
            (subst (λ all. Perm ((b ++ l) ++ r) all) (append_assoc l b r)
              (Perm.append_right r (perm_append_comm b l)))
