-- ===== src/Storage/Listing/Parallel/Orders.antt =====
-- The order in which the parallel listing of src/storage/s3/mod.rs sends the objects of its pages and
-- of the tasks it starts.
use mathlib.Core.List.{flatten, Perm, perm_append_comm, map-append}
use mathlib.Core.List.Perm
use s3rm_rs.Base.{
  ◌≡◌, refl, sym, ap, ◌∙◌, subst, String, List, [], ◌∷◌, ◌++◌, map, append_assoc, All,
}

pub All-split : (P : String → Type 0) (xs ys : List String) → All P (xs ++ ys) → All P xs × All P ys
All-split P [] ys h = (tt, h)
All-split P (x' ∷ xs) ys h = let rest = All-split P xs ys h.1 in ((h.0, rest.0), rest.1)

module _ {A : Type 0} where
  flatten-append : (xs ys : List (List A)) → flatten (xs ++ ys) ≡ flatten xs ++ flatten ys
  unfolding flatten
  flatten-append [] ys = refl
  flatten-append (l ∷ xs) ys =
      ap (◌++◌ l) (flatten-append xs ys) ∙ sym (append_assoc l (flatten xs) (flatten ys))

  swap_middle : (a b c d : List A) → Perm (a ++ (b ++ (c ++ d))) ((a ++ c) ++ (b ++ d))
  swap_middle a b c d = subst (Perm (a ++ (b ++ (c ++ d)))) (sym (append_assoc a c (b ++ d))) (
      Perm.append_left a (
        subst (λ l. Perm l (c ++ (b ++ d))) (append_assoc b c d)
          (subst (Perm ((b ++ c) ++ d)) (append_assoc c b d)
            (Perm.append_right d (perm_append_comm b c)))))

  -- The objects of a page, those below its prefixes, and those of the other pages.
  pub page_order :
      (found rest : List A) (below : String → List A) (prefixes after : List String)
      → Perm
          (found ++ (flatten (map below prefixes) ++ (rest ++ flatten (map below after))))
          ((found ++ rest) ++ flatten (map below (prefixes ++ after)))
  page_order found rest below prefixes after =
      subst
        (λ l.
          Perm (found ++ (flatten (map below prefixes) ++ (rest ++ flatten (map below after))))
            ((found ++ rest) ++ l))
        (sym (
          ap flatten (map-append below prefixes after)
          ∙ flatten-append (map below prefixes) (map below after)))
        (swap_middle found (flatten (map below prefixes)) rest (flatten (map below after)))
