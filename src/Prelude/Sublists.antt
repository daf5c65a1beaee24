-- ===== src/Prelude/Sublists.antt =====
-- Some of the elements of a list, in its order.
use elephant_shrew.Prelude.Lists.{All}
use mathlib.Core.List.{List, [], ◌∷◌, ◌++◌, map}

pub data Sublist {A : Type 0} : List A → List A → Type 0 where
  nil : Sublist [] []
  skip : {x : A} {xs ys : List A} → Sublist xs ys → Sublist xs (x ∷ ys)
  keep : {x : A} {xs ys : List A} → Sublist xs ys → Sublist (x ∷ xs) (x ∷ ys)

module _ {A : Type 0} where
  pub Sublist-append :
      {xs ys zs ws : List A} → Sublist xs ys → Sublist zs ws → Sublist (xs ++ zs) (ys ++ ws)
  Sublist-append nil t = t
  Sublist-append (skip s) t = skip (Sublist-append s t)
  Sublist-append (keep s) t = keep (Sublist-append s t)

  pub Sublist-skipped : (ys : List A) → Sublist [] ys
  Sublist-skipped [] = nil
  Sublist-skipped (y ∷ ys) = skip (Sublist-skipped ys)

  pub Sublist-right : {xs ys : List A} (zs : List A) → Sublist xs ys → Sublist xs (ys ++ zs)
  Sublist-right zs nil = Sublist-skipped zs
  Sublist-right zs (skip s) = skip (Sublist-right zs s)
  Sublist-right zs (keep s) = keep (Sublist-right zs s)

pub Sublist-map :
    {A B : Type 0} (f : A → B) {xs ys : List A} → Sublist xs ys → Sublist (map f xs) (map f ys)
Sublist-map f nil = nil
Sublist-map f (skip s) = skip (Sublist-map f s)
Sublist-map f (keep s) = keep (Sublist-map f s)

pub Sublist-All :
    {A : Type 0} (P : A → Type 0) {xs ys : List A} → Sublist xs ys → All P ys → All P xs
Sublist-All P nil h = tt
Sublist-All P (skip s) h = Sublist-All P s h.1
Sublist-All P (keep s) h = (h.0, Sublist-All P s h.1)
