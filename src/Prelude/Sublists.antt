-- ===== src/Prelude/Sublists.antt =====
-- Lists that are part of others, in order.
use mathlib.Core.Path.{refl}
use mathlib.Core.List.{List, [], ◌∷◌, ◌++◌, Sublistᴰ}

nothing_first {ℓ} : {A : Type ℓ} (zs : List A) → Sublistᴰ [] zs
nothing_first [] = Sublistᴰ.slnil
nothing_first (z ∷ zs) = Sublistᴰ.cons (nothing_first zs)

pub Sublist-wider {ℓ} :
    {A : Type ℓ} {xs ys : List A} (zs : List A) → Sublistᴰ xs ys → Sublistᴰ xs (ys ++ zs)
Sublist-wider zs Sublistᴰ.slnil = nothing_first zs
Sublist-wider zs (Sublistᴰ.cons s) = Sublistᴰ.cons (Sublist-wider zs s)
Sublist-wider zs (Sublistᴰ.cons-cons e s) = Sublistᴰ.cons-cons e (Sublist-wider zs s)

same_Sublist {ℓ} : {A : Type ℓ} (zs : List A) → Sublistᴰ zs zs
same_Sublist [] = Sublistᴰ.slnil
same_Sublist (z ∷ zs) = Sublistᴰ.cons-cons refl (same_Sublist zs)

pub Sublist-longer {ℓ} :
    {A : Type ℓ} {xs ys : List A} (zs : List A) → Sublistᴰ xs ys → Sublistᴰ (xs ++ zs) (ys ++ zs)
Sublist-longer zs Sublistᴰ.slnil = same_Sublist zs
Sublist-longer zs (Sublistᴰ.cons s) = Sublistᴰ.cons (Sublist-longer zs s)
Sublist-longer zs (Sublistᴰ.cons-cons e s) = Sublistᴰ.cons-cons e (Sublist-longer zs s)
