-- ===== src/Disk/Compare.antt =====
-- `strcmp` on hashes decides equality.
use imr_dedupe.Prelude.{◌≡◌, refl, ap₂, true, [], ◌∷◌, arith}
use imr_dedupe.Disk.{Hash, hash_eq}

pub hash_eq→eq : (a b : Hash) → hash_eq a b ≡ true → a ≡ b
unfolding hash_eq
hash_eq→eq [] [] h = refl
hash_eq→eq [] (y ∷ b) h = cc
hash_eq→eq (x ∷ a) [] h = cc
hash_eq→eq (x ∷ a) (y ∷ b) h = ap₂ ◌∷◌ (ground arith) (hash_eq→eq a b (ground arith))

pub hash_eq_refl : (a : Hash) → hash_eq a a ≡ true
unfolding hash_eq
hash_eq_refl [] = refl
hash_eq_refl (x ∷ a) = ground (arith, hash_eq_refl a)
