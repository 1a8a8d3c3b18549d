-- ===== src/Replica/Sharding/Order.antt =====
-- The order of hashes in replica/common/shard.go.
use katzenpost_wt.Prelude.{
  ℕ, zero, suc, ◌<◌, ◌≡◌, refl, true, false, List, [], ◌∷◌, arith, length, replicate, All,
}
use katzenpost_wt.Replica.Sharding.{is_below}

pub is_below_irrefl : (a : List ℕ) → is_below a a ≡ false
unfolding is_below
is_below_irrefl [] = refl
is_below_irrefl (x ∷ a) = ground (arith, is_below_irrefl a)

pub is_below_trans :
    (a b c : List ℕ) → is_below b a ≡ false → is_below c b ≡ false → is_below c a ≡ false
unfolding is_below
is_below_trans [] [] [] h1 h2 = refl
is_below_trans [] [] (z ∷ c) h1 h2 = refl
is_below_trans [] (y ∷ b) [] h1 h2 = cc
is_below_trans [] (y ∷ b) (z ∷ c) h1 h2 = refl
is_below_trans (x ∷ a) [] c h1 h2 = cc
is_below_trans (x ∷ a) (y ∷ b) [] h1 h2 = cc
is_below_trans (x ∷ a) (y ∷ b) (z ∷ c) h1 h2 = let rest = is_below_trans a b c in grind arith

pub is_below_asym : (a b : List ℕ) → is_below a b ≡ true → is_below b a ≡ false
unfolding is_below
is_below_asym [] [] h = refl
is_below_asym [] (y ∷ b) h = refl
is_below_asym (x ∷ a) [] h = cc
is_below_asym (x ∷ a) (y ∷ b) h = let rest = is_below_asym a b in grind arith

pub max-is_below :
    (n : ℕ) (h : List ℕ)
    → length h ≡ n
    → All (λ x. x < 256) h
    → is_below (replicate n 0xff) h ≡ false
unfolding is_below
max-is_below zero [] e a = refl
max-is_below zero (x ∷ h) e a = absurd (omega arith)
max-is_below (suc n) [] e a = refl
max-is_below (suc n) (x ∷ h) e a =
    let rest = max-is_below n h (omega arith) a.1 in let top = a.0 in ground arith
