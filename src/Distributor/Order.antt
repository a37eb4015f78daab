-- ===== src/Distributor/Order.antt =====
-- The order of texts by which the votes are sorted is total and transitive.
use v3_keeper.Base.{◌≡◌, refl, true, false, [], ◌∷◌, Text, arith, map}
use v3_keeper.Transaction.Rejection.{to_lower}
use v3_keeper.Distributor.{DistributorRewardVote, text_leb, by_lower}

text_leb_total : (s t : Text) → text_leb s t ≡ false → text_leb t s ≡ true
text_leb_total [] t h = absurd (ground arith)
text_leb_total (a ∷ s) [] h = refl
text_leb_total (a ∷ s) (b ∷ t) h = ground (arith, text_leb_total s t)

text_leb_trans : (s t u : Text) → text_leb s t ≡ true → text_leb t u ≡ true → text_leb s u ≡ true
text_leb_trans [] t u h k = refl
text_leb_trans (a ∷ s) [] u h k = absurd (ground arith)
text_leb_trans (a ∷ s) (b ∷ t) [] h k = absurd (ground arith)
text_leb_trans (a ∷ s) (b ∷ t) (c ∷ u) h k = ground (arith, text_leb_trans s t u)

pub by_lower_total : (a b : DistributorRewardVote) → by_lower a b ≡ false → by_lower b a ≡ true
by_lower_total a b h =
    text_leb_total (map to_lower a.oracle_address) (map to_lower b.oracle_address) h

pub by_lower_trans :
    (a b c : DistributorRewardVote)
    → by_lower a b ≡ true
    → by_lower b c ≡ true
    → by_lower a c ≡ true
by_lower_trans a b c h k =
    text_leb_trans (map to_lower a.oracle_address) (map to_lower b.oracle_address)
      (map to_lower c.oracle_address) h k
