-- ===== src/Contract/Parallel/Tests.antt =====
-- Runs of the splitting on small blocks, and instances of its theorems.
use gruut.Base.{◌≤◌, ◌≡◌, refl, inl, inr, String, Bool, List, [], ◌∷◌, str_eq}
use gruut.Contract.Parallel.{Tx, parallelize, group_from, distribute, min_bin_from}
use gruut.Contract.Parallel.Kept.{count, count_all, HasNoJoin, count_all-parallelize}
use gruut.Contract.Parallel.Apart.{bins_with, bins_with-parallelize}

abbrev tx : String → String → Tx
tx user receiver = record { user = user; receiver = receiver; json = "" }

-- Two transactions of one user, and one to a receiver of the second.
abbrev chained : List Tx
chained = tx "a" "x" ∷ tx "a" "y" ∷ tx "b" "y" ∷ tx "c" "z" ∷ []

chained-HasNoJoin : HasNoJoin chained []
chained-HasNoJoin = (inl refl, (inr refl, (inl refl, (inl refl, tt))))

in_two_bins :
    parallelize chained
    ≡ (tx "a" "x" ∷ tx "a" "y" ∷ tx "b" "y" ∷ []) ∷ (tx "c" "z" ∷ []) ∷ [] ∷ [] ∷ []
unfolding parallelize group_from distribute min_bin_from
in_two_bins = refl

-- A second transaction between the same two replaces the first.
first_lost : parallelize (tx "a" "x" ∷ tx "a" "x" ∷ []) ≡ (tx "a" "x" ∷ []) ∷ [] ∷ [] ∷ [] ∷ []
unfolding parallelize group_from distribute min_bin_from
first_lost = refl

abbrev from_a : Tx → Bool
from_a t = str_eq t.user "a"

count_all-parallelize_example :
    (count_all from_a (parallelize chained) ≤ count from_a chained)
    × (HasNoJoin chained [] → count_all from_a (parallelize chained) ≡ count from_a chained)
count_all-parallelize_example = count_all-parallelize from_a chained

bins_with-parallelize_example :
    (bins_with (λ (t : Tx). t.user) "a" (parallelize chained) ≤ 1)
    × (bins_with (λ (t : Tx). t.receiver) "a" (parallelize chained) ≤ 1)
bins_with-parallelize_example = bins_with-parallelize chained "a" chained-HasNoJoin
