-- ===== src/SupportSig/Tests.antt =====
-- A fetch, and one that an addition interrupts.
use gruut.Base.{◌≡◌, refl, String, List, [], ◌∷◌, ◌++◌, true, false, if◌then◌else◌}
use gruut.SupportSig.{SupportSigInfo, has_id, add, run, fetch_all, copy_step, clear_step}
use gruut.SupportSig.Fetched.{adds, entries, run-fetch_all, run-lost}

abbrev sig_of : String → String → SupportSigInfo
sig_of id sig = record { id = id; sig = sig; cert = "" }

abbrev collected : List SupportSigInfo
collected = sig_of "a" "1" ∷ sig_of "b" "2" ∷ sig_of "a" "3" ∷ []

run-fetch_all_example :
    (entries "a" (run (adds collected ++ fetch_all) [] []).1
      ≡ (if has_id "a" collected then 1 else 0))
    × ((run (adds collected ++ fetch_all) [] []).0 ≡ [])
run-fetch_all_example = run-fetch_all "a" collected

first_kept : (run (adds collected ++ fetch_all) [] []).1 ≡ sig_of "a" "1" ∷ sig_of "b" "2" ∷ []
unfolding run add
first_kept = refl

abbrev kept : List SupportSigInfo
kept = sig_of "c" "4" ∷ []

run-lost_example :
    (has_id "b" (run (copy_step ∷ adds collected) kept []).0 ≡ true)
    × (has_id "b" (run (copy_step ∷ adds collected ++ clear_step ∷ []) kept []).1 ≡ false)
    × (run (copy_step ∷ adds collected ++ clear_step ∷ fetch_all) kept [] ≡ ([], kept))
    × (has_id "b" (run (adds collected ++ fetch_all) kept []).1 ≡ true)
run-lost_example = run-lost "b" collected kept refl refl
