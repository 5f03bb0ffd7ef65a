-- ===== src/Contract/Condition/Time.antt =====
-- A time period: src/contract/time_handler.cpp. `parse` stands for date::parse.
use gruut.Base.{
  ℕ, ◌*◌, ◌^◌, ◌%◌, ◌≡◌, refl, String, Bool, false, ◌&&◌, Option, none, some, ltb, if◌then◌else◌,
}
use gruut.Contract.Text.{empty, trim, str2num_u64, timestr2timestamp}
use gruut.Contract.Datamap.{Datamap, eval_opt}
use gruut.Contract.Document.{Element, first_child, text}

-- The trimmed text of a child, "" where there is none.
abbrev bound : Option Element → String
bound none = ""
bound (some e) = trim (text e)

-- The period between two texts, either of which may be missing, at a time in milliseconds.
unfoldable pub in_period : (String → Option ℕ) → String → String → ℕ → Bool
in_period parse after before now =
    if empty after && empty before
    then false
    else if empty before
    then ltb (timestr2timestamp parse after) now
    else if empty after
    then ltb now (timestr2timestamp parse before)
    else ltb (timestr2timestamp parse after) now && ltb now (timestr2timestamp parse before)

abbrev at_time : (String → Option ℕ) → Element → Option String → Bool
at_time parse e none = false
at_time parse e (some s) =
    in_period parse (bound (first_child e "after")) (bound (first_child e "before"))
      ((str2num_u64 s * 1000) % 2 ^ 64)

unfoldable pub evalue : (String → Option ℕ) → Element → Datamap → Bool
evalue parse e m = at_time parse e (eval_opt m "$time")

-- A period with two bounds is the meet of the two periods with one bound each.
in_period-both :
    (parse : String → Option ℕ) (after before : String) (now : ℕ)
    → empty after ≡ false
    → empty before ≡ false
    → in_period parse after before now
      ≡ (in_period parse after "" now && in_period parse "" before now)
unfolding in_period
in_period-both parse after before now a b = rw (a, b) refl
