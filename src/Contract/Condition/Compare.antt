-- ===== src/Contract/Condition/Compare.antt =====
-- A comparison of two values: src/contract/compare_handler.cpp.
use gruut.Base.{
  ℕ, ◌+◌, ◌-◌, ◌≡◌, ◌≢◌, refl, arith, String, Bool, true, false, not, ◌||◌, Option, none, some,
  str_eq, ltb, leb, ◌<◌, ◌^◌, if◌then◌else◌,
}
use gruut.Base.Int.{ℤ, pos, negsuc}
use gruut.Contract.Text.{empty, trim, to_upper, str2num_int}
use gruut.Contract.Datamap.{Datamap, eval_opt}
use gruut.Contract.Document.{Element, attribute}

pub data CompareType : Type 0 where
  eq ne ge le gt lt age ale agt alt unknown : CompareType

abbrev type_of : String → CompareType
type_of s =
    if str_eq s "EQ" || str_eq s "=" || str_eq s "=="
    then eq
    else if str_eq s "NE" || str_eq s "!="
    then ne
    else if str_eq s "GE" || str_eq s ">=" || str_eq s "=>"
    then ge
    else if str_eq s "LE" || str_eq s "<=" || str_eq s "=<"
    then le
    else if str_eq s "GT" || str_eq s ">"
    then gt
    else if str_eq s "LT" || str_eq s "<"
    then lt
    else if str_eq s "AGE"
    then age
    else if str_eq s "ALE"
    then ale
    else if str_eq s "AGT"
    then agt
    else if str_eq s "ALT"
    then alt
    else unknown

unfoldable pub get_compare_type : String → CompareType
get_compare_type s = type_of (to_upper s)

abbrev pub ltb_ℤ : ℤ → ℤ → Bool
ltb_ℤ (pos a) (pos b) = ltb a b
ltb_ℤ (pos a) (negsuc b) = false
ltb_ℤ (negsuc a) (pos b) = true
ltb_ℤ (negsuc a) (negsuc b) = ltb b a

abbrev pub leb_ℤ : ℤ → ℤ → Bool
leb_ℤ (pos a) (pos b) = leb a b
leb_ℤ (pos a) (negsuc b) = false
leb_ℤ (negsuc a) (pos b) = true
leb_ℤ (negsuc a) (negsuc b) = leb b a

-- abs(a - b); a difference that an `int` cannot hold, on which the source overflows, is exact here.
abbrev pub gap : ℤ → ℤ → ℕ
gap (pos a) (pos b) = (a - b) + (b - a)
gap (pos a) (negsuc b) = a + b + 1
gap (negsuc a) (pos b) = a + b + 1
gap (negsuc a) (negsuc b) = (a - b) + (b - a)

-- The switch. `n` is the source, `m` the reference, `k` the value of `abs`.
abbrev pub compare_int : CompareType → ℤ → ℤ → ℤ → Bool
compare_int ge n m k = leb_ℤ m n
compare_int le n m k = leb_ℤ n m
compare_int gt n m k = ltb_ℤ m n
compare_int lt n m k = ltb_ℤ n m
compare_int age n m k = leb_ℤ k (pos (gap n m))
compare_int ale n m k = leb_ℤ (pos (gap n m)) k
compare_int agt n m k = ltb_ℤ k (pos (gap n m))
compare_int alt n m k = ltb_ℤ (pos (gap n m)) k
compare_int eq n m k = false
compare_int ne n m k = false
compare_int unknown n m k = false

unfoldable pub compare_values : CompareType → String → String → String → Bool
compare_values eq src ref abs_str = str_eq src ref
compare_values ne src ref abs_str = not (str_eq src ref)
compare_values t src ref abs_str =
    compare_int t (str2num_int src) (str2num_int ref) (str2num_int (trim abs_str))

abbrev compare_opt : CompareType → Option String → Option String → String → Bool
compare_opt t (some src) (some ref) abs_str = compare_values t src ref abs_str
compare_opt t (some src) none abs_str = false
compare_opt t none ref abs_str = false

-- The handler, on the attributes.
unfoldable pub evalue_compare : Datamap → String → String → String → String → Bool
evalue_compare m src ref type abs_str =
    if empty (trim src) || empty (trim ref)
    then false
    else compare_opt (get_compare_type type) (eval_opt m (trim src)) (eval_opt m (trim ref)) abs_str

abbrev pub evalue : Element → Datamap → Bool
evalue e m =
    evalue_compare m (attribute e "src") (attribute e "ref") (attribute e "type")
      (attribute e "abs")

-- The comparison that says the opposite.
abbrev pub opposite : CompareType → CompareType
opposite eq = ne
opposite ne = eq
opposite ge = lt
opposite le = gt
opposite gt = le
opposite lt = ge
opposite age = alt
opposite ale = agt
opposite agt = ale
opposite alt = age
opposite unknown = unknown

leb_ℤ-not_ltb : (a b : ℤ) → leb_ℤ a b ≡ not (ltb_ℤ b a)
leb_ℤ-not_ltb (pos a) (pos b) = ground arith
leb_ℤ-not_ltb (pos a) (negsuc b) = refl
leb_ℤ-not_ltb (negsuc a) (pos b) = refl
leb_ℤ-not_ltb (negsuc a) (negsuc b) = ground arith

ltb_ℤ-not_leb : (a b : ℤ) → ltb_ℤ a b ≡ not (leb_ℤ b a)
ltb_ℤ-not_leb (pos a) (pos b) = ground arith
ltb_ℤ-not_leb (pos a) (negsuc b) = refl
ltb_ℤ-not_leb (negsuc a) (pos b) = refl
ltb_ℤ-not_leb (negsuc a) (negsuc b) = ground arith

abbrev gap_of : String → String → ℤ
gap_of src ref = pos (gap (str2num_int src) (str2num_int ref))

compare_values-opposite :
    (t : CompareType) (src ref abs_str : String)
    → t ≢ unknown
    → compare_values (opposite t) src ref abs_str ≡ not (compare_values t src ref abs_str)
unfolding compare_values
compare_values-opposite eq src ref a h = refl
compare_values-opposite ne src ref a h = ground arith
compare_values-opposite ge src ref a h = ltb_ℤ-not_leb (str2num_int src) (str2num_int ref)
compare_values-opposite le src ref a h = ltb_ℤ-not_leb (str2num_int ref) (str2num_int src)
compare_values-opposite gt src ref a h = leb_ℤ-not_ltb (str2num_int src) (str2num_int ref)
compare_values-opposite lt src ref a h = leb_ℤ-not_ltb (str2num_int ref) (str2num_int src)
compare_values-opposite age src ref a h = ltb_ℤ-not_leb (gap_of src ref) (str2num_int (trim a))
compare_values-opposite ale src ref a h = ltb_ℤ-not_leb (str2num_int (trim a)) (gap_of src ref)
compare_values-opposite agt src ref a h = leb_ℤ-not_ltb (gap_of src ref) (str2num_int (trim a))
compare_values-opposite alt src ref a h = leb_ℤ-not_ltb (str2num_int (trim a)) (gap_of src ref)
compare_values-opposite unknown src ref a h = elim (h refl) [ ]

-- Two comparisons with one bound `abs`, whose types say opposite things, on the same two values that
-- both exist and whose difference an `int` holds, give opposite answers, whatever the type but an
-- unknown one.
evalue_compare-opposite :
    (m : Datamap) (src ref type type' abs_str v w : String)
    → get_compare_type type ≢ unknown
    → get_compare_type type' ≡ opposite (get_compare_type type)
    → empty (trim src) ≡ false
    → empty (trim ref) ≡ false
    → eval_opt m (trim src) ≡ some v
    → eval_opt m (trim ref) ≡ some w
    → gap (str2num_int v) (str2num_int w) < 2 ^ 31
    → evalue_compare m src ref type' abs_str ≡ not (evalue_compare m src ref type abs_str)
unfolding evalue_compare
evalue_compare-opposite m src ref type type' abs_str v w known other a b c d small =
    rw (a, b, c, d, other) (compare_values-opposite (get_compare_type type) v w abs_str known)
