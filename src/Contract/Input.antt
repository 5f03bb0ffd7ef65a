-- ===== src/Contract/Input.antt =====
-- The inputs of a transaction: src/contract/input_handler.cpp and
-- src/contract/include/handler/input_handler.hpp. An input is an array of objects whose values are texts.
use Prim.Native.String.{◌++◌, len, slice}
use gruut.Base.{
  ℕ, suc, ◌-◌, String, Bool, true, false, not, ◌&&◌, ◌||◌, Option, none, some, List, [], ◌∷◌,
  length, str_eq, ltb, leb, ◌==◌, if◌then◌else◌, on_option, Assoc, at, insert_or_assign,
}
use gruut.Base.Int.{ℤ, pos, negsuc}
use gruut.Contract.Text.{empty, str2num_u64}
use gruut.Contract.Document.{Element, attribute}
use gruut.Contract.Condition.Compare.{ltb_ℤ}
use gruut.Contract.Condition.Endorser.{to_string}
use gruut.Contract.Patterns.{is_digit, has_part}
use gruut.Contract.Xml.{parse_children_from_no_if}
use gruut.Contract.DataManager.{DataManager, update_value}
use gruut.Contract.DataManager.Lookups.{input_option_type_map, to_int64}

-- What the input handler uses of other code: std::regex_match of a value and an expression, whether
-- std::stold gives a number, tinyxml's parser and IntAttribute with its default, the dump of an array
-- of texts, isxdigit of all characters, and what Botan reads of a certificate: notafter, notbefore and sn.
pub record InputServices : Type 0 where
  pub regex_match : String → String → Bool
  pub is_float : String → Bool
  pub is_xml : String → Bool
  pub int_attribute : Element → String → ℤ → ℤ
  pub dump : List String → String
  pub all_xdigit : String → Bool
  pub certificate : String → String × String × String

pub record InputOption : Type 0 where
  pub key : String
  pub type : String
  pub validation : String

abbrev max_input_size : ℕ
max_input_size = 5

abbrev int_length : ℕ
int_length = 17

-- MAX_INT; MIN_INT is its negation.
abbrev max_int : ℕ
max_int = 9007199254740991

abbrev bool_regex : String
bool_regex = "^([Tt][Rr][Uu][Ee]|[Ff][Aa][Ll][Ss][Ee])$"

abbrev date_regex : String
date_regex = "([12]\\d{3}-(0[1-9]|1[0-2])-(0[1-9]|[12]\\d|3[01]))"

abbrev date_time_regex : String
date_time_regex =
    "(19|20)[0-9]{2}-(0[0-9]|1[0-2])-(0[1-9]|([12][0-9]|3[01]))T([01][0-9]|2[0-3]):[0-5][0-9]:[0-5][0-9](\\+|-)[0-1][0-9]:[00]"

abbrev base64_regex : String
base64_regex = "^(?:[A-Za-z0-9+/]{4})*(?:[A-Za-z0-9+/]{3}=|[A-Za-z0-9+/]{2}==)?$"

abbrev base58_regex : String
base58_regex = "^[A-HJ-NP-Za-km-z1-9]*$"

abbrev bin_regex : String
bin_regex = "^[0-1]*$"

abbrev number_of : List (String × ℕ) → String → ℕ
number_of [] type = 61
number_of ((k, v) ∷ m) type = let rest = number_of m type in if str_eq k type then v else rest

-- lo <= n && n <= hi
abbrev in_range : ℤ → ℤ → ℤ → Bool
in_range lo hi n = not (ltb_ℤ n lo) && not (ltb_ℤ hi n)

abbrev int_in : ℤ → ℤ → String → Bool
int_in lo hi value = leb (len value) int_length && in_range lo hi (to_int64 (str2num_u64 value))

-- The comparison of a `uint64_t` with its bounds.
abbrev pint : String → Bool
pint value =
    leb (len value) int_length && leb 1 (str2num_u64 value) && leb (str2num_u64 value) max_int

-- A text that is too short for the end makes substr throw, and the value is refused.
abbrev is_contract : String → Bool
is_contract value =
    leb 11 (len value)
    && str_eq (slice value 0 9) "<contract"
    && str_eq (slice value (len value - 11) (len value)) "</contract>"

module _ (is : InputServices) where
  -- The switch on the number of an EnumAll; the type MEDIUMTEXT has the number of LONGTEXT, which no case
  -- takes.
  abbrev pub of_type : ℕ → String → Bool
  of_type n value =
      if n == 50
      then int_in (negsuc (max_int - 1)) (pos max_int) value
      else if n == 51
      then pint value
      else if n == 52
      then int_in (negsuc (max_int - 1)) (negsuc 0) value
      else if n == 53
      then is.is_float value
      else if n == 54
      then is.regex_match value bool_regex
      else if n == 60
      then leb (len value) 255
      else if n == 61
      then leb (len value) 65535
      else if n == 62
      then leb (len value) 16777215
      else if n == 72
      then is.regex_match value date_regex
      else if n == 71
      then is.regex_match value date_time_regex
      else if n == 31
      then is.regex_match value bin_regex
      else if n == 32
      then is_digit value
      else if n == 33
      then is.all_xdigit value
      else if n == 34
      then is.regex_match value base58_regex
      else if n == 35
      then is.regex_match value base64_regex
      else if n == 10
      then str_eq value "KEYC" || str_eq value "FIAT" || str_eq value "COIN" || str_eq value "XCOIN"
      else if n == 11
      then str_eq value "MALE" || str_eq value "FEMALE" || str_eq value "OTHER"
      else if n == 12
      then true
      else if n == 21
      then has_part "-----BEGIN CERTIFICATE-----" value
        && has_part "-----END CERTIFICATE-----" value
        && is.regex_match value base64_regex
      else if n == 23
      then is.is_xml value
      else if n == 22
      then is.is_xml value && is_contract value
      else false

  unfoldable pub is_valid_value : String → String → String → Bool
  is_valid_value value type validation =
      of_type (number_of input_option_type_map type) value
      && (if empty validation then true else is.regex_match value validation)

  abbrev options_of : List Element → List InputOption
  options_of [] = []
  options_of (e ∷ es) =
      record {
        key = attribute e "name";
        type = attribute e "type";
        validation = attribute e "validation";
      }
      ∷ options_of es

  abbrev option_for : String → List InputOption → Option InputOption
  option_for key [] = none
  option_for key (o ∷ os) =
      let rest = option_for key os in if str_eq o.key key then some o else rest

  -- The data and the groups of values so far.
  abbrev Read : Type 0
  Read = DataManager × Assoc (List String)

  abbrev snoc : String → Option (List String) → List String
  snoc v none = v ∷ []
  snoc v (some vs) = onto vs
    where
      onto : List String → List String
      onto [] = v ∷ []
      onto (x ∷ xs) = x ∷ onto xs

  abbrev set_both : ℕ → String → String → DataManager → DataManager
  set_both i key value dm =
      update_value ("$" ++ to_string i ++ "." ++ key) value
        (update_value ("$tx.contract.input[" ++ to_string i ++ "]." ++ key) value dm)

  abbrev set_certificate : ℕ → String × String × String → DataManager → DataManager
  set_certificate i (not_after, not_before, sn) dm =
      set_both i "sn" sn (set_both i "notbefore" not_before (set_both i "notafter" not_after dm))

  abbrev take_item : List InputOption → ℕ → String × String → Read → Read
  take_item os i (key, value) (dm, groups) =
      on_option (option_for key os) (dm, groups)
        λ o.
          let set = set_both i key value dm in
          let dm' =
            if str_eq o.type "PEM" then set_certificate i (is.certificate value) set else set in
          if is_valid_value value o.type o.validation
          then (dm', insert_or_assign key (snoc value (at key groups)) groups)
          else (dm, groups)

  abbrev take_items : List InputOption → ℕ → List (String × String) → Read → Read
  take_items os i [] r = r
  take_items os i (x ∷ xs) r = take_items os i xs (take_item os i x r)

  abbrev take_objects : List InputOption → ℕ → List (List (String × String)) → Read → Read
  take_objects os i [] r = r
  take_objects os i (x ∷ xs) r = take_objects os i xs (take_items os i x r)

  -- The first k inputs, from the index i.
  abbrev take_inputs : List InputOption → ℕ → ℕ → List (List (List (String × String))) → Read → Read
  take_inputs os k i [] r = r
  take_inputs os k i (x ∷ xs) r =
      let rest = take_inputs os k (suc i) xs (take_objects os i x r) in if ltb i k then rest else r

  abbrev set_groups : Assoc (List String) → DataManager → DataManager
  set_groups [] dm = dm
  set_groups ((k, vs) ∷ groups) dm =
      set_groups groups (update_value ("$input@" ++ k) (is.dump vs) dm)

  -- num_input_max > input_json.size() is a test of unsigned numbers, so that a negative maximum counts as
  -- a large one.
  abbrev num_input : ℤ → ℕ → ℕ
  num_input (pos n) size = if ltb size n then size else n
  num_input (negsuc n) size = size

  -- none where parseInput returns false, which is before it writes anything.
  unfoldable pub parse_input :
      List (List (List (String × String))) → Element → DataManager → Option DataManager
  parse_input [] input_node dm = none
  parse_input (x ∷ xs) input_node dm =
      let num_input_max = is.int_attribute input_node "max" (pos 1) in
      let os = options_of (parse_children_from_no_if input_node "option") in
      let (dm', groups) =
        take_inputs os (num_input num_input_max (length (x ∷ xs))) 0 (x ∷ xs) (dm, []) in
      if ltb_ℤ (pos max_input_size) num_input_max then none else some (set_groups groups dm')
