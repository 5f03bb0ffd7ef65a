-- ===== src/Contract/Xml.antt =====
-- src/contract/include/xml_tool.hpp, and the parts of a contract that src/contract/element_parser.cpp
-- picks out.
use gruut.Base.{String, Option, none, some, List, [], ◌∷◌, str_eq, if◌then◌else◌}
use gruut.Contract.Document.{
  Element, Elements, no_more, child, name, attribute, children, first_child,
}

abbrev with_if : String → Elements → List (Element × String)
with_if key no_more = []
with_if key (child e es) =
    let rest = with_if key es in if str_eq (name e) key then (e, attribute e "if") ∷ rest else rest

-- The children of that name, each with its attribute "if".
unfoldable pub parse_children_from : Element → String → List (Element × String)
parse_children_from from_node element_name = with_if element_name (children from_node)

abbrev without_if : String → Elements → List Element
without_if key no_more = []
without_if key (child e es) =
    let rest = without_if key es in if str_eq (name e) key then e ∷ rest else rest

unfoldable pub parse_children_from_no_if : Element → String → List Element
parse_children_from_no_if from_node element_name = without_if element_name (children from_node)

-- The lists of the directives that nothing reads yet are left out.
pub record ElementParser : Type 0 where
  -- a null pointer is none
  pub head : Option Element
  pub body : Element
  pub input : Element
  pub gets : List (Element × String)
  pub sets : List (Element × String)
  pub conditions : List (Element × String)
  pub fees : List (Element × String)

-- What setContract makes of a document that has been parsed, or none where it returns false; a text that
-- does not parse is none, too. The fees are children of the contract, the other directives of its body.
-- FirstChildElement gives a null pointer, not nullopt, where there is no head or body: the test on
-- nullopt passes. With no body there is no input, and so no contract; with no head the head is null.
unfoldable pub set_contract : Option Element → Option ElementParser
set_contract none = none
set_contract (some contract) = elim (first_child contract "body") [
  | none ↦ none
  | some body ↦ elim (parse_children_from body "input") [
    | [] ↦ none
    | (input, if_id) ∷ inputs ↦ some record {
      head = first_child contract "head";
      body = body;
      input = input;
      gets = parse_children_from body "get";
      sets = parse_children_from body "set";
      conditions = parse_children_from body "condition";
      fees = parse_children_from contract "fee";
    }
  ]
]
