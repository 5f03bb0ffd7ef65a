-- ===== src/Contract/Document.antt =====
-- What the handlers read of an XML element: its name, attributes, text and child elements, as
-- lib/tinyxml gives them.
use gruut.Base.{String, Option, none, some, List, [], ◌∷◌, str_eq, if◌then◌else◌}

mutual
  pub data Element : Type 0 where
    element : String → List (String × String) → String → Elements → Element

  pub data Elements : Type 0 where
    no_more : Elements
    child : Element → Elements → Elements

abbrev pub name : Element → String
name (element n attrs t cs) = n

abbrev pub lookup : List (String × String) → String → String
lookup [] key = ""
lookup ((k, v) ∷ attrs) key = if str_eq k key then v else lookup attrs key

-- c2s(Attribute(key)): "" where there is none
abbrev pub attribute : Element → String → String
attribute (element n attrs t cs) key = lookup attrs key

-- c2s(GetText())
abbrev pub text : Element → String
text (element n attrs t cs) = t

abbrev pub children : Element → Elements
children (element n attrs t cs) = cs

abbrev named : String → Elements → Option Element
named key no_more = none
named key (child e es) = if str_eq (name e) key then some e else named key es

-- FirstChildElement(key)
abbrev pub first_child : Element → String → Option Element
first_child e key = named key (children e)
