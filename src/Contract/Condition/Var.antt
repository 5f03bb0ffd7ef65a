-- ===== src/Contract/Condition/Var.antt =====
-- A variable in some scope, compared: src/contract/val_handler.cpp.
use Prim.Native.String.{◌++◌}
use gruut.Base.{String, Bool, false, ◌||◌, Option, none, some, str_eq, if◌then◌else◌}
use gruut.Contract.Text.{trim}
use gruut.Contract.Datamap.{Datamap, eval}
use gruut.Contract.Document.{Element, attribute}
use gruut.Contract.Condition.Compare.{evalue_compare}
use gruut.Contract.Condition.Services.{Services}

-- The source of the comparison, and the reference, the type and the bound that the element gives.
abbrev compare_with : Element → Datamap → String → Bool
compare_with e m src =
    evalue_compare m src (attribute e "ref") (attribute e "type") (attribute e "abs")

abbrev compare_first : Element → Datamap → Option String → Bool
compare_first e m none = false
compare_first e m (some src) = compare_with e m src

abbrev pub real_scope : String → String
real_scope scope = if str_eq scope "contract" then "contract" else "user"

abbrev pub in_storage : String → Bool
in_storage scope =
    str_eq "user" scope
    || (str_eq "author" scope || (str_eq "receiver" scope || str_eq "contract" scope))

abbrev in_scope : Services → String → Element → Datamap → String → Bool
in_scope s scope e m var_name =
    if in_storage scope
    then compare_first e m
        (s.scope_variable (real_scope scope) (eval m (attribute e "id")) var_name)
    else if str_eq scope "world"
    then compare_with e m (eval m ("$world." ++ var_name))
    else if str_eq scope "chain"
    then compare_with e m (eval m ("$chain." ++ var_name))
    else false

unfoldable pub evalue : Services → Element → Datamap → Bool
evalue s e m =
    if str_eq (trim (attribute e "name")) "*"
    then false
    else in_scope s (attribute e "scope") e m (trim (attribute e "name"))
