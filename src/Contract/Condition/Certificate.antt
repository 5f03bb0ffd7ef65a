-- ===== src/Contract/Condition/Certificate.antt =====
-- A certificate signed by another: src/contract/certificate_handler.cpp. `verify` stands for
-- CertVerifier::doVerify.
use gruut.Base.{String, Bool, false, not, Option, none, some, if◌then◌else◌}
use gruut.Contract.Text.{empty}
use gruut.Contract.Datamap.{Datamap, eval}
use gruut.Contract.Document.{Element, attribute, first_child, text}

-- The issuer's certificate: the value of the attribute, or else the text as it is.
abbrev issuer : Element → Datamap → String
issuer by m = if not (empty (attribute by "value")) then eval m (attribute by "value") else text by

abbrev check_by : (String → String → Bool) → String → String → Bool
check_by verify pk by_val = if empty by_val then false else verify pk by_val

abbrev check_pair : (String → String → Bool) → Element → Element → Datamap → Bool
check_pair verify pk by m =
    if empty (attribute pk "value")
    then false
    else if empty (eval m (attribute pk "value"))
    then false
    else check_by verify (eval m (attribute pk "value")) (issuer by m)

abbrev check_nodes : (String → String → Bool) → Option Element → Option Element → Datamap → Bool
check_nodes verify (some pk) (some by) m = check_pair verify pk by m
check_nodes verify (some pk) none m = false
check_nodes verify none by m = false

unfoldable pub evalue : (String → String → Bool) → Element → Datamap → Bool
evalue verify e m = check_nodes verify (first_child e "pk") (first_child e "by") m
