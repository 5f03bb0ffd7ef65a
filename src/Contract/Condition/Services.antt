-- ===== src/Contract/Condition/Services.antt =====
-- What the condition handlers use of other code: the date library of include/date.hpp, the certificate
-- check, the variables in scope, which come from the storage, and the signature handler.
use gruut.Base.{ℕ, String, Bool, Option}
use gruut.Base.Int.{ℤ}
use gruut.Contract.Datamap.{Datamap}
use gruut.Contract.Document.{Element}

pub record Services : Type 1 where
  -- date::parse("%FT%T%Ez"), the milliseconds of the time point
  pub parse_time : String → Option ℕ
  -- CertVerifier::doVerify
  pub verify_cert : String → String → Bool
  -- year_month_day: date::parse("%F"), the day of a time in milliseconds, `+ years` and `<`
  pub Date : Type 0
  pub parse_date : String → Option Date
  pub date_of : ℕ → Date
  pub add_years : Date → ℤ → Date
  pub before : Date → Date → Bool
  -- getScopeVariables(scope, id, name): the value of the first
  pub scope_variable : String → String → String → Option String
  -- SignatureHandler::evalue
  pub signature : Element → Datamap → Bool
