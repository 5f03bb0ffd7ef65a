-- ===== src/Contract/Runner/Charged.antt =====
-- What a run's result says.
use gruut.Base.{
  ◌≡◌, refl, inl, inr, String, true, false, Option, none, some, List, [], ◌∷◌, if◌then◌else◌, arith,
  Bool-cases, Option-cases,
}
use gruut.Base.Int.{ℤ, pos}
use gruut.Contract.Datamap.{eval}
use gruut.Contract.Text.{empty}
use gruut.Contract.Condition.Compare.{ltb_ℤ}
use gruut.Contract.Xml.{ElementParser}
use gruut.Contract.Fee.{parse_fee}
use gruut.Contract.Set.{Contents, parse_set}
use gruut.Contract.DataManager.{DataManager}
use gruut.Contract.DataManager.Lookups.{get_user_key_currency}
use gruut.Contract.LookUps.{RunState}
use gruut.Contract.Runner.{
  Surroundings, Inputs, RunResult, Authority, in_run_period, prepare, lacks, charge, finish,
  finished, run, no_queries, authority_of,
}

module _ (sr : Surroundings) (ep : ElementParser) (inputs : Inputs) where
  -- What a payer has at least, if there is something to pay: the balance that the data manager gives.
  abbrev pub HasFunds : String → ℤ → DataManager → Type 0
  HasFunds payer amount dm =
      ltb_ℤ (pos 0) amount ≡ true
      → ltb_ℤ (get_user_key_currency sr.storage payer dm).0 amount ≡ false

  -- A fee that both can pay, the author after the user.
  abbrev pub Settled : ℤ × ℤ → DataManager → Type 0
  Settled (user, author) dm =
      HasFunds "$user" user dm × HasFunds "$author" author (lacks sr "$user" user dm).1

  abbrev pub Charged : RunState → Option (ℤ × ℤ) → Type 0
  Charged s paid =
      (in_run_period sr ep s.0.tx_datamap ≡ true)
      × ((p : RunState) × (prepare sr ep inputs s ≡ some p)
          × ((fee : ℤ × ℤ) × (parse_fee ep.fees p.1 p.0.tx_datamap ≡ some fee)
              × (paid ≡ some fee)
              × Settled fee p.0))

  abbrev pub Accounted : RunState → Option RunResult → Type 0
  Accounted s none = Unit
  Accounted s (some r) =
      if r.status
      then (no_queries r.queries ≡ false) × Charged s r.fee
      else (r.queries ≡ []) × (empty r.info ≡ false)

  has_funds :
      (payer : String) (amount : ℤ) (dm : DataManager)
      → (lacks sr payer amount dm).0 ≡ false
      → HasFunds payer amount dm
  has_funds payer amount dm h due = ground arith

  by_queries :
      (s : RunState) (txid : String) (authority : Authority) (fee : ℤ × ℤ)
      (qs : List (String × Contents))
      → Charged s (some fee)
      → Accounted s (some (finished sr txid authority fee qs))
  by_queries s txid authority fee [] paid = (refl, refl)
  by_queries s txid authority fee (q ∷ qs) paid = (refl, paid)

  finish-Accounted :
      (s p : RunState) (txid : String) (authority : Authority) (fee : ℤ × ℤ)
      → Charged s (some fee)
      → Accounted s (finish sr ep txid authority fee p).0
  finish-Accounted s (dm, c) txid authority fee paid =
      let queries = (parse_set sr.services sr.parse_xml sr.storage ep.sets c dm).0 in
      elim (Option-cases queries) [
        | inl e ↦ rw e tt
        | inr (qs, e) ↦ rw e (by_queries s txid authority fee qs paid)
      ]

  charge-Accounted :
      (s p : RunState) (txid : String) (authority : Authority) (fee : ℤ × ℤ)
      → (Settled fee p.0 → Charged s (some fee))
      → Accounted s (charge sr ep txid authority fee p).0
  charge-Accounted s (dm, c) txid authority (user, author) paid =
      let (user_lacks, dm1) = lacks sr "$user" user dm in
      let (author_lacks, dm2) = lacks sr "$author" author dm1 in
      elim (Bool-cases user_lacks) [
        | inl e ↦ rw e (refl, refl)
        | inr e ↦ elim (Bool-cases author_lacks) [
          | inl f ↦ rw (e, f) (refl, refl)
          | inr f ↦
              rw (e, f)
                (finish-Accounted s (dm2, c) txid authority (user, author)
                  (paid (has_funds "$user" user dm e, has_funds "$author" author dm1 f)))
        ]
      ]

  -- A result with the status true has queries, and the contract was in its run period, the input was
  -- taken, and the fee that the result names is the one of the fee directives, which user and author
  -- both can pay. A result with the status false has no queries, and names a reason.
  pub run-Accounted : (s : RunState) → Accounted s (run sr ep inputs s).0
  unfolding run
  run-Accounted s = elim (Bool-cases (in_run_period sr ep s.0.tx_datamap)) [
    | inl e ↦ elim (Option-cases (prepare sr ep inputs s)) [
      | inl f ↦ rw (e, f) (refl, refl)
      | inr (p, f) ↦ elim (Option-cases (parse_fee ep.fees p.1 p.0.tx_datamap)) [
        | inl g ↦ rw (e, f, g) (refl, refl)
        | inr (fee, g) ↦
            rw (e, f, g)
              (charge-Accounted s p (eval s.0.tx_datamap "$tx.txid")
                (authority_of sr s.0.tx_datamap) fee (λ paid. (e, (p, f, (fee, g, refl, paid)))))
      ]
    ]
    | inr e ↦ rw e (refl, refl)
  ]
