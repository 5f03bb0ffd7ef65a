-- ===== src/Net/Merger/Relayed.antt =====
-- What becomes of the broadcasts that nodes pass on.
use gruut.Base.{
  Bytes, Option-cases, ◌⊎◌, ◌==◌, ◌≡◌, refl, sym, ap, ◌∙◌, subst, inl, inr, Bool, true, ◌&&◌,
  Option, some, none, [], ◌∷◌, Bool-cases, at-insert_or_assign_self,
}
use gruut.Net.Message.{InNetMsg, msg_tx}
use gruut.Net.Packer.{Codec, parse_message, Parsed, out_of_range, refused, parsed}
use gruut.Net.Validator.{validate}
use gruut.Net.Service.{Effects, needs_context, needs_pool}
use gruut.Net.Merger.{
  Request, MergerAnswer, MergerState, NodeInfo, refuse, duplicated, relay, is_seen, is_there, noted,
  handle_with_context, handle_request, conclude, take_message, merger_service,
}

-- What holds of an answer, if there is one.
abbrev Ends : (MergerAnswer → Type 0) → Option MergerAnswer → Type 0
Ends P none = Unit
Ends P (some a) = P a

abbrev passed_on : Bytes → Request
passed_on bs = record { message = bs; broadcast = true; message_id = "" }

-- A request that a node passes on.
abbrev pub IsRelayed : Codec → Request → Type 0
IsRelayed c r =
    (bs : Bytes) × (msg : InNetMsg) × (r ≡ passed_on bs)
    × (parse_message c bs ≡ parsed msg)
    × (validate msg.body ≡ true)

seen : MergerState → Bool
seen s = is_seen "" s.broadcast_check_table

module _ (n : NodeInfo) where
  -- The handler leaves the table of broadcasts alone.
  abbrev Keeps : MergerState → Option (Effects × MergerState) → Type 0
  Keeps s none = Unit
  Keeps s (some (e, s')) = s'.broadcast_check_table ≡ s.broadcast_check_table

  handle_with_context-Keeps :
      (msg : InNetMsg) (s : MergerState) → Keeps s (handle_with_context n msg s)
  unfolding handle_with_context
  handle_with_context-Keeps msg s = elim (Bool-cases (needs_context msg.type)) [
    | inl h ↦ elim (Option-cases n.net_id) [
      | inl no_id ↦ rw (h, no_id) tt
      | inr (id, e) ↦ rw (h, e) refl
    ]
    | inr h ↦ elim (Bool-cases (needs_pool msg.type)) [
      | inl g ↦ rw (h, g) tt
      | inr g ↦ rw (h, g) refl
    ]
  ]

  handle_request-Keeps : (msg : InNetMsg) (s : MergerState) → Keeps s (handle_request n msg s)
  handle_request-Keeps msg s = elim (Bool-cases (n.monitoring && msg.type == msg_tx)) [
    | inl h ↦ rw h refl
    | inr h ↦ rw h (handle_with_context-Keeps msg s)
  ]

  conclude-Keeps :
      (P : MergerAnswer → Type 0) (q : Request) (s : MergerState)
      (o : Option (Effects × MergerState))
      → Keeps s o
      → ((a : MergerAnswer)
          → a.relayed ≡ relay q
          → a.state.broadcast_check_table ≡ s.broadcast_check_table
          → P a)
      → Ends P (conclude n q o)
  conclude-Keeps P q s none k f = tt
  conclude-Keeps P q s (some (e, s')) k f = f _ refl k

  module _ (c : Codec) where
    -- What a node passes on, if anything, is a relayed request.
    abbrev Sends : MergerAnswer → Type 0
    Sends a = (a.relayed ≡ []) ⊎ ((r : Request) × (a.relayed ≡ r ∷ []) × IsRelayed c r)

    relay-Sends :
        (q : Request) (msg : InNetMsg) (a : MergerAnswer)
        → parse_message c q.message ≡ parsed msg
        → validate msg.body ≡ true
        → a.relayed ≡ relay q
        → Sends a
    relay-Sends q msg a parses valid l = elim (Bool-cases q.broadcast) [
      | inl b ↦ inr (passed_on q.message, (rw b at l), (q.message, msg, refl, parses, valid))
      | inr b ↦ inl (rw b at l)
    ]

    take_message-Sends :
        (q : Request) (msg : InNetMsg) (s : MergerState)
        → parse_message c q.message ≡ parsed msg
        → Ends Sends (take_message n q msg s)
    unfolding take_message
    take_message-Sends q msg s parses = elim (Bool-cases (validate msg.body)) [
      | inr bad ↦ rw bad (inl refl)
      | inl valid ↦
          elim (Bool-cases (q.broadcast && is_seen q.message_id s.broadcast_check_table)) [
            | inl known ↦ rw (valid, known) (inl refl)
            | inr new ↦
                rw (valid, new)
                  (conclude-Keeps Sends q (noted n.now q s) _ (handle_request-Keeps msg _)
                    λ a l t. relay-Sends q msg a parses valid l)
          ]
    ]

    merger_service-Sends : (q : Request) (s : MergerState) → Ends Sends (merger_service n c q s)
    unfolding merger_service
    merger_service-Sends q s = go (parse_message c q.message) refl
      where
        go : (r : Parsed) → parse_message c q.message ≡ r → Ends Sends (merger_service n c q s)
        go out_of_range e = rw (merger_service, e) tt
        go (refused err) e = rw (merger_service, e) (inl refl)
        go (parsed msg) e = rw (merger_service, e) (take_message-Sends q msg s e)

  take_message-seen :
      (bs : Bytes) (msg : InNetMsg) (s : MergerState)
      → validate msg.body ≡ true
      → Ends (λ a. seen a.state ≡ true) (take_message n (passed_on bs) msg s)
  unfolding take_message seen
  take_message-seen bs msg s valid = elim (Bool-cases (is_seen "" s.broadcast_check_table)) [
    | inl known ↦ rw (valid, known) known
    | inr new ↦
        rw (valid, new)
          (conclude-Keeps (λ a. seen a.state ≡ true) (passed_on bs) (noted n.now (passed_on bs) s) _
            (handle_request-Keeps msg _)
            λ a l t. rw t (ap is_there (at-insert_or_assign_self "" n.now s.broadcast_check_table)))
  ]

  take_message-duplicated :
      (bs : Bytes) (msg : InNetMsg) (s : MergerState)
      → validate msg.body ≡ true
      → seen s ≡ true
      → take_message n (passed_on bs) msg s ≡ some (refuse duplicated s)
  unfolding take_message seen
  take_message-duplicated bs msg s valid known = rw (valid, known) refl

module _ (c : Codec) where
  relayed_of :
      (n : NodeInfo) (q r : Request) (s : MergerState) (a : MergerAnswer)
      → merger_service n c q s ≡ some a
      → a.relayed ≡ r ∷ []
      → IsRelayed c r
  relayed_of n q r s a h l = elim (subst (Ends (Sends n c)) h (merger_service-Sends n c q s)) [
    | inl none_sent ↦ let e : r ∷ [] ≡ [] = sym l ∙ none_sent in cc
    | inr (r', l', w) ↦ let e : r' ≡ r = cc in subst (IsRelayed c) e w
  ]

  received-seen :
      (n : NodeInfo) (r : Request) (s : MergerState) (a : MergerAnswer)
      → IsRelayed c r
      → merger_service n c r s ≡ some a
      → seen a.state ≡ true
  unfolding merger_service
  received-seen n r s a (bs, msg, same, parses, valid) h =
      subst (Ends (λ b. seen b.state ≡ true))
        (sym (ap (λ q. merger_service n c q s) same ∙ rw (merger_service, parses) refl) ∙ h)
        (take_message-seen n bs msg s valid)

  received-duplicated :
      (n : NodeInfo) (r : Request) (s : MergerState)
      → IsRelayed c r
      → seen s ≡ true
      → merger_service n c r s ≡ some (refuse duplicated s)
  unfolding merger_service
  received-duplicated n r s (bs, msg, same, parses, valid) known =
      ap (λ q. merger_service n c q s) same
      ∙ rw (merger_service, parses) (take_message-duplicated n bs msg s valid known)

  -- Of two broadcasts that nodes have passed on, whatever they are, a node that gets one after the other
  -- refuses the second as a duplicate: it neither handles it nor passes it on.
  pub merger_service-duplicated :
      (n1 n2 n m : NodeInfo) (q1 q2 r1 r2 : Request) (s1 s2 s : MergerState)
      (a1 a2 a : MergerAnswer)
      → merger_service n1 c q1 s1 ≡ some a1
      → a1.relayed ≡ r1 ∷ []
      → merger_service n2 c q2 s2 ≡ some a2
      → a2.relayed ≡ r2 ∷ []
      → merger_service n c r1 s ≡ some a
      → merger_service m c r2 a.state ≡ some (refuse duplicated a.state)
  merger_service-duplicated n1 n2 n m q1 q2 r1 r2 s1 s2 s a1 a2 a h1 l1 h2 l2 h =
      received-duplicated m r2 a.state (relayed_of n2 q2 r2 s2 a2 h2 l2)
        (received-seen n r1 s a (relayed_of n1 q1 r1 s1 a1 h1 l1) h)
