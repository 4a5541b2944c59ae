-- ===== src/Payments/Queue/Moves.antt =====
-- The life of a held payment, over all verbs that touch the queue.
use kyriakon_infra.Base.{
  String, List, Option, Result, Bool, some, none, ok, [], ◌∷◌, ◌++◌, if◌then◌else◌, not, ◌≡◌, refl,
  true, false, inl, inr, ap, str_eq, Result-cases, ℕ, Option-cases,
}
use kyriakon_infra.Base.Chars.{codes, trim_text}
use kyriakon_infra.Payments.{is_empty, CreditIntent, credit_fields}
use kyriakon_infra.Payments.Apply.{
  Books, HeldItem, Answer, call, applied, refused, no_item, not_held,
}
use kyriakon_infra.Payments.Apply.Appends.{Appends}
use kyriakon_infra.Payments.Queue.{
  ReturnIntent, rewrite_unattributed, rewrite_at, return_item, mark_item, mark_attributed,
  reconcile_return, find_held, text_append,
}
use kyriakon_infra.Payments.Queue.Items.{
  Evolves, IsEvolved, IsEvolved-same, IsEvolved-trans, IsEvolved-snoc, rewrite_at-IsEvolved,
  return_item-Evolves, mark_item-Evolves,
}
use kyriakon_infra.Payments.Credit.{
  Payee, broken, nobody, body, member, attributed_before, reconcile_attribute, attribute_item,
  credit, Terms, Attribution, payment_intent, pay,
}
use kyriakon_infra.Payments.Credit.Once.{Enters, credit-Enters, pay-Appends}
use kyriakon_infra.Store.Tokens.{is_unattributed_id, is_payment_token}
use kyriakon_infra.Transitions.World.{Action, Fault, ◌>>◌, ◌>>=◌, fine, early, late}
use kyriakon_infra.Journal.{load}
use kyriakon_infra.Ledger.{has_intent}

module _ {Time : Type 0} where
  abbrev Follows : Books Time → Books Time → Type 0
  Follows b c = IsEvolved b.held c.held

  Appends-Follows : (b c : Books Time) → Appends b c → Follows b c
  Appends-Follows b c (inl e) = IsEvolved-same b.held c.held (ap (λ m. m.1) e)
  Appends-Follows b c (inr (line, e)) = IsEvolved-same b.held c.held (ap (λ m. m.1) e)

  Enters-Follows : (b c : Books Time) → Enters b c → Follows b c
  Enters-Follows b c (inl e) = Appends-Follows b c e
  Enters-Follows b c (inr (item, e)) =
      IsEvolved-trans b.held (b.held ++ item ∷ []) c.held (IsEvolved-snoc b.held item)
        (IsEvolved-same (b.held ++ item ∷ []) c.held (ap (λ m. m.1) e))

  if-Follows :
      {A : Type 0} (b : Books Time) (test : Bool) (x y : A × Books Time)
      → Follows b x.1
      → Follows b y.1
      → Follows b (if test then x else y).1
  if-Follows b true x y hx hy = hx
  if-Follows b false x y hx hy = hy

  same-Follows : (b : Books Time) → Follows b b
  same-Follows b = IsEvolved-same b.held b.held refl

  write_queue-Follows :
      (items : List HeldItem) (b : Books Time)
      → IsEvolved b.held items
      → Follows b (call (λ c. record c { held = items }) b).1
  unfolding call
  write_queue-Follows items b h = go b.faults
    where
      go :
          (fs : List Fault)
          → Follows b (call (λ c. record c { held = items }) (record b { faults = fs })).1
      go [] = h
      go (fine ∷ fs) = h
      go (early ∷ fs) = same-Follows b
      go (late ∷ fs) = h

  rewrite-Follows :
      (id : String) (change : HeldItem → Result String HeldItem) (b : Books Time)
      → ((i j : HeldItem) → change i ≡ ok j → Evolves i j)
      → Follows b (rewrite_unattributed id change b).1
  unfolding rewrite_unattributed
  rewrite-Follows id change b p = elim (Result-cases (rewrite_at id change b.held)) [
    | inr (why, e) ↦ rw (e, rewrite_unattributed) (same-Follows b)
    | inl (items, e) ↦
        rw (e, rewrite_unattributed)
          (write_queue-Follows items b (rewrite_at-IsEvolved id change b.held items p e))
  ]

  mark_attributed-Follows :
      (at item token : String) (b : Books Time) → Follows b (mark_attributed at item token b).1
  unfolding mark_attributed
  mark_attributed-Follows at item token b =
      rewrite-Follows item (mark_item at token) b (mark_item-Evolves at token)

  then_applied-Follows :
      (m : Action (Books Time) Unit) (b : Books Time)
      → Follows b (m b).1
      → Follows b ((m >> (λ c. (ok applied, c))) b).1
  then_applied-Follows m b h = elim (Result-cases (m b).0) [
    | inl (u, e) ↦ rw (e, ◌>>=◌) h
    | inr (x, e) ↦ rw (e, ◌>>=◌) h
  ]

  reconcile_return-Follows :
      (at : String) (intent : ReturnIntent) (b : Books Time)
      → Follows b (reconcile_return at intent b).1
  unfolding reconcile_return
  reconcile_return-Follows at intent b =
      if-Follows b (not (is_unattributed_id (codes intent.item))) _ _ (same-Follows b) (
        if-Follows b (is_empty (codes (trim_text intent.note))) _ _ (same-Follows b)
          (found (find_held intent.item b.held)))
    where
      found :
          (f : Option HeldItem)
          → Follows b
              (elim f as (λ _. Result String Answer × Books Time) [
                | none ↦ (ok (refused no_item), b)
                | some item ↦
                    if not (str_eq item.state "held")
                    then (ok (refused not_held), b)
                    else (rewrite_unattributed intent.item
                            (return_item at (text_append "returned: " (trim_text intent.note)))
                          >> (λ c. (ok applied, c)))
                        b
              ]).1
      found none = same-Follows b
      found (some item) = if-Follows b (not (str_eq item.state "held")) _ _ (same-Follows b) (
          then_applied-Follows (rewrite_unattributed intent.item (return_item at _)) b
            (rewrite-Follows intent.item (return_item at _) b (return_item-Evolves at _)))

  attributed_before-Follows :
      (payee : Payee) (b : Books Time) → Follows b (attributed_before payee b).1
  unfolding attributed_before
  attributed_before-Follows (broken problem) b = same-Follows b
  attributed_before-Follows (nobody problem) b = same-Follows b
  attributed_before-Follows (body domain) b = same-Follows b
  attributed_before-Follows (member username) b = same-Follows b

module _ {Time : Type 0} (parse_time : String → Option Time) (now release : String) where
  attribute_item-Follows :
      (terms : Terms) (intent : Attribution) (held : HeldItem) (payee : Payee) (b : Books Time)
      → Follows b (attribute_item parse_time now release terms intent held payee b).1
  unfolding attribute_item
  attribute_item-Follows terms intent held payee b =
      let payment = payment_intent intent held in
      if-Follows b (not (str_eq held.state "held")) _ _ (same-Follows b)
        (elim (Result-cases (credit_fields terms.calendar terms.today payment)) [
          | inr (why, e) ↦ rw e (same-Follows b)
          | inl (amount, e) ↦ elim (Option-cases (terms.calendar.parse_date payment.received)) [
            | inl f ↦ rw (e, f) (same-Follows b)
            | inr (received, f) ↦
                rw (e, f)
                  (Appends-Follows b
                    (pay parse_time now release terms payment amount received (some intent.item)
                      payee b).1
                    (pay-Appends parse_time now release terms payment amount received
                      (some intent.item) payee b))
          ]
        ])

  reconcile_attribute-Follows :
      (terms : Terms) (intent : Attribution) (payee : Payee) (b : Books Time)
      → Follows b (reconcile_attribute parse_time now release terms intent payee b).1
  unfolding reconcile_attribute
  reconcile_attribute-Follows terms intent payee b =
      if-Follows b (not (is_unattributed_id (codes intent.item))) _ _ (same-Follows b) (
        if-Follows b (not (is_payment_token (codes intent.token))) _ _ (same-Follows b) (
          if-Follows b (has_intent intent.id b.ledger) _ _ (attributed_before-Follows payee b)
            (found (find_held intent.item b.held))))
    where
      found :
          (f : Option HeldItem)
          → Follows b
              (elim f as (λ _. Result String Answer × Books Time) [
                | none ↦ (ok (refused no_item), b)
                | some held ↦ attribute_item parse_time now release terms intent held payee b
              ]).1
      found none = same-Follows b
      found (some held) = attribute_item-Follows terms intent held payee b

  -- The verbs that touch the queue, and the mark behind the line of an attribution.
  pub data Operation : Type 0 where
    crediting : Terms → CreditIntent → Payee → Option ℕ → Operation
    attributing : Terms → Attribution → Payee → Operation
    returning : String → ReturnIntent → Operation
    marking : String → String → String → Operation

  pub perform : Operation → Books Time → Books Time
  perform (crediting terms intent payee draw) b =
      (credit parse_time now release terms intent payee draw b).1
  perform (attributing terms intent payee) b =
      (reconcile_attribute parse_time now release terms intent payee b).1
  perform (returning at intent) b = (reconcile_return at intent b).1
  perform (marking at item token) b = (mark_attributed at item token b).1

  -- Each operation meets its own faults, and begins on a fresh index of the journal's file.
  pub perform_all : List (List Fault × Operation) → Books Time → Books Time
  perform_all [] b = b
  perform_all ((fs, op) ∷ ops) b =
      perform_all ops (perform op (record b { index = load parse_time b.lines; faults = fs }))

  perform-Follows : (op : Operation) (b : Books Time) → Follows b (perform op b)
  unfolding perform
  perform-Follows (crediting terms intent payee draw) b =
      Enters-Follows b (credit parse_time now release terms intent payee draw b).1
        (credit-Enters parse_time now release terms intent payee draw b)
  perform-Follows (attributing terms intent payee) b =
      reconcile_attribute-Follows terms intent payee b
  perform-Follows (returning at intent) b = reconcile_return-Follows at intent b
  perform-Follows (marking at item token) b = mark_attributed-Follows at item token b

  -- Over any sequence of credits, attributions, returns and marks, with calls that fail anywhere, every
  -- item of the queue stays at its place, and is as it was or has been settled once: a held item became
  -- attributed to one token or returned with its evidence, its other fields kept. So an item that is
  -- attributed or returned never changes again, and none is dropped.
  pub item_settled_once :
      (ops : List (List Fault × Operation)) (b : Books Time)
      → IsEvolved b.held (perform_all ops b).held
  unfolding perform_all
  item_settled_once [] b = same-Follows b
  item_settled_once ((fs, op) ∷ ops) b =
      let start : Books Time = record b { index = load parse_time b.lines; faults = fs } in
      IsEvolved-trans b.held (perform op start).held (perform_all ops (perform op start)).held
        (perform-Follows op start) (item_settled_once ops (perform op start))
