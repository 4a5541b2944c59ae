-- ===== src/Payments/Queue.antt =====
-- The queue of held payments (`hold`, `reconcile_return`, `mark_attributed` and `rewrite_unattributed` of
-- onboard/src/transitions/payments.rs). The id of a new item is drawn: the low 40 bits of eight bytes, or
-- no draw. A text is written in its own words, a number or a date as it is printed.
pub mod Items
pub mod Moves
mod Tests
use kyriakon_infra.Base.{
  String, List, Option, Result, ℕ, some, none, ok, err, [], ◌∷◌, ◌++◌, if◌then◌else◌, not, str_eq,
}
use kyriakon_infra.Base.Chars.{codes, plain_text, trim_text, chars, string}
use kyriakon_infra.Dates.{Date}
use kyriakon_infra.Payments.{CreditIntent, is_empty}
use kyriakon_infra.Payments.Apply.{
  Books, HeldItem, Answer, applied, refused, hand_cash, no_note, bad_item, no_item, not_held,
  no_evidence, call, txid_problem, date_string, gbp_text,
}
use kyriakon_infra.Store.Tokens.{crockford8, unattributed_draw, is_unattributed_id}
use kyriakon_infra.Transitions.World.{Action, ◌>>◌}

-- `ReturnIntent`, the fields that are read.
pub record ReturnIntent : Type 0 where
  pub item : String
  pub note : String

-- `format!` of texts.
abbrev pub text_append : String → String → String
text_append a b = string (chars a ++ chars b)

-- A note that is not blank, without the blanks around it.
unfoldable pub note_of : Option String → Option String
note_of none = none
note_of (some note) = let kept = trim_text note in if is_empty (codes kept) then none else some kept

pub held_item : CreditIntent → ℕ → Date → ℕ → String → HeldItem
held_item intent amount received draw note = record {
  id = plain_text (crockford8 (unattributed_draw draw));
  state = "held";
  rail = intent.rail;
  amount_gbp = gbp_text amount;
  received_on = date_string received;
  amount_xmr = intent.amount_xmr;
  txid = intent.txid;
  intent = intent.id;
  note = some note;
  attributed_at = none;
  attributed_to = none;
  returned_at = none;
}

unfoldable pub find_held : String → List HeldItem → Option HeldItem
find_held id [] = none
find_held id (item ∷ items) =
    let later = find_held id items in if str_eq item.id id then some item else later

-- The first item of the id, changed; the items in their order.
pub rewrite_at :
    String → (HeldItem → Result String HeldItem) → List HeldItem → Result String (List HeldItem)
rewrite_at id change [] = err "no held payment with this id"
rewrite_at id change (item ∷ items) =
    let later = rewrite_at id change items in
    if str_eq item.id id
    then elim (change item) [ ok changed ↦ ok (changed ∷ items) | err e ↦ err e ]
    else elim later [ ok changed ↦ ok (item ∷ changed) | err e ↦ err e ]

-- What a return writes on an item: the first note stays in front of the evidence.
pub return_item : String → String → HeldItem → Result String HeldItem
return_item now evidence item =
    if not (str_eq item.state "held")
    then err "the item is not held"
    else ok (record item {
      state = "returned";
      returned_at = some now;
      note = some (elim item.note [
        | some original ↦ text_append original (text_append "; " evidence)
        | none ↦ evidence
      ]);
    })

pub mark_item : String → String → HeldItem → Result String HeldItem
mark_item now token item =
    if str_eq item.state "returned"
    then err "the item was returned, so it cannot be attributed"
    else if str_eq item.state "held"
    then ok
        (record item { state = "attributed"; attributed_at = some now; attributed_to = some token })
    else ok item

module _ {Time : Type 0} where
  unfoldable pub append_held : HeldItem → Action (Books Time) Unit
  append_held item = call (λ b. record b { held = b.held ++ item ∷ [] })

  unfoldable pub hold : CreditIntent → ℕ → Date → Option ℕ → Action (Books Time) Answer
  hold intent amount received draw b =
      if str_eq intent.rail "cash-hand"
      then (ok (refused hand_cash), b)
      else elim (note_of intent.note) [
        | none ↦ (ok (refused no_note), b)
        | some note ↦ elim (txid_problem intent.txid none b.ledger b.held) [
          | some problem ↦ (ok (refused problem), b)
          | none ↦ elim draw [
            | none ↦ (err "cannot draw an id", b)
            | some n ↦
                (append_held (held_item intent amount received n note) >> (λ c. (ok applied, c))) b
          ]
        ]
      ]

  pub rewrite_unattributed : String → (HeldItem → Result String HeldItem) → Action (Books Time) Unit
  rewrite_unattributed id change b = elim (rewrite_at id change b.held) [
    | err e ↦ (err e, b)
    | ok items ↦ call (λ c. record c { held = items }) b
  ]

  pub mark_attributed : String → String → String → Action (Books Time) Unit
  mark_attributed now item token = rewrite_unattributed item (mark_item now token)

  pub reconcile_return : String → ReturnIntent → Action (Books Time) Answer
  reconcile_return now intent b =
      let note = trim_text intent.note in
      if not (is_unattributed_id (codes intent.item))
      then (ok (refused bad_item), b)
      else if is_empty (codes note)
      then (ok (refused no_evidence), b)
      else elim (find_held intent.item b.held) [
        | none ↦ (ok (refused no_item), b)
        | some item ↦
            if not (str_eq item.state "held")
            then (ok (refused not_held), b)
            else (rewrite_unattributed intent.item (return_item now (text_append "returned: " note))
                  >> (λ c. (ok applied, c)))
                b
      ]
