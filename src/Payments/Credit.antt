-- ===== src/Payments/Credit.antt =====
-- The verbs of a payment (`credit` and `reconcile_attribute` of onboard/src/transitions/payments.rs). Whom
-- a token pays is read from its index and the accounts; the books have the account, or the group, of the
-- token.
pub mod Once
use kyriakon_infra.Base.{
  String, Option, Bool, ℕ, some, none, ok, err, if◌then◌else◌, not, str_eq, ◌||◌,
}
use kyriakon_infra.Base.Chars.{codes}
use kyriakon_infra.Ledger.{has_intent}
use kyriakon_infra.Dates.{Date, Calendar}
use kyriakon_infra.Payments.{CreditIntent, credit_fields, is_empty}
use kyriakon_infra.Payments.Join
use kyriakon_infra.Payments.Join.{Store, TokenRecord, token_join, resolve_payment}
use kyriakon_infra.Payments.Apply.{
  Books, HeldItem, Answer, replayed, refused, bad_field, bad_item, bad_item_token, no_item,
  not_held, unresolved, held_has_intent, apply_payment,
}
use kyriakon_infra.Payments.Queue.{hold, find_held}
use kyriakon_infra.Payments.Group.{group_credit}
use kyriakon_infra.Store.Tokens.{is_payment_token, is_unattributed_id}
use kyriakon_infra.Transitions.World.{Action}

-- Nothing, a group by its domain, or an account by its name; `broken` where the index itself is wrong.
pub data Payee : Type 0 where
  broken nobody : Join.Problem → Payee
  body member : String → Payee

abbrev pub group_of : Option TokenRecord → Option String
group_of none = none
group_of (some join) = join.group

unfoldable pub payee_of : Store → String → Payee
payee_of store token = elim (token_join store token) [
  | err problem ↦ broken problem
  | ok join ↦ elim (group_of join) [
    | some domain ↦ body domain
    | none ↦ elim (resolve_payment store token) [
      | err problem ↦ nobody problem
      | ok (username, account, payment) ↦ member username
    ]
  ]
]

-- The prices and the calendar of a pass, and its day.
pub record Terms : Type 0 where
  pub price_gbp : String
  pub group_price_gbp : String
  pub calendar : Calendar
  pub today : Date

-- `AttributeIntent`, the fields that are read.
pub record Attribution : Type 0 where
  pub id : String
  pub kind : String
  pub item : String
  pub token : String
  pub confirm_double : Bool
  pub override_reason : Option String

-- The held payment as a credit of the attribution.
unfoldable pub payment_intent : Attribution → HeldItem → CreditIntent
payment_intent intent held = record {
  id = intent.id;
  kind = intent.kind;
  token = intent.token;
  rail = held.rail;
  amount_gbp = held.amount_gbp;
  received = held.received_on;
  txid = held.txid;
  amount_xmr = held.amount_xmr;
  confirm_double = intent.confirm_double;
  override_reason = intent.override_reason;
  note = held.note;
}

module _ {Time : Type 0} where
  -- The answer where the payment is in the ledger: the token is read once more for its name.
  unfoldable pub attributed_before : Payee → Action (Books Time) Answer
  attributed_before (broken problem) b = (err "the token's index", b)
  attributed_before (nobody problem) b = (ok replayed, b)
  attributed_before (body domain) b = (ok replayed, b)
  attributed_before (member username) b = (ok replayed, b)

module _ {Time : Type 0} (parse_time : String → Option Time) (now release : String) where
  -- The money goes to whom the token names.
  pub pay : Terms → CreditIntent → ℕ → Date → Option String → Payee → Action (Books Time) Answer
  pay terms intent amount received attributed (broken problem) b =
      (ok (refused (unresolved problem)), b)
  pay terms intent amount received attributed (nobody problem) b =
      (ok (refused (unresolved problem)), b)
  pay terms intent amount received attributed (body domain) b =
      group_credit parse_time now release terms.group_price_gbp terms.calendar terms.today intent
        domain attributed b
  pay terms intent amount received attributed (member username) b =
      apply_payment parse_time now release terms.price_gbp terms.calendar intent username amount
        received attributed b

  pub credit : Terms → CreditIntent → Payee → Option ℕ → Action (Books Time) Answer
  credit terms intent payee draw b =
      if has_intent intent.id b.ledger || held_has_intent intent.id b.held
      then (ok replayed, b)
      else elim (credit_fields terms.calendar terms.today intent) [
        | err why ↦ (ok (refused (bad_field why)), b)
        | ok amount ↦ elim (terms.calendar.parse_date intent.received) [
          | none ↦ (err "the date was validated above", b)
          | some received ↦
              if is_empty (codes intent.token)
              then hold intent amount received draw b
              else pay terms intent amount received none payee b
        ]
      ]

  unfoldable pub attribute_item :
      Terms → Attribution → HeldItem → Payee → Action (Books Time) Answer
  attribute_item terms intent held payee b =
      let payment = payment_intent intent held in
      if not (str_eq held.state "held")
      then (ok (refused not_held), b)
      else elim (credit_fields terms.calendar terms.today payment) [
        | err why ↦ (ok (refused (bad_field why)), b)
        | ok amount ↦ elim (terms.calendar.parse_date payment.received) [
          | none ↦ (err "the date was validated above", b)
          | some received ↦ pay terms payment amount received (some intent.item) payee b
        ]
      ]

  unfoldable pub reconcile_attribute : Terms → Attribution → Payee → Action (Books Time) Answer
  reconcile_attribute terms intent payee b =
      if not (is_unattributed_id (codes intent.item))
      then (ok (refused bad_item), b)
      else if not (is_payment_token (codes intent.token))
      then (ok (refused bad_item_token), b)
      else if has_intent intent.id b.ledger
      then attributed_before payee b
      else elim (find_held intent.item b.held) [
        | none ↦ (ok (refused no_item), b)
        | some held ↦ attribute_item terms intent held payee b
      ]
