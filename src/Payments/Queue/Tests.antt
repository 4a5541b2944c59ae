-- ===== src/Payments/Queue/Tests.antt =====
-- The verbs of a payment at work: a payment that is held, a group that is restored.
use kyriakon_infra.Base.{
  String, List, Option, ℕ, some, none, ok, [], ◌∷◌, ◌≡◌, ◌≤◌, str_eq, false, if◌then◌else◌, map,
  ◌++◌, arith, true,
}
use kyriakon_infra.Dates.{Calendar, Date}
use kyriakon_infra.Journal.{load}
use kyriakon_infra.Payments.{CreditIntent}
use kyriakon_infra.Payments.Apply.{Account, Books, HeldItem}
use kyriakon_infra.Payments.Apply.Appends.{money}
use kyriakon_infra.Payments.Queue.Items.{IsEvolved}
use kyriakon_infra.Payments.Queue.Moves.{
  Operation, attributing, returning, marking, perform_all, item_settled_once,
}
use kyriakon_infra.Payments.Credit.{Terms, nobody, member, Attribution}
use kyriakon_infra.Payments.Credit.Once.{Try, tries, entries, recorded_once, count_held}
use kyriakon_infra.Payments.Group.{restore_group_mailboxes}
use kyriakon_infra.Payments.Group.Restored.{as_meant, scripts, restored_in_the_end}
use kyriakon_infra.Payments.Join.{not_in_index}
use kyriakon_infra.Transitions.World.{Fault, fine, early, late}
use kyriakon_infra.Payments.Apply.Once.{count_intent}

abbrev received_on : Date
received_on = record { year = 2026; month = 5; day = 1 }

abbrev calendar : Calendar
calendar = record {
  length = λ m y. 28;
  from_calendar_date = λ y m d. some (record { year = y; month = m; day = d });
  parse_date = λ s.
      if str_eq s "2026-05-01"
      then some received_on
      else if str_eq s "2027-05-01"
      then some (record { year = 2027; month = 5; day = 1 })
      else none;
  parse_stamp = λ s. none;
}

abbrev intent : CreditIntent
intent = record {
  id = "i1";
  kind = "credit";
  token = "";
  rail = "cash";
  amount_gbp = "20.00";
  received = "2026-05-01";
  txid = none;
  amount_xmr = none;
  confirm_double = false;
  override_reason = none;
  note = some "no name on the envelope";
}

abbrev terms : Terms
terms = record {
  price_gbp = "20.00";
  group_price_gbp = "60.00";
  calendar = calendar;
  today = received_on;
}

abbrev account : String → Account
account state = record {
  state = state;
  grace_until = none;
  closing_until = none;
  paid_until = none;
  balance_gbp = none;
  rail = none;
  window = none;
  monero = none;
}

abbrev item : HeldItem
item = record {
  id = "UN-00000001";
  state = "held";
  rail = "cash";
  amount_gbp = "20.00";
  received_on = "2026-05-01";
  amount_xmr = none;
  txid = none;
  intent = "i0";
  note = some "an envelope";
  attributed_at = none;
  attributed_to = none;
  returned_at = none;
}

abbrev clock : String → Option ℕ
clock s = none

abbrev books : Books ℕ
books = record {
  account = account "active";
  group = none;
  mailboxes =
      some (account "lapsed") ∷ none ∷ some (account "closing") ∷ some (account "lapsed") ∷ [];
  ledger = [];
  held = item ∷ [];
  lines = [];
  index = load clock [];
  outward = [];
  faults = fine ∷ fine ∷ early ∷ [];
}

-- The line of the queue is written and the call reports an error all the same; the credit is tried again.
abbrev attempts : List (Try clock "noon" "r1")
attempts =
    record { faults = late ∷ []; terms = terms; payee = nobody not_in_index; draw = some 7 }
    ∷ record { faults = []; terms = terms; payee = nobody not_in_index; draw = some 8 }
    ∷ []

recorded_once_example : entries "i1" (money (tries clock "noon" "r1" intent attempts books)) ≤ 1
recorded_once_example =
    recorded_once clock "noon" "r1" intent attempts books
      (unfold entries count_intent count_held in omega arith)

abbrev ops : List (List Fault × Operation clock "noon" "r1")
ops =
    (early ∷ [], marking "noon" "UN-00000001" "KYR-4F2M-9QH7-XT3B")
    ∷ ([], marking "noon" "UN-00000001" "KYR-4F2M-9QH7-XT3B")
    ∷ ([], returning "noon" (record { item = "UN-00000001"; note = "sent back" }))
    ∷ []

item_settled_once_example : IsEvolved (item ∷ []) (perform_all clock "noon" "r1" ops books).held
item_settled_once_example = item_settled_once clock "noon" "r1" ops books

restored_in_the_end_example :
    let c = (restore_group_mailboxes books).1 in
    restore_group_mailboxes (record c { faults = [] }) ≡ (
      ok tt,
      record c {
        faults = [];
        mailboxes = map as_meant books.mailboxes;
        outward = c.outward ++ scripts c.mailboxes;
      },
    )
restored_in_the_end_example = restored_in_the_end books

-- The receipt of an attribution fails, so its item is still held; a second attribution of the item puts
-- the one payment in the ledger again.
abbrev attribution : String → String → Attribution
attribution id token = record {
  id = id;
  kind = "reconcile-attribute";
  item = "UN-00000001";
  token = token;
  confirm_double = true;
  override_reason = none;
}

abbrev twice : List (List Fault × Operation clock "noon" "r1")
twice =
    (
      fine ∷ fine ∷ fine ∷ fine ∷ early ∷ [],
      attributing terms (attribution "i2" "KYR-4F2M-9QH7-XT3B") (member "anna"),
    )
    ∷ ([], attributing terms (attribution "i3" "KYR-4F2M-9QH7-XT3C") (member "berta"))
    ∷ []

-- The tokens of the ledger after both: two lines for one payment.
abbrev tokens : List String
tokens = map (λ l. l.token) (perform_all clock "noon" "r1" twice books).ledger
