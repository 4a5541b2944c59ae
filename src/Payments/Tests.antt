-- ===== src/Payments/Tests.antt =====
-- A credit of cash (onboard/src/transitions/payments.rs).
use kyriakon_infra.Money.{pennies, amount, number}
use kyriakon_infra.Payments.{CreditIntent, credit_fields, credit_amount, valid_txid, valid_xmr}
use kyriakon_infra.Payments.Fields.{IsChecked, credit_fields-IsChecked}
use kyriakon_infra.Dates.{Date, Calendar, received_beyond_window, credit_ceiling, anniversary}
use kyriakon_infra.Ledger.{last_payment, last_payment_from, has_intent, by_txid}
use kyriakon_infra.Base.{
  ◌≡◌, none, true, [], some, ◌∷◌, if◌then◌else◌, ok, ◌+◌, false, str_eq, ◌*◌, ◌≤◌, String, refl,
  Option, List, ℕ, arith,
}
use kyriakon_infra.Payments.Join.{
  Store, Account, resolve_payment, IsJoined, Payment, resolve_payment-IsJoined,
  resolve_payment_once, token_join, account_payment,
}
use kyriakon_infra.Payments.Line.{append_credit_ledger, credit_line, ledger_txid, credit_recorded}
use kyriakon_infra.Payments.Amounts.{pay_all, sum, pay_all-accounts}
use kyriakon_infra.Ledger.Lookups.{numbered}
use kyriakon_infra.Validate.{username_shape}
use kyriakon_infra.Store.Tokens.{is_payment_token, payment_symbols}
use kyriakon_infra.Money.{pence, amount, number}
use kyriakon_infra.Base.Chars.{split_once, utf8_len}
use kyriakon_infra.Payments.Apply.{Books}
use kyriakon_infra.Payments.Apply.Once.{count_intent, Try, tries, credit_once}
use kyriakon_infra.Journal.{load}
use kyriakon_infra.Transitions.World.{fine, late}
use kyriakon_infra.Store.{CreditProgress, JournalLine, account_ref}

abbrev received_on : Date
received_on = record { year = 2026; month = 5; day = 1 }

-- A calendar that reads one date.
abbrev calendar : Calendar
calendar = record {
  length = λ m y. 28;
  from_calendar_date = λ y m d. some (record { year = y; month = m; day = d });
  parse_date = λ s. if str_eq s "2026-05-01" then some received_on else none;
  parse_stamp = λ s. none;
}

abbrev intent : CreditIntent
intent = record {
  id = "i1";
  kind = "credit";
  token = "KYR-4F2M-9QH7-XT3B";
  rail = "cash";
  amount_gbp = "19.80";
  received = "2026-05-01";
  txid = none;
  amount_xmr = some "0.25";
  confirm_double = false;
  override_reason = none;
  note = none;
}

checked : credit_fields calendar received_on intent ≡ ok 1980
unfolding credit_fields credit_amount valid_txid valid_xmr is_payment_token payment_symbols
    received_beyond_window credit_ceiling anniversary pence amount number pennies split_once
    utf8_len
checked = refl

credit_fields-IsChecked_test : IsChecked calendar received_on intent 1980
credit_fields-IsChecked_test = credit_fields-IsChecked calendar received_on intent 1980 checked

pay_all-accounts_example :
    let (left, years) = pay_all 2000 0 (1979 ∷ 1980 ∷ 1990 ∷ []) in
    (0 + sum (1979 ∷ 1980 ∷ 1990 ∷ []) ≤ 2000 * years + left)
    × ((2000 * years + left) * 100 ≤ (0 + sum (1979 ∷ 1980 ∷ 1990 ∷ [])) * 100 + 2000 * years)
pay_all-accounts_example = pay_all-accounts 2000 0 (1979 ∷ 1980 ∷ 1990 ∷ [])

abbrev payment : Payment
payment = record { token_ref = some "KYR-1"; paid_until = none; rail = none; balance_gbp = none }

abbrev account : Account
account = record { state = "active"; payment = some payment }

abbrev store : Store
store = record {
  token = λ t.
      if str_eq t "KYR-1"
      then some (record { token = "KYR-1"; username = "anna"; group = none })
      else none;
  account = λ u. if str_eq u "anna" then some account else none;
}

resolved : resolve_payment store "KYR-1" ≡ ok ("anna", account, payment)
unfolding resolve_payment token_join account_payment username_shape
resolved = refl

resolve_payment-IsJoined_example : IsJoined store "KYR-1" "anna" account payment
resolve_payment-IsJoined_example =
    resolve_payment-IsJoined store "KYR-1" "anna" account payment resolved

abbrev token : String
token = "KYR-1"

resolve_payment_once_test : token ≡ token
resolve_payment_once_test =
    resolve_payment_once store token token "anna" account account payment payment resolved resolved

no_payment : last_payment "KYR-4F2M-9QH7-XT3B" [] ≡ ok none
no_payment = unfold last_payment last_payment_from in refl

credit_recorded_test :
    let after =
      append_credit_ledger intent none "2026-05-01" "19.80" "20.00" (some "2027-05-01") [] in
    let line =
      numbered (credit_line intent none "2026-05-01" "19.80" "20.00" (some "2027-05-01")) [] in
    (has_intent "i1" after ≡ true)
    × (last_payment "KYR-4F2M-9QH7-XT3B" after ≡ ok (some line))
    × ((txid : String)
        → intent.txid ≡ some txid
        → by_txid txid [] ≡ none
        → ledger_txid txid after ≡ some (line.seq, "2026-05-01"))
credit_recorded_test =
    credit_recorded intent none "2026-05-01" "19.80" "20.00" (some "2027-05-01") [] none no_payment

abbrev clock : String → Option ℕ
clock s = if str_eq s "noon" then some 43200 else none

abbrev books : Books ℕ
books = record {
  account = record {
    state = "lapsed";
    grace_until = some "2026-06-01";
    closing_until = none;
    paid_until = none;
    balance_gbp = none;
    rail = none;
    window = some "open";
    monero = none;
  };
  group = none;
  mailboxes = [];
  ledger = [];
  held = [];
  lines = [];
  index = load clock [];
  outward = [];
  faults = [];
}

-- The ledger's line is written and the call reports an error all the same; the credit is tried again.
abbrev attempts : List (Try clock "noon" "r1")
attempts =
    record { faults = fine ∷ fine ∷ fine ∷ fine ∷ late ∷ []; today = received_on }
    ∷ record { faults = []; today = received_on }
    ∷ []

credit_once_test :
    count_intent "i1" (tries clock "noon" "r1" "20.00" calendar intent "anna" attempts books).ledger
    ≤ 1
credit_once_test =
    credit_once clock "noon" "r1" "20.00" calendar intent "anna" attempts books
      (unfold count_intent in omega arith)

abbrev progress : CreditProgress
progress = record {
  paid = true;
  paid_until_after = some "2027-05-01";
  applied_gbp = "20.00";
  balance_gbp = none;
}

abbrev applying : JournalLine
applying = record {
  version = 1;
  at = "noon";
  intent = "i1";
  kind = "credit";
  release = "r1";
  application = account_ref "anna";
  outcome = "applying";
  note = none;
  credit = some progress;
}

-- The account is written and the ledger is not.
abbrev cut : Books ℕ
cut = record books {
  account = record (books.account) { state = "active"; paid_until = some "2027-05-01" };
  lines = applying ∷ [];
  index = load clock (applying ∷ []);
}
