-- ===== src/Payments/Apply/Resume.antt =====
-- A pass that had written the account and not the ledger is finished from what it journalled.
use kyriakon_infra.Transitions.World.{Action}
use kyriakon_infra.Payments.Apply.{Books, String, CreditIntent, credit_line, date_string, gbp_text}
use kyriakon_infra.Base.{String, Option, ◌≡◌, ℕ}
use kyriakon_infra.Ledger.{LedgerLine}
use kyriakon_infra.Payments.{CreditIntent}
use kyriakon_infra.Dates.{Date}
use kyriakon_infra.Store.{CreditProgress}
use kyriakon_infra.Payments.Line.{credit_line}

module _ {Time : Type 0} where
  abbrev KeepsAccount : {A : Type 0} → Action (Books Time) A → Type 0
  KeepsAccount m = (b : Books Time) → (m b).1.account ≡ b.account

module _ {Time : Type 0} (parse_time : String → Option Time) (now release : String) where
  -- The books behind a pass that finishes.
  abbrev finished_line : CreditIntent → ℕ → Date → CreditProgress → Books Time → LedgerLine
  finished_line intent amount received p b =
      credit_line intent b.account.monero (date_string received) (gbp_text amount) p.applied_gbp
        p.paid_until_after
