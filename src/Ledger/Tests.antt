-- ===== src/Ledger/Tests.antt =====
-- A small ledger (onboard/src/ledger.rs).
use kyriakon_infra.Ledger.{
  LedgerLine, RefundSum, some, refund_pence, append, empty_line, refunded_total, settle_refund,
  refunds, sum_refunds, highest, reverses, settled_by,
}
use kyriakon_infra.Base.{◌∷◌, some, List, [], none, ◌≡◌, ok, arith, ◌⊎◌, ◌+◌, suc, refl, map, true}
use kyriakon_infra.Ledger.Record.{deserialize, serialize, deserialize-serialize}
use kyriakon_infra.Money.{pence, amount, number, pennies}
use kyriakon_infra.Ledger.Settlement.{count_unsettled, settle_refund_progress}
use kyriakon_infra.Ledger.Numbers.{Rising, append-Rising}
use kyriakon_infra.Ledger.Refunds.{refunded_total-append}
use kyriakon_infra.Base.Chars.{split_once, utf8_len}

abbrev payment : LedgerLine
payment = record (empty_line "KYR-1" "payment" "cash") { seq = 1; amount_gbp = some "30.00" }

abbrev first_refund : LedgerLine
first_refund = record (empty_line "KYR-1" "refund" "cash") {
  seq = 2;
  amount_gbp = some "-12.50";
  refund =
      some
        (record { refund_of = some 1; settled_on = none; refund_basis = none; rate_refund = none });
}

abbrev second_refund : LedgerLine
second_refund = record first_refund { seq = 0; amount_gbp = some "-5" }

abbrev file : List LedgerLine
file = payment ∷ first_refund ∷ []

deserialize-serialize_example : deserialize (serialize first_refund) ≡ first_refund
deserialize-serialize_example = deserialize-serialize first_refund (λ e. ground arith)

append-Rising_test :
    ((append second_refund file).0 ≡ highest 0 file + 1) × Rising 0 (append second_refund file).1
append-Rising_test =
    append-Rising second_refund file (omega arith, (omega arith, tt))
      (unfold highest in omega arith)

first_total :
    refunded_total "KYR-1" 1 file ≡ ok (record { total = 1250; lines = first_refund ∷ [] })
unfolding refunded_total refunds sum_refunds reverses refund_pence pence amount number pennies
    split_once utf8_len
first_total = refl

second_reads : refund_pence second_refund ≡ ok 500
unfolding refund_pence pence amount number pennies split_once utf8_len
second_reads = refl

refunded_total-append_test :
    (total : RefundSum) × (refunded_total "KYR-1" 1 (append second_refund file).1 ≡ ok total)
    × (total.total ≡ 1250 + 500)
refunded_total-append_test =
    refunded_total-append "KYR-1" 1 500 file (record { total = 1250; lines = first_refund ∷ [] })
      second_refund first_total refl (unfold reverses in refl) second_reads

settle_refund_progress_example :
    ((settle_refund "KYR-1" "i9" "2026-05-01" file ≡ (none, file))
      × (count_unsettled "KYR-1" file ≡ 0))
    ⊎ ((suc (count_unsettled "KYR-1" (settle_refund "KYR-1" "i9" "2026-05-01" file).1)
          ≡ count_unsettled "KYR-1" file)
        × (map (λ l. l.seq) (settle_refund "KYR-1" "i9" "2026-05-01" file).1
            ≡ map (λ l. l.seq) file)
        × (settled_by "i9" (settle_refund "KYR-1" "i9" "2026-05-01" file).1 ≡ true))
settle_refund_progress_example = settle_refund_progress "KYR-1" "i9" "2026-05-01" file
