-- ===== src/Money/Tests.antt =====
-- Amounts (onboard/src/util.rs).
use kyriakon_infra.Money.{pence, gbp, amount, number, pennies, not_an_amount}
use kyriakon_infra.Base.Chars.{split_once, utf8_len, codes}
use kyriakon_infra.Base.{◌≡◌, ok, err, arith, refl}
use kyriakon_infra.Money.RoundTrip.{pence-gbp}

pence-gbp_example : pence (gbp 1250) ≡ ok 1250
pence-gbp_example = pence-gbp 1250 (omega arith)

half_written : pence (codes "12.5") ≡ ok 1250
unfolding pence amount split_once utf8_len number pennies
half_written = refl

three_places : pence (codes "12.505") ≡ err not_an_amount
unfolding pence amount split_once utf8_len
three_places = refl
