-- ===== src/Store/Tokens/Tests.antt =====
-- The tokens of one draw.
use kyriakon_infra.Store.Tokens.{
  crockford128, is_status_token, crockford12, lower, symbols, symbol, is_payment_token,
  payment_draw, codes, is_unattributed_id, crockford8, unattributed_draw,
}
use kyriakon_infra.Store.Tokens.Shape.{read, read-crockford128, tokens_shaped}
use kyriakon_infra.Base.{◌≡◌, true, arith, refl}
use kyriakon_infra.Base.Chars.{codes}

read-crockford128_example : read lower 0 (crockford128 123456789) ≡ 123456789
read-crockford128_example = read-crockford128 123456789 (omega arith)

tokens_shaped_test :
    (is_status_token (crockford128 123456789) ≡ true)
    × (is_payment_token (crockford12 (payment_draw 123456789)) ≡ true)
    × (is_unattributed_id (crockford8 (unattributed_draw 123456789)) ≡ true)
tokens_shaped_test = tokens_shaped 123456789

one_token : crockford12 (payment_draw 33) ≡ codes "KYR-0000-0000-0011"
unfolding crockford12 symbols symbol
one_token = refl
