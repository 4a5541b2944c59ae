-- ===== src/Sign.antt =====
-- The signatures of the links and of the console's intents (onboard/src/sign.rs). A text is the list
-- of its bytes. HMAC-SHA256 and SHA-256 are those of the hmac and sha2 crates, and parameters here.
pub mod Compare
pub mod Delimited
pub mod Credit
pub mod Group
pub mod Verbs
pub mod Key
mod Tests
use kyriakon_infra.Base.{
  ℕ, zero, suc, ◌+◌, ◌*◌, ◌/◌, ◌%◌, max, List, [], ◌∷◌, ◌++◌, map, Option, none, some, Bool, true,
  false, not, ◌==◌, if◌then◌else◌, length, Result, ok, err, leb, String, ◌-◌,
}
use kyriakon_infra.Base.Chars.{codes}
use kyriakon_infra.Base.Pieces.{join}
use kyriakon_infra.Money.{digits}

abbrev pub Text : Type 0
Text = List ℕ

-- `Hmac::new_from_slice`, and the digest of a message under the key.
abbrev pub Hmac : Type 0
Hmac = Text → Option (Text → List ℕ)

abbrev pub nibble : ℕ → ℕ
nibble d = if leb d 9 then b'0' + d else b'a' + (d - 10)

unfoldable pub hex : List ℕ → Text
hex [] = []
hex (b ∷ bs) = nibble (b / 16) ∷ nibble (b % 16) ∷ hex bs

-- `^` and `|` of two words of `bits` bits, from the low bit up.
unfoldable pub xor : ℕ → ℕ → ℕ → ℕ
xor zero x y = 0
xor (suc bits) x y = (x + y) % 2 + 2 * xor bits (x / 2) (y / 2)

unfoldable pub or : ℕ → ℕ → ℕ → ℕ
or zero x y = 0
or (suc bits) x y = max (x % 2) (y % 2) + 2 * or bits (x / 2) (y / 2)

-- The loop over both strings.
unfoldable pub difference : ℕ → List ℕ → List ℕ → ℕ
difference diff [] ys = diff
difference diff (x ∷ xs) [] = diff
difference diff (x ∷ xs) (y ∷ ys) = difference (or 8 diff (xor 8 x y)) xs ys

unfoldable pub constant_eq : List ℕ → List ℕ → Bool
constant_eq a b = if not (length a == length b) then false else difference 0 a b == 0

module _ (hmac : Hmac) where
  unfoldable pub sign_bytes : Text → List ℕ → Result String Text
  sign_bytes key payload = elim (hmac key) [
    | none ↦ err "cannot key the HMAC"
    | some mac ↦ ok (hex (mac payload))
  ]

  unfoldable pub verify_bytes : Text → List ℕ → Text → Bool
  verify_bytes key payload sig = elim (sign_bytes key payload) [
    | ok want ↦ constant_eq want sig
    | err e ↦ false
  ]

-- `{n}`: n rounds are more than a number of n needs.
pub decimal : ℕ → Text
decimal n = digits (suc n) n

abbrev pub bool_text : Bool → Text
bool_text true = codes "true"
bool_text false = codes "false"

abbrev pub or_empty : Option Text → Text
or_empty none = []
or_empty (some t) = t

-- A field, a colon, and the fields after it.
infixr 5 ◌:+◌
abbrev pub ◌:+◌ : Text → Text → Text
s :+ rest = s ++ b':' ∷ rest

pub free_text : Text → Text
free_text text = decimal (length text) :+ text

pub decide_payload : Text → Text → Text
decide_payload token action = codes "decide" :+ token :+ action

unfoldable pub password_payload : Text → Text → Text
password_payload token until = codes "password" :+ token :+ until

pub address_payload : (Text → List ℕ) → Text → Text → Text → Text → Text → Text → Text
address_payload sha256 domain action address mailbox site_owner mail_key =
    let key = elim mail_key as (λ _. Text) [ [] ↦ [] | c ∷ cs ↦ hex (sha256 (c ∷ cs)) ] in
    codes "address" :+ domain :+ action :+ address :+ mailbox :+ site_owner :+ key

unfoldable pub group_remove_payload : Text → Text
group_remove_payload domain = codes "remove-group" :+ domain

pub resend_payload : Text → Text → Text
resend_payload username token = codes "resend" :+ username :+ token

pub credit_payload :
    Text → Text → Text → Text → Option Text → Option Text → Bool → Option Text → Option Text → Text
credit_payload token rail amount_gbp received txid amount_xmr confirm_double override_reason note =
    codes "credit"
    :+ token
    :+ rail
    :+ amount_gbp
    :+ received
    :+ or_empty txid
    :+ or_empty amount_xmr
    :+ bool_text confirm_double
    :+ free_text (or_empty override_reason)
    :+ free_text (or_empty note)

-- On a number of days that is not negative.
pub window_extend_payload : Text → ℕ → Text → Text
window_extend_payload token days reason = codes "window-extend" :+ token :+ decimal days :+ reason

pub reconcile_attribute_payload : Text → Text → Bool → Option Text → Text
reconcile_attribute_payload item token confirm_double override_reason =
    codes "reconcile-attribute"
    :+ item
    :+ token
    :+ bool_text confirm_double
    :+ free_text (or_empty override_reason)

pub reconcile_return_payload : Text → Text → Text
reconcile_return_payload item note = codes "reconcile-return" :+ item :+ note

pub refund_payload : Text → Text → Text → Bool → Bool → Text → Text → Text → Text
refund_payload token amount_gbp rail close excess rate settled_on reason =
    codes "refund"
    :+ token
    :+ amount_gbp
    :+ rail
    :+ bool_text close
    :+ bool_text excess
    :+ rate
    :+ settled_on
    :+ reason

module _ (hmac : Hmac) where
  pub decide_link : Text → Text → Text → Text → Result String Text
  decide_link base key token action = elim (sign_bytes hmac key (decide_payload token action)) [
    | err e ↦ err e
    | ok sig ↦
        ok (base ++ codes "/decide/" ++ token ++ codes "?action=" ++ action ++ codes "&sig=" ++ sig)
  ]

  pub password_link : Text → Text → Text → Text → Result String Text
  password_link base key token until = elim (sign_bytes hmac key (password_payload token until)) [
    | err e ↦ err e
    | ok sig ↦
        ok (base ++ codes "/password/" ++ token ++ codes "?until=" ++ until ++ codes "&sig=" ++ sig)
  ]
