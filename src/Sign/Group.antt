-- ===== src/Sign/Group.antt =====
-- The signature of a group's approval is over every field of it: `group_provision_payload` of
-- onboard/src/sign.rs, on the fields of `GroupIntent` (onboard/src/store.rs) that are signed.
pub mod Unique
use kyriakon_infra.Sign.{Text, or_empty, bool_text, free_text, decimal, ◌:+◌}
use kyriakon_infra.Base.{ℕ, List, [], ◌∷◌, ◌++◌, Option, none, some, Bool, map}
use kyriakon_infra.Base.Chars.{codes}
use kyriakon_infra.Base.Pieces.{join}

pub record GroupAddress : Type 0 where
  pub address : Text
  pub mailbox : Text

pub record KeyRecord : Type 0 where
  pub mailbox : Text
  pub fingerprint : Text
  pub material : Text
  pub verdict : Text

pub record Window : Type 0 where
  pub opened_at : Text
  pub closes_at : Text
  pub state : Text
  pub extensions : ℕ

pub record StripeBilling : Type 0 where
  pub subscription : Option Text
  pub customer : Option Text
  pub status : Option Text
  pub cancel_at_period_end : Bool
  pub current_period_end : Option Text
  pub next_payment_attempt : Option Text
  pub failed_attempts : ℕ
  pub last_invoice : Option Text

pub record GroupPayment : Type 0 where
  pub rail : Text
  pub no_charge : Bool
  pub token_ref : Option Text
  pub window : Option Window
  pub paid_until : Option Text
  pub stripe : StripeBilling

pub record GroupIntent : Type 0 where
  pub username : Text
  pub status_token : Option Text
  pub domain : Text
  pub name : Text
  pub body_kind : Text
  pub payment : GroupPayment
  pub addresses : List GroupAddress
  pub mailboxes : List Text
  pub site_owner : Text
  pub upload_key : Text
  pub mail_keys : List KeyRecord

-- A field, an equals sign, and the fields after it.
infixr 5 ◌=+◌
abbrev pub ◌=+◌ : Text → Text → Text
s =+ rest = s ++ b'=' ∷ rest

pub address_text : GroupAddress → Text
address_text a = free_text a.address =+ free_text a.mailbox

pub key_text : KeyRecord → Text
key_text k =
    free_text k.mailbox =+ free_text k.fingerprint =+ free_text k.material =+ free_text k.verdict

pub window_text : Option Window → Text
window_text none = []
window_text (some w) =
    free_text w.opened_at =+ free_text w.closes_at =+ free_text w.state =+ decimal w.extensions

pub stripe_text : StripeBilling → Text
stripe_text s =
    free_text (or_empty s.subscription)
    =+ free_text (or_empty s.customer)
    =+ free_text (or_empty s.status)
    =+ bool_text s.cancel_at_period_end
    =+ free_text (or_empty s.current_period_end)
    =+ free_text (or_empty s.next_payment_attempt)
    =+ decimal s.failed_attempts
    =+ free_text (or_empty s.last_invoice)

unfoldable pub group_provision_payload : GroupIntent → Text
group_provision_payload intent =
    codes "provision-group"
    :+ free_text intent.domain
    :+ free_text intent.name
    :+ free_text intent.body_kind
    :+ free_text intent.payment.rail
    :+ bool_text intent.payment.no_charge
    :+ free_text (or_empty intent.payment.paid_until)
    :+ free_text (or_empty intent.payment.token_ref)
    :+ free_text (window_text intent.payment.window)
    :+ free_text (stripe_text intent.payment.stripe)
    :+ free_text (join b';' (map address_text intent.addresses))
    :+ free_text (join b',' intent.mailboxes)
    :+ free_text intent.site_owner
    :+ free_text intent.upload_key
    :+ free_text (join b';' (map key_text intent.mail_keys))
    :+ free_text intent.username
    :+ free_text (or_empty intent.status_token)
