-- ===== src/Sign/Group/Unique.antt =====
-- No two approvals of a group have one payload (onboard/src/sign.rs).
use kyriakon_infra.Sign.Group.{
  GroupIntent, Window, StripeBilling, address_text, key_text, window_text, stripe_text,
  group_provision_payload, ◌=+◌,
}
use kyriakon_infra.Sign.{Text, or_empty, free_text, decimal}
use kyriakon_infra.Sign.Delimited.{
  cut_unique, free_field_unique, free_text_unique, free_text_alone, bool_field_unique,
  decimal_unique, decimal-IsFree,
}
use kyriakon_infra.Base.{
  ℕ, List, [], ◌∷◌, ◌++◌, Option, none, some, map, ◌≡◌, ◌≢◌, refl, ap, sym, ◌∙◌, arith, length,
}
use kyriakon_infra.Base.Pieces.{join}
use kyriakon_infra.Base.Chars.{codes}
use mathlib.Core.List.{append_assoc, append-nil}

inner_nonempty : (s t : Text) (c : ℕ) → s ++ c ∷ t ≢ []
inner_nonempty [] t c h = cc
inner_nonempty (x ∷ s) t c h = cc

free_nonempty : (a t : Text) → free_text a ++ t ≢ []
unfolding free_text
free_nonempty a t h =
    inner_nonempty (decimal (length a)) (a ++ t) b':'
      (sym (append_assoc (decimal (length a)) (b':' ∷ a) t) ∙ h)

-- What a text of some kind needs so that a list of them, joined, can be read: it is told apart from
-- what follows it, and it is never empty.
record Delimited {A : Type 0} (text : A → Text) : Type 0 where
  unique : (x y : A) (s t : Text) → text x ++ s ≡ text y ++ t → (x ≡ y) × (s ≡ t)
  nonempty : (x : A) (t : Text) → text x ++ t ≢ []

joined_unique :
    {A : Type 0} (text : A → Text) (d : Delimited text) (sep : ℕ) (xs ys : List A)
    → join sep (map text xs) ≡ join sep (map text ys)
    → xs ≡ ys
joined_unique text d sep [] [] h = refl
joined_unique text d sep [] (y ∷ []) h = absurd (d.nonempty y [] (append-nil (text y) ∙ sym h))
joined_unique text d sep [] (y ∷ z ∷ ys) h =
    absurd (d.nonempty y (sep ∷ join sep (text z ∷ map text ys)) (sym h))
joined_unique text d sep (x ∷ []) [] h = absurd (d.nonempty x [] (append-nil (text x) ∙ h))
joined_unique text d sep (x ∷ z ∷ xs) [] h =
    absurd (d.nonempty x (sep ∷ join sep (text z ∷ map text xs)) h)
joined_unique text d sep (x ∷ []) (y ∷ []) h =
    let both = d.unique x y [] [] (append-nil (text x) ∙ (h ∙ sym (append-nil (text y)))) in
    ap (λ a. a ∷ []) both.0
joined_unique text d sep (x ∷ []) (y ∷ z ∷ ys) h =
    let both = d.unique x y [] (sep ∷ join sep (text z ∷ map text ys)) (append-nil (text x) ∙ h) in
    absurd cc
joined_unique text d sep (x ∷ z ∷ xs) (y ∷ []) h =
    let both =
      d.unique x y (sep ∷ join sep (text z ∷ map text xs)) [] (h ∙ sym (append-nil (text y))) in
    absurd cc
joined_unique text d sep (x ∷ u ∷ xs) (y ∷ v ∷ ys) h =
    let both =
      d.unique x y (sep ∷ join sep (text u ∷ map text xs)) (sep ∷ join sep (text v ∷ map text ys))
        h in
    let rest = joined_unique text d sep (u ∷ xs) (v ∷ ys) (cc (both.1)) in cc (both.0, rest)

address_text-Delimited : Delimited address_text
unfolding address_text
address_text-Delimited = record {
  unique = λ x y s t h.
      let address =
        free_field_unique b'=' b'=' x.address y.address (free_text x.mailbox ++ s)
          (free_text y.mailbox ++ t)
          (sym (append_assoc (free_text x.address) (b'=' ∷ free_text x.mailbox) s)
            ∙ (h ∙ append_assoc (free_text y.address) (b'=' ∷ free_text y.mailbox) t)) in
      let mailbox = free_text_unique x.mailbox y.mailbox s t address.1 in
      (ground (arith, address.0, mailbox.0), mailbox.1);
  nonempty = λ x t h.
      free_nonempty x.address (b'=' ∷ free_text x.mailbox ++ t)
        (sym (append_assoc (free_text x.address) (b'=' ∷ free_text x.mailbox) t) ∙ h);
}

-- A free text, a separator and the rest of its record, with what follows the record.
field_in :
    (c : ℕ) (a b r s u t : Text)
    → (free_text a ++ c ∷ r) ++ s ≡ (free_text b ++ c ∷ u) ++ t
    → (a ≡ b) × (r ++ s ≡ u ++ t)
field_in c a b r s u t h =
    free_field_unique c c a b (r ++ s) (u ++ t)
      (sym (append_assoc (free_text a) (c ∷ r) s) ∙ (h ∙ append_assoc (free_text b) (c ∷ u) t))

key_text-Delimited : Delimited key_text
unfolding key_text
key_text-Delimited = record {
  unique = λ x y s t h.
      let mailbox = field_in b'=' x.mailbox y.mailbox _ s _ t h in
      let fingerprint = field_in b'=' x.fingerprint y.fingerprint _ s _ t mailbox.1 in
      let material = field_in b'=' x.material y.material _ s _ t fingerprint.1 in
      let verdict = free_text_unique x.verdict y.verdict s t material.1 in
      (ground (arith, mailbox.0, fingerprint.0, material.0, verdict.0), verdict.1);
  nonempty = λ x t h.
      free_nonempty x.mailbox
        ((b'=' ∷ (free_text x.fingerprint =+ free_text x.material =+ free_text x.verdict)) ++ t)
        (sym (append_assoc (free_text x.mailbox) _ t) ∙ h);
}

window_text_unique : (a b : Option Window) → window_text a ≡ window_text b → a ≡ b
unfolding window_text
window_text_unique none none h = refl
window_text_unique none (some w) h = absurd (free_nonempty w.opened_at _ (sym h))
window_text_unique (some w) none h = absurd (free_nonempty w.opened_at _ h)
window_text_unique (some a) (some b) h =
    let opened = free_field_unique b'=' b'=' a.opened_at b.opened_at _ _ h in
    let closes = free_field_unique b'=' b'=' a.closes_at b.closes_at _ _ opened.1 in
    let state = free_field_unique b'=' b'=' a.state b.state _ _ closes.1 in
    let more = decimal_unique a.extensions b.extensions state.1 in
    ground (arith, opened.0, closes.0, state.0, more)

pub record IsSameStripe (a b : StripeBilling) : Type 0 where
  pub subscription : or_empty a.subscription ≡ or_empty b.subscription
  pub customer : or_empty a.customer ≡ or_empty b.customer
  pub status : or_empty a.status ≡ or_empty b.status
  pub cancel_at_period_end : a.cancel_at_period_end ≡ b.cancel_at_period_end
  pub current_period_end : or_empty a.current_period_end ≡ or_empty b.current_period_end
  pub next_payment_attempt : or_empty a.next_payment_attempt ≡ or_empty b.next_payment_attempt
  pub failed_attempts : a.failed_attempts ≡ b.failed_attempts
  pub last_invoice : or_empty a.last_invoice ≡ or_empty b.last_invoice

-- Two approvals of one effect: an absent text and an empty one count as the same, and the mailboxes are
-- the same when joined by commas.
pub record IsSameGroup (a b : GroupIntent) : Type 0 where
  pub domain : a.domain ≡ b.domain
  pub name : a.name ≡ b.name
  pub body_kind : a.body_kind ≡ b.body_kind
  pub rail : a.payment.rail ≡ b.payment.rail
  pub no_charge : a.payment.no_charge ≡ b.payment.no_charge
  pub paid_until : or_empty a.payment.paid_until ≡ or_empty b.payment.paid_until
  pub token_ref : or_empty a.payment.token_ref ≡ or_empty b.payment.token_ref
  pub window : a.payment.window ≡ b.payment.window
  pub stripe : IsSameStripe a.payment.stripe b.payment.stripe
  pub addresses : a.addresses ≡ b.addresses
  pub mailboxes : join b',' a.mailboxes ≡ join b',' b.mailboxes
  pub site_owner : a.site_owner ≡ b.site_owner
  pub upload_key : a.upload_key ≡ b.upload_key
  pub mail_keys : a.mail_keys ≡ b.mail_keys
  pub username : a.username ≡ b.username
  pub status_token : or_empty a.status_token ≡ or_empty b.status_token

stripe_text-IsSameGroup : (a b : StripeBilling) → stripe_text a ≡ stripe_text b → IsSameStripe a b
unfolding stripe_text
stripe_text-IsSameGroup a b h =
    let subscription =
      free_field_unique b'=' b'=' (or_empty a.subscription) (or_empty b.subscription) _ _ h in
    let customer =
      free_field_unique b'=' b'=' (or_empty a.customer) (or_empty b.customer) _ _ subscription.1 in
    let status =
      free_field_unique b'=' b'=' (or_empty a.status) (or_empty b.status) _ _ customer.1 in
    let cancel = bool_field_unique a.cancel_at_period_end b.cancel_at_period_end _ _ status.1 in
    let ends =
      free_field_unique b'=' b'=' (or_empty a.current_period_end) (or_empty b.current_period_end) _
        _ (cc (cancel.1)) in
    let next =
      free_field_unique b'=' b'=' (or_empty a.next_payment_attempt)
        (or_empty b.next_payment_attempt) _ _ ends.1 in
    let failed =
      cut_unique b'=' (decimal a.failed_attempts) (decimal b.failed_attempts) _ _
        (decimal-IsFree b'=' a.failed_attempts refl) (decimal-IsFree b'=' b.failed_attempts refl)
        next.1 in
    record {
      subscription = subscription.0;
      customer = customer.0;
      status = status.0;
      cancel_at_period_end = cancel.0;
      current_period_end = ends.0;
      next_payment_attempt = next.0;
      failed_attempts = decimal_unique a.failed_attempts b.failed_attempts failed.0;
      last_invoice = free_text_alone (or_empty a.last_invoice) (or_empty b.last_invoice) failed.1;
    }

-- Two approvals of a group have one payload only if every signed field is the same: the domain, the
-- words, the payment with its window and its subscription, the addresses, the mailboxes as they are
-- joined, the keys and the application, an absent text counting as an empty one.
pub group_provision_payload-IsSameGroup :
    (a b : GroupIntent) → group_provision_payload a ≡ group_provision_payload b → IsSameGroup a b
unfolding group_provision_payload
group_provision_payload-IsSameGroup a b h =
    let verb =
      cut_unique b':' (codes "provision-group") (codes "provision-group") _ _ refl refl h in
    let domain = free_field_unique b':' b':' a.domain b.domain _ _ verb.1 in
    let name = free_field_unique b':' b':' a.name b.name _ _ domain.1 in
    let kind = free_field_unique b':' b':' a.body_kind b.body_kind _ _ name.1 in
    let rail = free_field_unique b':' b':' a.payment.rail b.payment.rail _ _ kind.1 in
    let charge = bool_field_unique a.payment.no_charge b.payment.no_charge _ _ rail.1 in
    let until =
      free_field_unique b':' b':' (or_empty a.payment.paid_until) (or_empty b.payment.paid_until) _
        _ (cc (charge.1)) in
    let token =
      free_field_unique b':' b':' (or_empty a.payment.token_ref) (or_empty b.payment.token_ref) _ _
        until.1 in
    let window =
      free_field_unique b':' b':' (window_text a.payment.window) (window_text b.payment.window) _ _
        token.1 in
    let stripe =
      free_field_unique b':' b':' (stripe_text a.payment.stripe) (stripe_text b.payment.stripe) _ _
        window.1 in
    let addresses =
      free_field_unique b':' b':' (join b';' (map address_text a.addresses))
        (join b';' (map address_text b.addresses)) _ _ stripe.1 in
    let mailboxes =
      free_field_unique b':' b':' (join b',' a.mailboxes) (join b',' b.mailboxes) _ _ addresses.1 in
    let owner = free_field_unique b':' b':' a.site_owner b.site_owner _ _ mailboxes.1 in
    let upload = free_field_unique b':' b':' a.upload_key b.upload_key _ _ owner.1 in
    let keys =
      free_field_unique b':' b':' (join b';' (map key_text a.mail_keys))
        (join b';' (map key_text b.mail_keys)) _ _ upload.1 in
    let username = free_field_unique b':' b':' a.username b.username _ _ keys.1 in
    record {
      domain = domain.0;
      name = name.0;
      body_kind = kind.0;
      rail = rail.0;
      no_charge = charge.0;
      paid_until = until.0;
      token_ref = token.0;
      window = window_text_unique a.payment.window b.payment.window window.0;
      stripe = stripe_text-IsSameGroup a.payment.stripe b.payment.stripe stripe.0;
      addresses =
          joined_unique address_text address_text-Delimited b';' a.addresses b.addresses
            addresses.0;
      mailboxes = mailboxes.0;
      site_owner = owner.0;
      upload_key = upload.0;
      mail_keys = joined_unique key_text key_text-Delimited b';' a.mail_keys b.mail_keys keys.0;
      username = username.0;
      status_token = free_text_alone (or_empty a.status_token) (or_empty b.status_token) username.1;
    }
