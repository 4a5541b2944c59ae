-- ===== src/Store.antt =====
-- The shapes of the store's records that the other parts read (onboard/src/store.rs): the journal's
-- line and its parts. The tokens are a child module.
pub mod Tokens
pub mod Records
use kyriakon_infra.Base.{ℕ, Option, none, Bool, ◌&&◌, ◌==◌, all, any, String}
use kyriakon_infra.Base.Chars.{codes, utf8_len}

pub record ApplicationRef : Type 0 where
  pub username : String
  pub status_token : Option String
  pub domain : Option String

-- `ApplicationRef::account`
abbrev pub account_ref : String → ApplicationRef
account_ref username = record { username = username; status_token = none; domain = none }

pub record CreditProgress : Type 0 where
  pub paid : Bool
  pub paid_until_after : Option String
  pub applied_gbp : String
  pub balance_gbp : Option String

pub record JournalLine : Type 0 where
  pub version : ℕ
  pub at : String
  pub intent : String
  pub kind : String
  pub release : String
  pub application : ApplicationRef
  pub outcome : String
  pub note : Option String
  pub credit : Option CreditProgress
