-- ===== src/Lib.antt =====
-- A model of the core of kyriakon-onboard (onboard/src), the membership service of the kyriakon
-- infrastructure: an unprivileged handler reads FastCGI requests and files intents as files, and a
-- privileged drain takes the intents one by one, journals their outcomes and moves money in a ledger.
--
-- The parts, and where each stands:
--   Base          shared: tests on numbers, lists, results; Base/Bytes is `from_utf8_lossy`, Base/Chars and
--                 Base/Pieces the `char` and `str` methods that the code calls
--   Fcgi          onboard/src/fcgi.rs: Wire (constants, header), Params (`params`, `length`), Reader
--                 (`read_request`), Reply (`Reply`, `reply_bytes`)
--   Rate          onboard/src/rate.rs: `Counter`, `allow`, `evict`, `key`
--   Store         onboard/src/store.rs: the journal's line and its parts; Store/Tokens the tokens,
--                 Store/Records a directory of records (`read_record`, `list`, `write_record`, `remove`)
--   Sign          onboard/src/sign.rs: the compare, `sign_bytes`, `verify_bytes`, `read_key` and every text
--                 that is signed; Sign/Group the approval of a group
--   Session       onboard/src/session.rs: `open`, `lookup`, `close`, `prune`, the login proofs, the cookies
--   Passwords     onboard/src/password.rs: `validate`, `is_hash`
--   Intents       onboard/src/intents.rs: `Intent::verify`, `Intent::run`, `disposition`; Intents/Kinds the
--                 arms of `Intent::parse`, Intents/Pass the loop of `run` with `report_failure`
--   Journal       onboard/src/journal.rs: `Index::remember`, `Journal::load`, `append`, the five queries
--   Transitions   onboard/src/transitions.rs: World (`write_journal`, `finish`), Settle (`settle`), Retry
--                 (`retry_after_minutes`, `due`, `note_failure`)
--   Validate      onboard/src/validate.rs: names, domains, addresses
--   Money, Dates  onboard/src/util.rs: `pence`, `gbp`; `anniversary`, `paid_until_after`, the ceiling and the
--                 window; `extend_paid_until` of onboard/src/billing.rs
--   Ledger        onboard/src/ledger.rs: `Ledger::append`, the queries, `settle_refund`, the reading of a line
--   Payments      onboard/src/transitions/payments.rs: `credit_fields`, `credit_money`, `resolve_payment`,
--                 `append_credit_ledger`; Apply is `credit` and `apply_payment` of one account on its
--                 `Books`, Refund `refund` in both its forms, Queue the held
--                 payments, Group `group_credit`, Credit `credit` and `reconcile_attribute` whole
--   Lapse         onboard/src/transitions/lifecycle.rs: the account loops of `window_sweep` and `grace_sweep`,
--                 `suspend`, `resume`, and `window_extend` of an account, for one account; Erase is
--                 `delete_account` in its steps on an `Estate`, with `hold_name` and
--                 `close_group_tokens` of onboard/src/transitions/groups.rs
--
-- How they interact: `settle` asks the Journal whether an outcome is there, runs the body of a verb and
-- writes the outcome through the Journal; `note_failure` and `due` read the failures of the same index. A
-- credit is checked by Payments with the token test of Store/Tokens, the amounts of Money and the dates of
-- Dates; its line goes to the Ledger, whose refunds read the amounts back through Money. The name of an
-- account is tested by Validate both when it is filed and when a token is resolved. An intent is proved before
-- its body runs, with Sign over its fields or with the login proof that Session finds behind its session.
-- A refusal and a body go through one `settle`.
--
-- State and failure: a pass is an action on `World` (a payment on `Books`, a sweep on `Case`,
-- a deletion on `Estate`), which has the
-- journal's file, its index, the intent files, the after-line work that was carried out and a list of faults. Each call that changes something
-- takes the next fault: it works, or fails without its effect, or fails with it. The Ledger and the Counter
-- are states of their own; each of their operations is one step, as the code holds a lock throughout.
--
-- Numbers are natural numbers. A word keeps its wrap-around where a theorem does not bound it away: the
-- u64 number of a ledger line, the u16 length of a record. The number of failed tries (a u32) and the sums
-- of pence (an i64) are natural numbers, and their overflow is left out. An `Instant` is a number of nanoseconds. Loops
-- over bytes run on fuel: `read_request` on one more than the bytes that the peer sends, since a round
-- takes eight bytes, and `params` on the length of the buffer, since a pair takes two; a number is written
-- in decimal on one more than itself, and `trim_end_matches` on the length of the name.
--
-- Parameters: the parser of an RFC 3339 time, the parser of an IP address, the calendar of the time crate
-- (`IsCalendar` says what the code relies on), the body of a verb (`IsQuiet`, `IsTidy`), HMAC and SHA-256,
-- the stamps of a session, the bytes drawn for a token, and what a file of JSON holds.
--
-- Not modelled: the bodies of the other verbs (onboard/src/transitions/), the other sweeps behind the loop
-- over the intents, the pages and the handler that routes to them, the parsers of keys and
-- of mail, JSON (a line of the journal or of the ledger is its record), the locks, the clock and all calls
-- of scripts and services; kyriakon-encrypt, the plugin, the scripts and the infrastructure files.
pub mod Base
pub mod Fcgi
pub mod Rate
pub mod Store
pub mod Journal
pub mod Transitions
pub mod Dates
pub mod Intents
pub mod Lapse
pub mod Ledger
pub mod Money
pub mod Passwords
pub mod Payments
pub mod Session
pub mod Sign
pub mod Validate
