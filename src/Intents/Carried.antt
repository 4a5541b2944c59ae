-- ===== src/Intents/Carried.antt =====
-- Nothing is done for an intent that is not proved (`Intent::run` of onboard/src/intents.rs).
use kyriakon_infra.Intents.Proofs.{IsBacked, ByteDigests, verify-IsBacked}
use kyriakon_infra.Base.{none, some, refl}
use Prim.Native.String.{String}
use kyriakon_infra.Base.{String, Option, ◌⊎◌, ◌≡◌, Result-cases, inr, inl, some}
use kyriakon_infra.Intents.{run, Evidence, Intent, verify}
use kyriakon_infra.Transitions.Settle.{Envelope, Settlement}
use kyriakon_infra.Transitions.World.{Action, World}

module _ {Time : Type 0} (parse_time : String → Option Time) (now release : String) where
  -- Either the intent has its proof, or running it comes to the same whatever its verb does: the answer, the
  -- journal, the intent files and the work after the line do not depend on the verb. The digests are bytes.
  pub run-IsBacked :
      (ev : Evidence) (file : String) (envelope : Envelope) (intent : Intent)
      (body other : Intent → Action (World Time) Settlement) (w : World Time)
      → ByteDigests ev
      → IsBacked ev intent
        ⊎ (run parse_time now release ev file envelope intent body w
            ≡ run parse_time now release ev file envelope intent other w)
  unfolding run
  run-IsBacked ev file envelope intent body other w digests =
      elim (Result-cases (verify ev intent)) [
        | inr (why, e) ↦ inr (rw (e, run) refl)
        | inl (none, e) ↦ inl (verify-IsBacked ev digests intent e)
        | inl (some settlement, e) ↦ inr (rw (e, run) refl)
      ]
