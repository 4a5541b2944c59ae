-- ===== src/Session/Proofs.antt =====
-- A session is proved by a file that root wrote, whatever the session's own record says (`verify_proof` of
-- onboard/src/session.rs).
use kyriakon_infra.Session.{
  Proof, verify_proof, is_proof_token, read_proof, second, File, Text, prune_proof, prune_proofs,
}
use kyriakon_infra.Store.Records.{Directory, Name}
use kyriakon_infra.Base.Bytes.{bytes_eq, bytes_eq_iff}
use kyriakon_infra.Base.{
  ℕ, ◌≡◌, ok, true, ◌↔◌, some, ◌/◌, Bool-cases, ◌<◌, inr, arith, inl, Option-cases, leb, refl,
  false, Bool, ◌≤◌, sym, List, ◌∷◌, ◌∙◌, ap, [], leb→le,
}
use kyriakon_infra.Store.Records.Laws.{read_record-remove_other}

-- A proof of a login: a file of that name which names the account and has not run out.
pub record IsProved (files : Directory (File Proof)) (token username : Text) (now : ℕ)
    : Type 0 where
  pub proof : Proof
  pub shaped : is_proof_token token ≡ true
  pub found : read_proof token files ≡ some proof
  pub names : proof.username ≡ username
  pub live : now / second < proof.expires

-- The check passes exactly for a token of the login check's shape whose file is there, names the same account
-- and has not run out.
pub verify_proof_iff :
    (files : Directory (File Proof)) (token username : Text) (now : ℕ)
    → (verify_proof files token username now ≡ ok tt) ↔ IsProved files token username now
unfolding verify_proof
verify_proof_iff files token username now = elim (Bool-cases (is_proof_token token)) [
  | inr e ↦ (λ h. absurd (ground (arith, e)), back)
  | inl e ↦ elim (Option-cases (read_proof token files)) [
    | inl f ↦ (λ h. absurd (ground (arith, e, f)), back)
    | inr (proof, f) ↦ elim (Bool-cases (bytes_eq proof.username username)) [
      | inr g ↦ (λ h. absurd (ground (arith, e, f, g)), back)
      | inl g ↦ elim (Bool-cases (leb proof.expires (now / second))) [
        | inl k ↦ (λ h. absurd (ground (arith, e, f, g, k)), back)
        | inr k ↦ (
          λ h. record {
            proof = proof;
            shaped = e;
            found = f;
            names = (bytes_eq_iff proof.username username).0 g;
            live = ground (arith, k);
          },
          back,
        )
      ]
    ]
  ]
]
  where
    back : IsProved files token username now → verify_proof files token username now ≡ ok tt
    back p =
        let named = (bytes_eq_iff p.proof.username username).1 p.names in
        let fresh : leb p.proof.expires (now / second) ≡ false =
          let l = p.live in ground (arith, l) in
        rw p.shaped (rw (p.found, verify_proof) (rw named (rw fresh refl)))

live_differs :
    (now at : ℕ) (name token : Name) (old proof : Proof) (files : Directory (File Proof))
    → now ≤ at
    → read_proof name files ≡ some old
    → read_proof token files ≡ some proof
    → at / second < proof.expires
    → leb old.expires (now / second) ≡ true
    → bytes_eq name token ≡ false
live_differs now at name token old proof files later f found live g =
    elim (Bool-cases (bytes_eq name token)) [
      | inr e ↦ e
      | inl e ↦
          let one : name ≡ token = (bytes_eq_iff name token).0 e in
          let both : some old ≡ some proof = sym f ∙ (ap (λ n. read_proof n files) one ∙ found) in
          let same : old ≡ proof = cc both in
          let times : old.expires ≡ proof.expires = ap (λ q. q.expires) same in
          absurd (ground (arith, times, leb→le old.expires (now / second) g))
    ]

prune_proof-kept :
    (now at : ℕ) (removed : Name → Bool) (name token : Name) (files : Directory (File Proof))
    (proof : Proof)
    → now ≤ at
    → read_proof token files ≡ some proof
    → at / second < proof.expires
    → read_proof token (prune_proof now removed name files) ≡ some proof
unfolding prune_proof read_proof
prune_proof-kept now at removed name token files proof later found live =
    elim (Bool-cases (is_proof_token name)) [
      | inr e ↦ rw e found
      | inl e ↦ elim (Option-cases (read_proof name files)) [
        | inl f ↦ rw e (rw (f, prune_proof) found)
        | inr (old, f) ↦ elim (Bool-cases (leb old.expires (now / second))) [
          | inr g ↦ rw e (rw (f, prune_proof) (rw g found))
          | inl g ↦
              let apart : bytes_eq name token ≡ false =
                live_differs now at name token old proof files later f found live g in
              rw e (
                rw (f, prune_proof)
                  (rw g (
                    rw (read_record-remove_other name token (removed name) files apart, read_proof)
                      found)))
        ]
      ]
    ]

-- A pass over the proofs keeps each one that proves a session, at the time of the pass or later.
pub prune_proofs-IsProved :
    (now at : ℕ) (removed : Name → Bool) (names : List Name) (files : Directory (File Proof))
    (token username : Text)
    → now ≤ at
    → IsProved files token username at
    → IsProved (prune_proofs now removed names files) token username at
unfolding prune_proofs
prune_proofs-IsProved now at removed [] files token username later p = p
prune_proofs-IsProved now at removed (n ∷ names) files token username later p =
    prune_proofs-IsProved now at removed names (prune_proof now removed n files) token username
      later
      (record {
        proof = p.proof;
        shaped = p.shaped;
        names = p.names;
        live = p.live;
        found = prune_proof-kept now at removed n token files p.proof later p.found p.live;
      })
