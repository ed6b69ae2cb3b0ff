-- ===== src/Multisig/Signatures.antt =====
-- What the check of an operation's signatures guarantees.
use falari.Prelude.{
  suc, ◌≤◌, String, true, false, List, [], ◌∷◌, map, Option, none, some, ◌≡◌, refl, inl, inr, ok,
  Option-cases, All, length, contains, ap, arith,
}
use falari.Types.{MultisigWallet}
use falari.Env.{Env}
use falari.Multisig.{
  MultisigSignature, MultisigExecRequest, lower, check_signatures, verify_multisig_exec_signatures,
}

-- The addresses that the signatures recover to, folded as the code compares them.
module _ (env : Env) where
  abbrev pub signing : List MultisigSignature → List String
  signing [] = []
  signing (sig ∷ rest) = elim sig.recovered [
    | none ↦ signing rest
    | some a ↦ lower env a ∷ signing rest
  ]

  -- No entry occurs again, and none is among those seen before.
  abbrev pub NewAndDistinct : List String → List String → Type 0
  NewAndDistinct seen [] = Unit
  NewAndDistinct seen (a ∷ rest) = (contains a seen ≡ false) × NewAndDistinct (a ∷ seen) rest

  abbrev pub OneOf : List String → String → Type 0
  OneOf allowed a = contains a allowed ≡ true

  check_signatures-ok :
      (allowed seen : List String) (prev : Option String) (sigs : List MultisigSignature)
      → check_signatures env allowed seen prev sigs ≡ ok tt
      → (length (signing sigs) ≡ length sigs)
        × NewAndDistinct seen (signing sigs)
        × All (OneOf allowed) (signing sigs)
  unfolding check_signatures
  check_signatures-ok allowed seen prev [] h = (refl, tt, tt)
  check_signatures-ok allowed seen prev (sig ∷ rest) h = elim (Option-cases sig.recovered) [
    | inl e ↦ absurd (ground (arith, e))
    | inr (a, e) ↦
        (let later =
            check_signatures-ok allowed (lower env a ∷ seen) (some (lower env a)) rest
              (ground (arith, e)) in
          rw e (ap suc later.0, (ground (arith, e), later.1), (ground (arith, e), later.2)))
  ]

  -- An operation whose signatures pass has at least as many of them as the wallet's threshold says,
  -- each recovers to the address of one of the wallet's signers, and no two to the same.
  pub signatures_are_a_quorum :
      (req : MultisigExecRequest) (wallet : MultisigWallet)
      → verify_multisig_exec_signatures env req wallet ≡ ok tt
      → (wallet.threshold ≤ length (signing req.signatures))
        × NewAndDistinct [] (signing req.signatures)
        × All (OneOf (map (lower env) wallet.signers)) (signing req.signatures)
  unfolding verify_multisig_exec_signatures
  signatures_are_a_quorum req wallet h =
      let (same, distinct, owners) =
        check_signatures-ok (map (lower env) wallet.signers) [] none req.signatures
          (ground arith) in
      (ground (arith, same), distinct, owners)
