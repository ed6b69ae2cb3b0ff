-- ===== src/StorageProofs/Honest.antt =====
-- Whether the chain accepts what a storage node proves.
use falari.Prelude.{
  ℕ, suc, ◌<◌, String, ◌≡◌, refl, sym, ◌≢◌, true, false, List, [], ◌∷◌, map, Option, ok, err,
  Result-cases, Option-cases, inl, inr, eq_iff, eq_refl, ◌==◌, length, arith,
}
use falari.Dict.Laws.{str_eq-false}
use falari.StorageProofs.{
  Codec, StorageChallenge, StorageProof, Samples, miner_seal_mismatch, challenge_leaf_range,
  challenge_indices, challenge_leaf_ranges_for_validation, prove_samples, new_proof, prove,
  proof_hash_of, compute_miner_seal,
}
use falari.StorageProofs.Checks.{
  check_samples, check_seal, check_contents, validate_storage_proof, expected_proof_hash,
  differs_if_set,
}
use falari.StorageProofs.Sampled.{samples_pass, samples_count}
use falari.StorageProofs.Challenges.{MinerReceipt, storage_challenge_for_receipt}

==_refl : (n : ℕ) → (n == n) ≡ true
==_refl n = ground arith

not_differs : (s : String) → differs_if_set s s ≡ false
not_differs s = ground (arith, eq_iff s s)

module _ (codec : Codec) (address : String) (read_shard : String → Option (List ℕ)) (now : ℕ) where
  prove_lem :
      (challenge : StorageChallenge) {proof : StorageProof}
      → prove codec address read_shard now challenge ≡ ok proof
      → (bytes : List ℕ) × (samples : Samples) × (length bytes ≡ challenge.shard_size)
        × (prove_samples codec challenge bytes (challenge_indices challenge) ≡ ok samples)
        × (proof
            ≡ new_proof codec challenge address
                (length bytes)
                (challenge_indices challenge)
                samples)
  unfolding prove
  prove_lem challenge {proof} h = elim (Option-cases (read_shard challenge.shard_hash)) [
    | inl missing ↦ absurd (ground (arith, missing))
    | inr (bytes, read) ↦
        elim (Result-cases (prove_samples codec challenge bytes (challenge_indices challenge))) [
          | inr (e, failed) ↦ absurd (ground (arith, read, failed))
          | inl (samples, made) ↦
              (bytes, samples, ground (arith, read, made), made, ground (arith, read, made))
        ]
  ]

  -- The ranges are those of the challenge, or the same ones computed again.
  ranges_lem :
      (challenge : StorageChallenge)
      → challenge.leaf_ranges
        ≡ map
            (challenge_leaf_range challenge.shard_size challenge.leaf_size)
            (challenge_indices challenge)
      → challenge_leaf_ranges_for_validation challenge (challenge_indices challenge)
        ≡ map
            (challenge_leaf_range challenge.shard_size challenge.leaf_size)
            (challenge_indices challenge)
  unfolding challenge_leaf_ranges_for_validation
  ranges_lem challenge h = ground arith

  hash_agrees :
      (challenge : StorageChallenge) (hs ps : List String)
      → challenge.miner_seal ≡ ""
      → expected_proof_hash codec challenge hs ps ≡ proof_hash_of codec challenge hs ps
  unfolding expected_proof_hash proof_hash_of
  hash_agrees challenge hs ps unsealed = ground (arith, eq_iff challenge.miner_seal "")

  -- The contents of a proof, for at least one challenged leaf.
  contents_core :
      (challenge : StorageChallenge) (size i : ℕ) (is : List ℕ) (h p : String) (hs ps : List String)
      (m : List String) (ms : List (List String))
      → challenge_indices challenge ≡ i ∷ is
      → length hs ≡ length is
      → length ps ≡ length is
      → length ms ≡ length is
      → challenge.miner_seal ≡ ""
      → check_samples codec challenge.sector_commitment
          (i ∷ is)
          (i ∷ is)
          (challenge_leaf_ranges_for_validation challenge (i ∷ is))
          (p ∷ ps)
          (h ∷ hs)
          (m ∷ ms)
        ≡ ok tt
      → check_contents codec challenge (
          new_proof codec challenge address size
            (i ∷ is)
            (record { leaf_hashes = h ∷ hs; leaf_payloads = p ∷ ps; merkle_paths = m ∷ ms }))
        ≡ ok tt
  unfolding check_contents
  contents_core challenge size i is h p hs ps m ms idx lh lp lm unsealed pass = rw (
    idx,
    lh,
    lp,
    lm,
    ==_refl (suc (length is)),
    pass,
    hash_agrees challenge (h ∷ hs) (p ∷ ps) unsealed,
    eq_refl (proof_hash_of codec challenge (h ∷ hs) (p ∷ ps)),
  )

  -- The same for the lists as they come, which are as long as the challenged indices.
  contents_pass :
      (challenge : StorageChallenge) (size : ℕ) (is : List ℕ) (hs ps : List String)
      (ms : List (List String))
      → challenge_indices challenge ≡ is
      → length hs ≡ length is
      → length ps ≡ length is
      → length ms ≡ length is
      → 0 < length is
      → challenge.miner_seal ≡ ""
      → check_samples codec challenge.sector_commitment is is
          (challenge_leaf_ranges_for_validation challenge is)
          ps
          hs
          ms
        ≡ ok tt
      → check_contents codec challenge (
          new_proof codec challenge address size is
            (record { leaf_hashes = hs; leaf_payloads = ps; merkle_paths = ms }))
        ≡ ok tt
  contents_pass challenge size [] hs ps ms idx lh lp lm some_index unsealed pass =
      absurd (omega arith)
  contents_pass challenge size (i ∷ is) [] ps ms idx lh lp lm some_index unsealed pass =
      absurd (omega arith)
  contents_pass challenge size (i ∷ is) (h ∷ hs) [] ms idx lh lp lm some_index unsealed pass =
      absurd (omega arith)
  contents_pass challenge size (i ∷ is) (h ∷ hs) (p ∷ ps) [] idx lh lp lm some_index unsealed pass =
      absurd (omega arith)
  contents_pass challenge size (i ∷ is) (h ∷ hs) (p ∷ ps) (m ∷ ms) idx lh lp lm some_index unsealed
        pass =
      contents_core challenge size i is h p hs ps m ms idx (omega arith) (omega arith) (omega arith)
        unsealed pass

  some_indices : (challenge : StorageChallenge) → 0 < length (challenge_indices challenge)
  some_indices challenge = ground arith

  accepted :
      (challenge : StorageChallenge) (samples : Samples)
      → challenge.miner_seal ≡ ""
      → check_contents codec challenge (
          new_proof codec challenge address challenge.shard_size
            (challenge_indices challenge)
            samples)
        ≡ ok tt
      → validate_storage_proof codec challenge (
          new_proof codec challenge address challenge.shard_size
            (challenge_indices challenge)
            samples)
        ≡ ok tt
  unfolding validate_storage_proof check_seal
  accepted challenge samples unsealed pass = rw (
    eq_refl challenge.shard_hash,
    ==_refl challenge.shard_size,
    eq_refl challenge.sector_commitment,
    (eq_iff challenge.miner_seal "").1 unsealed,
    ==_refl challenge.leaf_size,
    not_differs challenge.proof_type,
    not_differs challenge.challenge_hash,
    pass,
  )

  refused :
      (challenge : StorageChallenge) (samples : Samples)
      → challenge.miner_seal ≢ ""
      → validate_storage_proof codec challenge (
          new_proof codec challenge address challenge.shard_size
            (challenge_indices challenge)
            samples)
        ≡ err miner_seal_mismatch
  unfolding validate_storage_proof check_seal
  refused challenge samples bears_seal = rw (
    eq_refl challenge.shard_hash,
    ==_refl challenge.shard_size,
    eq_refl challenge.sector_commitment,
    str_eq-false challenge.miner_seal "" bears_seal,
    str_eq-false "" challenge.miner_seal (λ e. bears_seal (sym e)),
  )

  sealed :
      (receipt : MinerReceipt) (challenge_id nonce : String) (deadline : ℕ) (indices : List ℕ)
      (challenge_hash : String)
      → (storage_challenge_for_receipt codec receipt challenge_id nonce deadline indices
          challenge_hash).miner_seal
        ≢ ""
  unfolding storage_challenge_for_receipt compute_miner_seal
  sealed receipt challenge_id nonce deadline indices challenge_hash = codec.hash_string-ne _

  -- A proof that a node makes for a challenge without a seal, whose leaf ranges are those that the
  -- chain computes for its indices, is accepted by the chain.
  pub honest_proof_accepted :
      (challenge : StorageChallenge) (proof : StorageProof)
      → challenge.miner_seal ≡ ""
      → challenge.leaf_ranges
        ≡ map
            (challenge_leaf_range challenge.shard_size challenge.leaf_size)
            (challenge_indices challenge)
      → prove codec address read_shard now challenge ≡ ok proof
      → validate_storage_proof codec challenge proof ≡ ok tt
  honest_proof_accepted challenge proof unsealed ranges proved =
      let (bytes, samples, size, made, shape) = prove_lem challenge proved in
      let is = challenge_indices challenge in
      let (lh, lp, lm) = samples_count codec challenge bytes is samples made in
      rw (shape, size)
        (accepted challenge samples unsealed (
          contents_pass challenge challenge.shard_size is samples.leaf_hashes samples.leaf_payloads
            samples.merkle_paths refl lh lp lm (some_indices challenge) unsealed
            (rw (ranges_lem challenge ranges, ← size)
              (samples_pass codec challenge bytes is samples made))))

  -- Every challenge that the chain makes for a receipt bears a seal, and a node's proof never does,
  -- so the chain refuses whatever proof a node makes for it.
  pub sealed_challenge_refuses_node :
      (receipt : MinerReceipt) (challenge_id nonce : String) (deadline : ℕ) (indices : List ℕ)
      (challenge_hash : String) (proof : StorageProof)
      → prove codec address read_shard now (
          storage_challenge_for_receipt codec receipt challenge_id nonce deadline indices
            challenge_hash)
        ≡ ok proof
      → validate_storage_proof codec
          (storage_challenge_for_receipt codec receipt challenge_id nonce deadline indices
            challenge_hash)
          proof
        ≡ err miner_seal_mismatch
  sealed_challenge_refuses_node receipt challenge_id nonce deadline indices challenge_hash proof
        proved =
      let challenge =
        storage_challenge_for_receipt codec receipt challenge_id nonce deadline indices
          challenge_hash in
      let (bytes, samples, size, made, shape) = prove_lem challenge proved in
      rw (shape, size)
        (refused challenge samples
          (sealed receipt challenge_id nonce deadline indices challenge_hash))
