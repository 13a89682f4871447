-- ===== src/LogFile/Writing.antt =====
-- Which bytes `FileUtil::Append` hands over.
use turbo_net.Common.{
  ℕ, zero, suc, ◌+◌, ◌≤◌, ◌≡◌, ◌⊎◌, inl, inr, refl, sym, ap, ◌∙◌, List, [], ◌∷◌, ◌++◌, length, take,
  drop, ◌==◌, ==_iff, arith, take-append-drop, append_assoc, length-drop, Bool-cases,
}
use turbo_net.LogFile.{write_rest, write_bytes, append_file, FileUtil}

module _ {K : Type 0} (fwrite : K → List ℕ → ℕ × K) where
  -- The bytes that are left over: none, or the last call took none of them.
  unfoldable pub Stuck : List ℕ → Type 0
  Stuck rest = (rest ≡ []) ⊎ ((k : K) × ((fwrite k rest).0 ≡ 0))

  pub write_rest_lem :
      (fuel : ℕ) (k : K) (msg : List ℕ)
      → length msg ≤ fuel
      → (rest : List ℕ) × (msg ≡ (write_rest fwrite fuel k msg).0 ++ rest) × Stuck rest
  unfolding write_rest Stuck
  write_rest_lem zero k [] h = ([], refl, inl refl)
  write_rest_lem zero k (c ∷ msg) h = absurd (omega arith)
  write_rest_lem (suc fuel) k [] h = ([], refl, inl refl)
  write_rest_lem (suc fuel) k (c ∷ msg) h = elim (Bool-cases ((fwrite k (c ∷ msg)).0 == 0)) [
    | inl e ↦ (c ∷ msg, rw e refl, inr (k, (==_iff _ 0).0 e))
    | inr e ↦
        let answer = fwrite k (c ∷ msg) in
        let left = drop answer.0 (c ∷ msg) in
        let (rest, p, s) =
          write_rest_lem fuel answer.1 left
            (ground (arith, e, length-drop answer.0 (c ∷ msg), h)) in
        (
          rest,
          rw e (
              sym (take-append-drop answer.0 (c ∷ msg))
              ∙ ap (◌++◌ (take answer.0 (c ∷ msg))) p
              ∙ sym (
                  append_assoc (take answer.0 (c ∷ msg)) (write_rest fwrite fuel answer.1 left).0
                    rest)),
          s,
        )
  ]

  -- `FileUtil::Append` adds the front part of its argument to the file, and leaves bytes over only
  -- if a call of `fwrite_unlocked` took none of them; it counts all of them as written.
  pub append_file_lem :
      (k : K) (f : FileUtil) (msg : List ℕ)
      → (added rest : List ℕ) × (msg ≡ added ++ rest)
        × Stuck rest
        × ((append_file fwrite k f msg).0.bytes ≡ f.bytes ++ added)
        × ((append_file fwrite k f msg).0.written_bytes ≡ f.written_bytes + length msg)
  unfolding append_file write_bytes
  append_file_lem k f msg =
      let answer = fwrite k msg in
      let left = drop answer.0 msg in
      let (rest, p, s) =
        write_rest_lem (length msg) answer.1 left (omega (arith, length-drop answer.0 msg)) in
      (
        (write_bytes fwrite k msg).0,
        rest,
        sym (take-append-drop answer.0 msg)
            ∙ ap (◌++◌ (take answer.0 msg)) p
            ∙ sym (
                append_assoc (take answer.0 msg) (write_rest fwrite (length msg) answer.1 left).0
                  rest),
        s,
        refl,
        refl,
      )
