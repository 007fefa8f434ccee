-- ===== src/Snapshots/Retention.antt =====
-- What the removal of old snapshots removes (failure_snapshots.py).
use football_prediction_craw.Prelude.{
  ℕ, ◌≡◌, subst, ◌∙◌, Bool, true, false, not, ◌&&◌, List, [], ◌∷◌, any, ltb, arith, Bool-cases, inl,
  inr,
}
use football_prediction_craw.Prelude.Result.{ok}
use football_prediction_craw.Snapshots.{
  Files, remove_expired, cleanup_expired_snapshots, external_root,
}

module _ {Location Disk : Type 0} (files : Files Location Disk) (cutoff : ℕ) where
  -- an old file
  abbrev pub is_expired : Location → Disk → Bool
  is_expired q d = files.is_file q d && ltb (files.modified q d) cutoff

  -- the removal of one file leaves what is expired among the others
  expired-unlink :
      (p q : Location) (d : Disk)
      → is_expired q (files.unlink p d) ≡ (not (files.same p q) && is_expired q d)
  expired-unlink p q d = elim (Bool-cases (files.same p q)) [
    | inl e ↦ ground (arith, files.is_file-unlink p q d, e)
    | inr e ↦ ground (arith, files.is_file-unlink p q d, files.modified-unlink p q d e, e)
  ]

  remaining :
      (ps : List Location) (q : Location) (d : Disk)
      → files.is_file q (remove_expired files cutoff ps d).1
        ≡ (files.is_file q d && not (any (λ p. files.same p q) ps && is_expired q d))
  unfolding remove_expired
  remaining [] q d = ground arith
  remaining (p ∷ ps) q d = elim (Bool-cases (is_expired p d)) [
    | inl old ↦ rw old (
        remaining ps q (files.unlink p d) ∙ elim (Bool-cases (files.same p q)) [
          | inl e ↦
              let expired : is_expired q d ≡ true =
                subst (λ x. is_expired x d ≡ true) (files.same-eq p q e) old in
              ground (arith, files.is_file-unlink p q d, e, expired)
          | inr e ↦ ground (arith, files.is_file-unlink p q d, expired-unlink p q d, e)
        ])
    | inr young ↦ rw young (
        remaining ps q d ∙ elim (Bool-cases (files.same p q)) [
          | inl e ↦
              let kept : is_expired q d ≡ false =
                subst (λ x. is_expired x d ≡ false) (files.same-eq p q e) young in
              ground (arith, kept)
          | inr e ↦ ground (arith, e)
        ])
  ]

  -- For a root outside the repository that exists, a file is still there after the removal if and only if
  -- it was there before and is not both one of the candidates below the root and older than the cutoff.
  pub cleanup_removes_expired :
      (root repository_root resolved : Location) (disk : Disk) (q : Location)
      → external_root files root repository_root disk ≡ ok resolved
      → files.exists resolved disk ≡ true
      → files.is_file q (cleanup_expired_snapshots files root cutoff repository_root disk).1 ≡ (
          files.is_file q disk
          && not (any (λ p. files.same p q) (files.rglob resolved disk) && is_expired q disk))
  unfolding cleanup_expired_snapshots
  cleanup_removes_expired root repository_root resolved disk q accepted there =
      rw (accepted, there) (remaining (files.rglob resolved disk) q disk)
