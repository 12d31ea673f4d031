-- ===== src/Canonical/Laws.antt =====
-- The digest of a model is that of its normal form, whatever the order of its records.
use clanker_foundry.Prelude.{◌≡◌, sym, ap, ◌∙◌, ok, ◌>>=◌}
use clanker_foundry.Text.{Str}
use clanker_foundry.Model.{Model}
use clanker_foundry.Model.Validate.{validate}
use clanker_foundry.Model.Normalize.{normalize}
use clanker_foundry.Model.Normalize.Laws.{normalize_idem, normalize-eq-ok}
use clanker_foundry.Model.Normalize.Order.{SameRecords, normalize-order}
use clanker_foundry.Canonical.{document, canonical_bytes, digest}

module _ (sha256_hex : Str → Str) where
  digest_same :
      (m n : Model) → normalize m ≡ normalize n → digest sha256_hex m ≡ digest sha256_hex n
  unfolding digest canonical_bytes
  digest_same m n e = ap (λ r. (r >>= (λ k. ok (document k))) >>= (λ b. ok (sha256_hex b))) e

  -- An accepted model and its normal form have one digest, and so has every accepted model with the
  -- same version, ID, initial state and records, in whatever order.
  pub digest-order :
      (m n k : Model)
      → normalize m ≡ ok n
      → validate k ≡ ok tt
      → SameRecords m k
      → (digest sha256_hex n ≡ digest sha256_hex m) × (digest sha256_hex k ≡ digest sha256_hex m)
  digest-order m n k e valid s = (
    digest_same n m ((normalize_idem m n e).1 ∙ sym e),
    digest_same k m (sym (normalize-order m k (normalize-eq-ok m n e).0 valid s)),
  )
