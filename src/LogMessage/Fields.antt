-- ===== src/LogMessage/Fields.antt =====
-- What is packed into a message is what its accessors read, and which arguments a message takes.
use gamegine.Common.{ℕ, ◌+◌, ◌*◌, ◌^◌, ◌<◌, ◌≡◌, ap, ◌∙◌, arith, bit_or, shr, shl64-eq_of_lt}
use gamegine.Common.Bits.{bit_or_low, bit_and_mask}
use gamegine.Domain
use gamegine.Domain.{Domain}
use gamegine.LogMessage.Value.{pack, domain, id, argument}

module _ (d : Domain) (i c : ℕ) (hd : Domain.to_underlying d < 256) (hi : i < 65536)
    (hc : c < 2 ^ 32) where
  raw-pack : (pack d i c).raw ≡ (c * 65536 + i) * 65536 + Domain.to_underlying d
  unfolding pack
  raw-pack =
      rw (shl64-eq_of_lt i 16 (omega arith), shl64-eq_of_lt c 32 (omega arith))
        (ap (λ (x : ℕ). bit_or x (c * 2 ^ 32))
            (bit_or_low 16 i (Domain.to_underlying d) (omega arith))
          ∙ bit_or_low 32 c (i * 2 ^ 16 + Domain.to_underlying d) (omega arith)
          ∙ omega arith)

  -- A message packed of values that fit their fields is read back as the same domain, id and
  -- argument.
  pub fields-pack : (domain (pack d i c) ≡ d) × (id (pack d i c) ≡ i) × (argument (pack d i c) ≡ c)
  unfolding domain id argument
  fields-pack = (
    ap Domain.of_underlying (bit_and_mask 8 (pack d i c).raw ∙ omega (arith, raw-pack))
        ∙ Domain.of_underlying-to_underlying d,
    bit_and_mask 16 (shr (pack d i c).raw 16) ∙ omega (arith, raw-pack),
    omega (arith, raw-pack),
  )
