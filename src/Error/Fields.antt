-- ===== src/Error/Fields.antt =====
-- What is packed into an error is what its accessors read.
use gamegine.Common.{ℕ, ◌+◌, ◌*◌, ◌^◌, ◌<◌, ◌≡◌, ap, ◌∙◌, arith, bit_or, shr, shl64-eq_of_lt}
use gamegine.Common.Bits.{bit_or_low, bit_and_mask}
use gamegine.Common.Int.{ℤ, IsInt32, to_bits32, of_bits32, of_bits32-to_bits32, to_bits32-lt}
use gamegine.Domain
use gamegine.Domain.{Domain}
use gamegine.Error.Enums.{
  Kind, kind_to_underlying, kind_of_underlying, kind_of_underlying-to_underlying, ReasonTraits,
}
use gamegine.Error.Value.{
  Error, make, make_with_signed_context, domain, kind, reason, reason_as, context, signed_context,
}

-- The four fields of a word, none of which reaches into the next.
pub pack_fields :
    (d k r c : ℕ)
    → d < 256
    → k < 256
    → r < 65536
    → c < 2 ^ 32
    → bit_or (bit_or (bit_or d (k * 2 ^ 8)) (r * 2 ^ 16)) (c * 2 ^ 32)
      ≡ ((c * 65536 + r) * 256 + k) * 256 + d
pack_fields d k r c hd hk hr hc =
    ap (λ (x : ℕ). bit_or (bit_or x (r * 2 ^ 16)) (c * 2 ^ 32)) (bit_or_low 8 k d hd)
    ∙ ap (λ (x : ℕ). bit_or x (c * 2 ^ 32)) (bit_or_low 16 r (k * 2 ^ 8 + d) (omega arith))
    ∙ bit_or_low 32 c (r * 2 ^ 16 + (k * 2 ^ 8 + d)) (omega arith)
    ∙ omega arith

-- A value of that form is read back field by field.
module _ (e : Error) (d k r c : ℕ) (hd : d < 256) (hk : k < 256) (hr : r < 65536) (hc : c < 2 ^ 32)
    (form : e.raw ≡ ((c * 65536 + r) * 256 + k) * 256 + d) where
  domain_of_form : domain e ≡ Domain.of_underlying d
  unfolding domain
  domain_of_form = ap Domain.of_underlying (bit_and_mask 8 e.raw ∙ omega arith)

  kind_of_form : kind e ≡ kind_of_underlying k
  unfolding kind
  kind_of_form = ap kind_of_underlying (bit_and_mask 8 (shr e.raw 8) ∙ omega arith)

  reason_of_form : reason e ≡ r
  unfolding reason
  reason_of_form = bit_and_mask 16 (shr e.raw 16) ∙ omega arith

  context_of_form : context e ≡ c
  unfolding context
  context_of_form = omega arith

module _ {R : Type 0} ⦃t : ReasonTraits R⦄ (k : Kind) (r : R) where
  raw-make :
      (c : ℕ)
      → Domain.to_underlying t.k_domain < 256
      → kind_to_underlying k < 256
      → t.to_underlying r < 65536
      → c < 2 ^ 32
      → (make k r c).raw
        ≡ ((c * 65536 + t.to_underlying r) * 256 + kind_to_underlying k) * 256
          + Domain.to_underlying t.k_domain
  unfolding make
  raw-make c hd hk hr hc =
      rw
        (
          shl64-eq_of_lt (kind_to_underlying k) 8 (omega arith),
          shl64-eq_of_lt (t.to_underlying r) 16 (omega arith),
          shl64-eq_of_lt c 32 (omega arith),
        )
        (pack_fields (Domain.to_underlying t.k_domain) (kind_to_underlying k) (t.to_underlying r) c
          hd hk hr hc)

  -- The accessors of an error whose values fit their fields read what it was made of: the domain
  -- that its reason's enumeration belongs to, the kind, the reason and the context.
  pub fields-make :
      (c : ℕ)
      → Domain.to_underlying t.k_domain < 256
      → kind_to_underlying k < 256
      → t.to_underlying r < 65536
      → c < 2 ^ 32
      → (domain (make k r c) ≡ t.k_domain)
        × (kind (make k r c) ≡ k)
        × (reason_as (make k r c) ≡ r)
        × (context (make k r c) ≡ c)
  unfolding reason_as
  fields-make c hd hk hr hc =
      let f = raw-make c hd hk hr hc in
      (
        domain_of_form _ _ _ _ _ hd hk hr hc f ∙ Domain.of_underlying-to_underlying t.k_domain,
        kind_of_form _ _ _ _ _ hd hk hr hc f ∙ kind_of_underlying-to_underlying k,
        ap t.of_underlying (reason_of_form _ _ _ _ _ hd hk hr hc f) ∙ t.of-to r,
        context_of_form _ _ _ _ _ hd hk hr hc f,
      )

  -- A signed context of 32 bits comes back as the same number, of an error whose values fit their
  -- fields.
  pub signed_context-make :
      (c : ℤ)
      → Domain.to_underlying t.k_domain < 256
      → kind_to_underlying k < 256
      → t.to_underlying r < 65536
      → IsInt32 c
      → signed_context (make_with_signed_context k r c) ≡ c
  unfolding signed_context make_with_signed_context
  signed_context-make c hd hk hr hc =
      ap of_bits32 (fields-make (to_bits32 c) hd hk hr (to_bits32-lt c hc)).3
      ∙ of_bits32-to_bits32 c hc
