-- ===== src/ErrorCatalog.antt =====
-- gamegine/include/engine/core/core_error_catalog.h: the names of domains, kinds and reasons.
use gamegine.Common.{
  ℕ, ◌≤◌, ◌<◌, ◌^◌, ltb, if◌then◌else◌, List, [], ◌∷◌, ◌≡◌, refl, ap, ◌∙◌, Text, codes, length,
  get_or, All-get_or, All, arith, inl, inr, Bool-cases,
}
use gamegine.Domain
use gamegine.Domain.{Domain}
use gamegine.Error
use gamegine.Error.{
  Error, Kind, kind_to_underlying, CoreReason, VulkanReason, MetalReason, ReasonTraits, core_traits,
  vulkan_traits, metal_traits,
}
use gamegine.Error.Fields.{fields-make}

abbrev pub k_kind_names : List Text
k_kind_names = codes "unknown" ∷ codes "exhausted" ∷ []

abbrev pub k_unnamed : Text
k_unnamed = codes "?"

unfoldable pub lookup : List Text → ℕ → Text
lookup names index = if ltb index (length names) then get_or names index k_unnamed else k_unnamed

unfoldable pub to_string_domain : Domain → Text
unfolding lookup
to_string_domain d = lookup Domain.k_domain_names (Domain.to_underlying d)

unfoldable pub to_string_kind : Kind → Text
unfolding lookup
to_string_kind k = lookup k_kind_names (kind_to_underlying k)

unfoldable pub to_string_reason : {R : Type 0} ⦃t : ReasonTraits R⦄ → R → Text
unfolding lookup
to_string_reason ⦃t⦄ r = lookup t.k_names (t.to_underlying r)

-- The reason's name, by the enumeration that the error's domain has.
abbrev reason_name : Error → Domain → Text
reason_name e Domain.core = to_string_reason {R = CoreReason} (Error.reason_as e)
reason_name e Domain.vulkan = to_string_reason {R = VulkanReason} (Error.reason_as e)
reason_name e Domain.metal = to_string_reason {R = MetalReason} (Error.reason_as e)
reason_name e _ = k_unnamed

unfoldable pub to_string_reason_of : Error → Text
to_string_reason_of e = reason_name e (Error.domain e)

pub record ErrorDescriptor : Type 0 where
  pub domain : Text
  pub kind : Text
  pub reason : Text

-- The two overloads of `make`.
unfoldable pub make_with : (R : Type 0) ⦃t : ReasonTraits R⦄ → Error → ErrorDescriptor
make_with R e = record {
  domain = to_string_domain (Error.domain e);
  kind = to_string_kind (Error.kind e);
  reason = to_string_reason {R = R} (Error.reason_as e);
}

unfoldable pub make : Error → ErrorDescriptor
make e = record {
  domain = to_string_domain (Error.domain e);
  kind = to_string_kind (Error.kind e);
  reason = to_string_reason_of e;
}

-- What holds of the names of the tables, and of `?`, holds of the names of an error.
module _ (P : Text → Type 0) (unnamed : P k_unnamed) where
  pub lookup-All : (names : List Text) (i : ℕ) → All P names → P (lookup names i)
  unfolding lookup
  lookup-All names i all = elim (Bool-cases (ltb i (length names))) [
    | inl e ↦ rw e (All-get_or P names i k_unnamed unnamed all)
    | inr e ↦ rw e unnamed
  ]

  reason-All : {R : Type 0} ⦃t : ReasonTraits R⦄ (r : R) → All P t.k_names → P (to_string_reason r)
  unfolding to_string_reason
  reason-All ⦃t⦄ r all = lookup-All t.k_names (t.to_underlying r) all

  module _ (domains : All P Domain.k_domain_names) (kinds : All P k_kind_names)
      (core : All P core_traits.k_names) (vulkan : All P vulkan_traits.k_names)
      (metal : All P metal_traits.k_names) where
    reason_name-All : (e : Error) (d : Domain) → P (reason_name e d)
    reason_name-All e Domain.core = reason-All (Error.reason_as {R = CoreReason} e) core
    reason_name-All e Domain.vulkan = reason-All (Error.reason_as {R = VulkanReason} e) vulkan
    reason_name-All e Domain.metal = reason-All (Error.reason_as {R = MetalReason} e) metal
    reason_name-All e Domain.unknown = unnamed
    reason_name-All e Domain.count = unnamed
    reason_name-All e (Domain.unnamed n) = unnamed

    pub make-All : (e : Error) → P (make e).domain × P (make e).kind × P (make e).reason
    unfolding make to_string_domain to_string_kind to_string_reason_of
    make-All e = (
      lookup-All Domain.k_domain_names (Domain.to_underlying (Error.domain e)) domains,
      lookup-All k_kind_names (kind_to_underlying (Error.kind e)) kinds,
      reason_name-All e (Error.domain e),
    )

-- No name is longer than 20 characters.
abbrev IsShort : Text → Type 0
IsShort name = length name ≤ 20

pub make-short :
    (e : Error)
    → (length (make e).domain ≤ 20) × (length (make e).kind ≤ 20) × (length (make e).reason ≤ 20)
make-short e =
    make-All IsShort (omega arith) (omega arith, (omega arith, (omega arith, (omega arith, tt))))
      (omega arith, (omega arith, tt)) (omega arith, (omega arith, tt)) (omega arith, tt)
      (omega arith, tt) e

-- The names of what an error is made of.
abbrev pub named : {R : Type 0} ⦃t : ReasonTraits R⦄ → Kind → R → ErrorDescriptor
named ⦃t⦄ k r = record {
  domain = to_string_domain t.k_domain;
  kind = to_string_kind k;
  reason = to_string_reason r;
}

-- The switch over the error's domain finds the enumeration that the reason was packed from.
reason_of-named :
    {R : Type 0} ⦃t : ReasonTraits R⦄ (k : Kind) (r : R) (c : ℕ)
    → Domain.to_underlying t.k_domain < 256
    → kind_to_underlying k < 256
    → t.to_underlying r < 65536
    → c < 2 ^ 32
    → to_string_reason_of (Error.make k r c) ≡ reason_name (Error.make k r c) t.k_domain
unfolding to_string_reason_of
reason_of-named ⦃t⦄ k r c hd hk hr hc =
    ap (reason_name (Error.make k r c)) (fields-make k r c hd hk hr hc).0

make-parts :
    {R : Type 0} ⦃t : ReasonTraits R⦄ (k : Kind) (r : R) (c : ℕ)
    → Domain.to_underlying t.k_domain < 256
    → kind_to_underlying k < 256
    → t.to_underlying r < 65536
    → c < 2 ^ 32
    → reason_name (Error.make k r c) t.k_domain
      ≡ to_string_reason {R = R} (Error.reason_as (Error.make k r c))
    → make (Error.make k r c) ≡ named k r
unfolding make
make-parts {R} ⦃t⦄ k r c hd hk hr hc same = λ i. record {
  domain = to_string_domain ((fields-make k r c hd hk hr hc).0 i);
  kind = to_string_kind ((fields-make k r c hd hk hr hc).1 i);
  reason =
      (reason_of-named k r c hd hk hr hc
          ∙ same
          ∙ ap (to_string_reason {R = R}) (fields-make k r c hd hk hr hc).2)
        i;
}

-- The descriptor of an error whose values fit their fields names what the error was made of, with
-- the reason's name looked up in the names of the enumeration that it was packed from, for each of
-- the three enumerations.
pub make-named :
    (k : Kind) (c : ℕ) (a : CoreReason) (b : VulkanReason) (m : MetalReason)
    → kind_to_underlying k < 256
    → c < 2 ^ 32
    → core_traits.to_underlying a < 65536
    → vulkan_traits.to_underlying b < 65536
    → metal_traits.to_underlying m < 65536
    → (make (Error.make k a c) ≡ named k a)
      × (make (Error.make k b c) ≡ named k b)
      × (make (Error.make k m c) ≡ named k m)
make-named k c a b m hk hc ha hb hm = (
  make-parts k a c (omega arith) hk ha hc refl,
  make-parts k b c (omega arith) hk hb hc refl,
  make-parts k m c (omega arith) hk hm hc refl,
)
