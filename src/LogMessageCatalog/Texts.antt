-- ===== src/LogMessageCatalog/Texts.antt =====
-- The texts of each message enumeration, and their lookup.
use gamegine.Common.{
  ℕ, ◌≤◌, Option, none, some, List, [], ◌∷◌, ◌≡◌, refl, Text, codes, length, get_or, All-get_or,
  All, ltb, if◌then◌else◌, arith, inl, inr, Bool-cases,
}
use gamegine.Domain
use gamegine.Domain.{Domain}
use gamegine.LogMessage
use gamegine.LogMessage.{
  LogMessage, Argument, MessageTraits, CoreMessage, VulkanMessage, MetalMessage, core_message,
  vulkan_message, metal_message,
}
use gamegine.LogMessageCatalog.Split
use gamegine.LogMessageCatalog.Split.{LogMessageText, unnamed_text}

-- The loop of `table`, over the texts and the arguments declared for them.
abbrev pairs : List Text → List Argument → Option (List LogMessageText)
pairs [] arguments = some []
pairs (text ∷ texts) [] = none
pairs (text ∷ texts) (a ∷ arguments) = both (Split.make text a) (pairs texts arguments)
  where
    both : Option LogMessageText → Option (List LogMessageText) → Option (List LogMessageText)
    both (some t) (some ts) = some (t ∷ ts)
    both _ _ = none

-- `none` is a table that does not compile: too many texts, or one that is not valid.
unfoldable pub table : (M : Type 0) ⦃m : MessageTraits M⦄ → List Text → Option (List LogMessageText)
table M ⦃m⦄ texts = pairs texts m.k_arguments

-- `LogMessageTexts`: the table of an enumeration.
pub record MessageTexts (M : Type 0) ⦃m : MessageTraits M⦄ : Type 0 where
  pub texts : List Text
  pub k_texts : List LogMessageText
  pub compiles : table M texts ≡ some k_texts

abbrev pub unknown_text : List LogMessageText
unknown_text = record { prefix = codes "unknown"; suffix = []; argument = Argument.none } ∷ []

pub core_compiles : table CoreMessage (codes "unknown" ∷ []) ≡ some unknown_text
unfolding table Split.make
core_compiles = refl

pub vulkan_compiles : table VulkanMessage (codes "unknown" ∷ []) ≡ some unknown_text
unfolding table Split.make
vulkan_compiles = refl

pub metal_compiles : table MetalMessage (codes "unknown" ∷ []) ≡ some unknown_text
unfolding table Split.make
metal_compiles = refl

instance abbrev pub core_texts : MessageTexts CoreMessage
core_texts = record {
  texts = codes "unknown" ∷ [];
  k_texts = unknown_text;
  compiles = core_compiles;
}

instance abbrev pub vulkan_texts : MessageTexts VulkanMessage
vulkan_texts = record {
  texts = codes "unknown" ∷ [];
  k_texts = unknown_text;
  compiles = vulkan_compiles;
}

instance abbrev pub metal_texts : MessageTexts MetalMessage
metal_texts = record {
  texts = codes "unknown" ∷ [];
  k_texts = unknown_text;
  compiles = metal_compiles;
}

unfoldable pub lookup_text : List LogMessageText → ℕ → LogMessageText
lookup_text texts index =
    if ltb index (length texts) then get_or texts index unnamed_text else unnamed_text

unfoldable pub to_string_domain : Domain → Text
to_string_domain d =
    let index = Domain.to_underlying d in
    if ltb index (length Domain.k_domain_names)
    then get_or Domain.k_domain_names index (codes "?")
    else codes "?"

unfoldable pub text : {M : Type 0} ⦃m : MessageTraits M⦄ ⦃t : MessageTexts M⦄ → M → LogMessageText
unfolding lookup_text
text ⦃m⦄ ⦃t⦄ id = lookup_text t.k_texts (m.to_underlying id)

abbrev text_in : LogMessage → Domain → LogMessageText
text_in m Domain.core = text {M = CoreMessage} (LogMessage.id_as m)
text_in m Domain.vulkan = text {M = VulkanMessage} (LogMessage.id_as m)
text_in m Domain.metal = text {M = MetalMessage} (LogMessage.id_as m)
text_in m _ = unnamed_text

unfoldable pub text_of : LogMessage → LogMessageText
text_of m = text_in m (LogMessage.domain m)

-- What the texts of the catalog have in common.
pub record IsPlain (t : LogMessageText) : Type 0 where
  pub no_argument : t.argument ≡ Argument.none
  pub short_prefix : length t.prefix ≤ 7
  pub no_suffix : t.suffix ≡ []

-- What holds of the texts of the tables, and of `?`, holds of the text of a message.
module _ (P : LogMessageText → Type 0) (unnamed : P unnamed_text) (texts : All P unknown_text) where
  lookup_text-All : (texts : List LogMessageText) (i : ℕ) → All P texts → P (lookup_text texts i)
  unfolding lookup_text
  lookup_text-All texts i all = elim (Bool-cases (ltb i (length texts))) [
    | inl e ↦ rw e (All-get_or P texts i unnamed_text unnamed all)
    | inr e ↦ rw e unnamed
  ]

  pub text_of-All : (m : LogMessage) → P (text_of m)
  unfolding text_of text
  text_of-All m = go (LogMessage.domain m)
    where
      go : (d : Domain) → P (text_in m d)
      go Domain.core = lookup_text-All unknown_text _ texts
      go Domain.vulkan = lookup_text-All unknown_text _ texts
      go Domain.metal = lookup_text-All unknown_text _ texts
      go Domain.unknown = unnamed
      go Domain.count = unnamed
      go (Domain.unnamed n) = unnamed

-- Every message of the three enumerations has a plain text today.
pub text_of-IsPlain : (m : LogMessage) → IsPlain (text_of m)
text_of-IsPlain =
    text_of-All IsPlain
      (record { no_argument = refl; short_prefix = omega arith; no_suffix = refl })
      (record { no_argument = refl; short_prefix = omega arith; no_suffix = refl }, tt)

pub length-name : (d : Domain) → length (to_string_domain d) ≤ 7
unfolding to_string_domain
length-name Domain.unknown = omega arith
length-name Domain.core = omega arith
length-name Domain.vulkan = omega arith
length-name Domain.metal = omega arith
length-name Domain.count = omega arith
length-name (Domain.unnamed n) = ground arith
