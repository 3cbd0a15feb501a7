-- ===== src/LogMessage/Value.antt =====
-- The classes `LogMessage` and `LogMessageId`. A float argument is its 32 bits throughout: the source
-- only `bit_cast`s it.
use gamegine.Common.{
  ℕ, ◌%◌, Bool, true, false, Option, none, some, bit_and, bit_or, shl64, shr, u32_mod, get_elem?,
  if◌then◌else◌,
}
use gamegine.Common.Int.{ℤ, to_bits32, of_bits32}
use gamegine.Domain
use gamegine.Domain.{Domain}
use gamegine.LogMessage.Enums.{Argument, MessageTraits}

pub record LogMessage : Type 0 where
  pub raw : ℕ

-- `t_ARGUMENT`: `void`, `std::uint32_t`, `std::int32_t` or `float`.
pub data ArgumentType : Type 0 where
  nothing uint32 int32 float : ArgumentType

unfoldable pub accepts : ArgumentType → Argument → Bool
accepts ArgumentType.nothing Argument.none = true
accepts ArgumentType.uint32 Argument.unsigned = true
accepts ArgumentType.uint32 Argument.hex = true
accepts ArgumentType.int32 Argument.signed = true
accepts ArgumentType.float Argument.float = true
accepts _ _ = false

pub record LogMessageId (a : ArgumentType) : Type 0 where
  pub domain : Domain
  pub value : ℕ

-- The `consteval` constructor of `LogMessageId`; `none` is an id that does not compile.
unfoldable pub message_id :
    {M : Type 0} ⦃t : MessageTraits M⦄ (a : ArgumentType) → M → Option (LogMessageId a)
unfolding accepts
message_id ⦃t⦄ a id = check (get_elem? t.k_arguments (t.to_underlying id))
  where
    check : Option Argument → Option (LogMessageId a)
    check none = none
    check (some declared) =
        if accepts a declared
        then some (record { domain = t.k_domain; value = t.to_underlying id })
        else none

unfoldable pub pack : Domain → ℕ → ℕ → LogMessage
pack domain id argument =
    let low = bit_or (Domain.to_underlying domain) (shl64 id 16) in
    record { raw = bit_or low (shl64 argument 32) }

-- The four overloads of `make`.
unfoldable pub make_plain : LogMessageId ArgumentType.nothing → LogMessage
unfolding pack
make_plain i = pack i.domain i.value 0

unfoldable pub make_unsigned : LogMessageId ArgumentType.uint32 → ℕ → LogMessage
unfolding pack
make_unsigned i argument = pack i.domain i.value argument

unfoldable pub make_signed : LogMessageId ArgumentType.int32 → ℤ → LogMessage
unfolding pack
make_signed i argument = pack i.domain i.value (to_bits32 argument)

unfoldable pub make_float : LogMessageId ArgumentType.float → ℕ → LogMessage
unfolding pack
make_float i bits = pack i.domain i.value bits

unfoldable pub from_raw : ℕ → LogMessage
from_raw raw = record { raw = raw }

unfoldable pub domain : LogMessage → Domain
domain m = Domain.of_underlying (bit_and m.raw 0xFF)

unfoldable pub id : LogMessage → ℕ
id m = bit_and (shr m.raw 16) 0xFFFF

-- Undefined in the source unless the domain is that of `M`.
unfoldable pub id_as : {M : Type 0} ⦃t : MessageTraits M⦄ → LogMessage → M
unfolding id
id_as ⦃t⦄ m = t.of_underlying (id m)

unfoldable pub argument : LogMessage → ℕ
argument m = shr m.raw 32 % u32_mod

unfoldable pub signed_argument : LogMessage → ℤ
unfolding argument
signed_argument m = of_bits32 (argument m)
