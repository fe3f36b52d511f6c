-- ===== src/Remote/Fields.antt =====
-- src/core/remote_api_poller.cpp, the values in an answer: `resolveField`, `resolveString` and
-- `resolveInt` of `GenericApiAdapter`. The values of JSON belong to the library and are an argument.
pub mod Paths
use mbsquad.Prelude.{
  ℕ, zero, suc, Bool, true, false, List, [], ◌∷◌, Option, none, some, ◌>>=◌, if◌then◌else◌, length,
}
use mbsquad.Prelude.Bytes.{Bytes, split_at}
use mbsquad.Prelude.Int.{ℤ}
use mbsquad.Core.Numbers.{stoi, to_string}

-- What the source uses of a value: the value of a key, none where it is no object or has no such key;
-- its parts, if it is an array; its text and its number, if it is one; and its text as JSON. `value` and
-- `number_value` are the calls with a default, none where they throw.
pub record Values (J : Type 0) : Type 0 where
  pub null : J
  pub is_null : J → Bool
  pub get : J → Bytes → Option J
  pub items : J → Option (List J)
  pub text : J → Option Bytes
  pub number : J → Option ℤ
  pub dump : J → Bytes
  pub parse : Bytes → Option J
  pub value : J → Bytes → Bytes → Option Bytes
  pub number_value : J → Bytes → ℤ → Option ℤ
  pub flag_value : J → Bytes → Bool → Option Bool

module _ {J : Type 0} (V : Values J) where
  abbrev pub or_null : Option J → J
  or_null none = V.null
  or_null (some j) = j

  abbrev pub or_stop : (J → J) → Option J → J
  or_stop next none = V.null
  or_stop next (some v) = next v

  abbrev pub then_resolve : (Bytes → J → J) → J → Bytes → Option (Bytes × Bytes) → J
  then_resolve again current remaining none = or_null (V.get current remaining)
  then_resolve again current remaining (some (key, rest)) = or_stop (again rest) (V.get current key)

  -- The loop of `resolveField`: the fuel bounds its rounds, each of which takes a byte at least.
  unfoldable pub resolve_loop : ℕ → Bytes → J → J
  resolve_loop zero remaining current = current
  resolve_loop (suc fuel) [] current = current
  resolve_loop (suc fuel) (c ∷ remaining) current =
      then_resolve (resolve_loop fuel) current (c ∷ remaining) (split_at b'.' (c ∷ remaining))

  unfoldable pub resolve_field : J → Bytes → J
  resolve_field j path = resolve_loop (length path) path j

  abbrev string_or_dump : J → Bytes → Option Bytes → Option ℤ → Bytes
  string_or_dump j default (some s) number = s
  string_or_dump j default none (some n) = to_string n
  string_or_dump j default none none = if V.is_null j then default else V.dump j

  pub resolve_string : J → Bytes → Bytes → Bytes
  resolve_string j path default =
      let v = resolve_field j path in string_or_dump v default (V.text v) (V.number v)

  abbrev int_or : ℤ → Option ℤ → ℤ
  int_or default none = default
  int_or default (some n) = n

  abbrev number_or_text : ℤ → Option ℤ → Option Bytes → ℤ
  number_or_text default (some n) s = n
  number_or_text default none none = default
  number_or_text default none (some s) = int_or default (stoi s)

  pub resolve_int : J → Bytes → ℤ → ℤ
  resolve_int j path default =
      let v = resolve_field j path in number_or_text default (V.number v) (V.text v)
