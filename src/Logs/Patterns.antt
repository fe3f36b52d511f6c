-- ===== src/Logs/Patterns.antt =====
-- What src/core/log_parser.cpp uses of the C++ library: regular expressions and floating numbers.
use mbsquad.Prelude.{ℕ, List, Option, get_or, []}
use mbsquad.Prelude.Bytes.{Bytes}

-- The regular expressions, by the names of their members.
pub data Pattern : Type 0 where
  die wound revive chat_log chat_relay post_login disconnect begin_inactive create_squad : Pattern
  create_squad_old tick_rate new_game match_end change_layer set_next_layer removed_player : Pattern
  attack admin_broadcast join_succeeded online_ids player : Pattern

-- The groups of a match, an empty text for a group that took no part in it.
abbrev pub Match : Type 0
Match = List Bytes

abbrev pub group : Match → ℕ → Bytes
group m i = get_or m i []

pub record Std : Type 1 where
  pub Double : Type 0
  -- `std::stod`, none where it throws
  pub stod : Bytes → Option Double
  -- `std::to_string`
  pub double_text : Double → Bytes
  -- `std::regex_search`
  pub search : Pattern → Bytes → Option Match
