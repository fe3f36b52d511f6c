-- ===== src/Tests/Chat.antt =====
-- Runs of the chat commands.
use mbsquad.Prelude.{◌-◌, true, [], ◌∷◌, none, some, ◌≡◌, refl, arith}
use mbsquad.Prelude.Bytes.{codes}
use mbsquad.Prelude.Int.{pos, ltb_ℤ}
use mbsquad.Core.Settings.{get_setting_int-nil}
use mbsquad.Plugins.Chat.{Tables, Caller, last_reward, remaining}
use mbsquad.Plugins.Chat.Commands.{Outside, is_sign_in_reason, do_sign_in, handle_chat}
use mbsquad.Plugins.Chat.Debt.{NoDebt, handle_chat-NoDebt}
use mbsquad.Plugins.Chat.SignIn.{cooldown, later_caller, do_sign_in-once}

-- A second is a second, and the lower bound is drawn.
abbrev outside : Outside
outside = record {
  elapsed = λ now created. pos (now - created);
  draw = λ low high. low;
  answer = λ command. codes "Changed";
  parse = λ raw. [];
  ratio = λ k d. codes "1.00";
}

abbrev tables : Tables
tables = record {
  settings = [];
  points =
      (
        1,
        record {
          server_id = some 3;
          steam_id = codes "76";
          player_name = codes "p";
          balance = pos 30;
          lifetime_earned = pos 30;
        },
      )
      ∷ [];
  next_id = 2;
  logs = [];
  slots = [];
  kills = [];
  sent = [];
}

abbrev caller : Caller
caller = record { server_id = 3; steam_id = codes "76"; player_name = codes "p"; now = 100 }

handle_chat-NoDebt_example : NoDebt (handle_chat outside (codes "TB") caller tables)
handle_chat-NoDebt_example =
    handle_chat-NoDebt outside (codes "TB") caller tables (λ low high _. omega arith)
      (rw (get_setting_int-nil (codes "lottery_min") (pos 5)) (omega arith)) (omega arith, tt)

not_yet : remaining outside.elapsed is_sign_in_reason (cooldown tables) caller tables ≡ none
unfolding remaining last_reward
not_yet = refl

too_early : ltb_ℤ (pos (150 - 100)) (cooldown tables) ≡ true
too_early = rw (get_setting_int-nil (codes "sign_in_cooldown") (pos 86400)) refl

do_sign_in-once_example :
    ((do_sign_in outside
        (later_caller caller 150)
        (pos 5)
        (do_sign_in outside caller (pos 5) tables)).points
      ≡ (do_sign_in outside caller (pos 5) tables).points)
    × ((do_sign_in outside
          (later_caller caller 150)
          (pos 5)
          (do_sign_in outside caller (pos 5) tables)).logs
        ≡ (do_sign_in outside caller (pos 5) tables).logs)
do_sign_in-once_example =
    do_sign_in-once outside caller (pos 5) (pos 5) tables 150 not_yet tt too_early
