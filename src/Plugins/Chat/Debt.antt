-- ===== src/Plugins/Chat/Debt.antt =====
-- The commands of the chat keep every balance at zero or above.
use mbsquad.Prelude.{
  ℕ, Bool, false, ◌&&◌, ◌||◌, List, [], ◌∷◌, Option, none, some, if◌then◌else◌, ◌==◌, ◌≡◌, ap, sym,
  subst, ◌∙◌, arith, All, both_branches, branches_given, Bool-cases, Option-cases, inl, inr,
}
use mathlib.Core.Option.{some-injective}
use mbsquad.Prelude.Bytes.{Bytes, codes, equal}
use mbsquad.Prelude.Maps.{nat_key, All-insert}
use mbsquad.Prelude.Int.{ℤ, pos, ltb_ℤ, ◌≤ℤ◌, ◌+ℤ◌, ◌-ℤ◌, +ℤ_parts, -ℤ_parts}
use mbsquad.Core.Numbers.{safe_stoi, to_string}
use mbsquad.Core.Numbers.RoundTrip.{safe_stoi_le}
use mbsquad.Core.Settings.{get_setting_int, get_setting_bool}
use mbsquad.Points.{PointsRow, find_row, first_of, of_server, find_points}
use mbsquad.Plugins.Chat.{
  Tables, Caller, send_console, warn, balance_text, get_balance, or_zero, add_to_points,
  add_balance,
}
use mbsquad.Plugins.Chat.Commands.{
  Outside, ChatCmd, sign_in_reason, sign_in_after, do_sign_in, give_prize, prize, pay_lottery,
  lottery_after, do_lottery, do_redeem, has_slot, do_query_kd, do_query_points, do_switch_team,
  positive_or, execute_command, run_commands, get_commands, normalize, handle_chat,
}

abbrev pub NotNegative : ℕ × PointsRow → Type 0
NotNegative e = pos 0 ≤ℤ e.1.balance

abbrev pub NoDebt : Tables → Type 0
NoDebt t = All NotNegative t.points

find_row-All :
    (test : PointsRow → Bool) (rows : List (ℕ × PointsRow)) (id : ℕ) (row : PointsRow)
    → All NotNegative rows
    → find_row test rows ≡ some (id, row)
    → pos 0 ≤ℤ row.balance
unfolding find_row
find_row-All test [] id row h e = cc
find_row-All test ((j, r) ∷ rows) id row (hr, h) e = elim (Bool-cases (test r)) [
  | inl own ↦
      subst NotNegative
        (some-injective (j, r) (id, row)
          (ap (λ b. if b then some (j, r) else find_row test rows) (sym own) ∙ e))
        hr
  | inr other ↦
      find_row-All test rows id row h
        (ap (λ b. if b then some (j, r) else find_row test rows) (sym other) ∙ e)
]

find_points-NotNegative :
    (sid : ℕ) (steam_id : Bytes) (rows : List (ℕ × PointsRow)) (id : ℕ) (row : PointsRow)
    → All NotNegative rows
    → find_points sid steam_id rows ≡ some (id, row)
    → pos 0 ≤ℤ row.balance
unfolding find_points first_of
find_points-NotNegative sid steam_id rows id row h e =
    elim (Option-cases (find_row (of_server (some sid) steam_id) rows)) [
      | inl missing ↦
          find_row-All (of_server none steam_id) rows id row h
            (ap (λ o. first_of o (find_row (of_server none steam_id) rows)) (sym missing) ∙ e)
      | inr (own, found) ↦
          find_row-All (of_server (some sid) steam_id) rows id row h
            (found ∙ ap (λ o. first_of o (find_row (of_server none steam_id) rows)) (sym found) ∙ e)
    ]

or_zero_lem : (amount : ℤ) → pos 0 ≤ℤ or_zero amount
or_zero_lem amount = ground arith

-- The row of the caller stays at zero or above with the amount.
Affords : Caller → ℤ → Option (ℕ × PointsRow) → Type 0
Affords p amount none = Unit
Affords p amount (some (id, row)) = pos 0 ≤ℤ row.balance +ℤ amount

add_to_points-NoDebt :
    (p : Caller) (amount : ℤ) (o : Option (ℕ × PointsRow)) (t : Tables)
    → NoDebt t
    → Affords p amount o
    → NoDebt (add_to_points p amount o t)
unfolding Affords
add_to_points-NoDebt p amount none t h k =
    All-insert NotNegative t.next_id _ t.points (or_zero_lem amount) h
add_to_points-NoDebt p amount (some (id, row)) t h k = All-insert NotNegative id _ t.points k h

add_balance-NoDebt :
    (p : Caller) (amount : ℤ) (reason : Bytes) (t : Tables)
    → NoDebt t
    → Affords p amount (find_points p.server_id p.steam_id t.points)
    → NoDebt (add_balance p amount reason t)
unfolding add_balance
add_balance-NoDebt p amount reason t h k =
    add_to_points-NoDebt p amount (find_points p.server_id p.steam_id t.points) t h k

gain-Affords :
    (p : Caller) (amount : ℤ) (t : Tables)
    → NoDebt t
    → pos 0 ≤ℤ amount
    → Affords p amount (find_points p.server_id p.steam_id t.points)
unfolding Affords
gain-Affords p amount t h gain = elim (Option-cases (find_points p.server_id p.steam_id t.points)) [
  | inl e ↦ rw e tt
  | inr ((id, row), e) ↦ rw e (
      omega (
        arith,
        gain,
        find_points-NotNegative p.server_id p.steam_id t.points id row h e,
        +ℤ_parts row.balance amount,
      ))
]

cost-Affords :
    (p : Caller) (cost : ℤ) (t : Tables)
    → NoDebt t
    → ltb_ℤ (get_balance p t) cost ≡ false
    → Affords p (pos 0 -ℤ cost) (find_points p.server_id p.steam_id t.points)
unfolding Affords get_balance
cost-Affords p cost t h enough = elim (Option-cases (find_points p.server_id p.steam_id t.points)) [
  | inl e ↦ rw e tt
  | inr ((id, row), e) ↦
      let own = find_points-NotNegative p.server_id p.steam_id t.points id row h e in
      let left : ltb_ℤ (safe_stoi (to_string row.balance) (pos 0)) cost ≡ false =
        ap (λ o. ltb_ℤ (safe_stoi (balance_text o) (pos 0)) cost) (sym e) ∙ enough in
      let least : cost ≤ℤ safe_stoi (to_string row.balance) (pos 0) = ground (arith, left) in
      rw e (
        omega (
          arith,
          least,
          safe_stoi_le row.balance own,
          +ℤ_parts row.balance (pos 0 -ℤ cost),
          -ℤ_parts (pos 0) cost,
        ))
]

sign_in_after-NoDebt :
    (p : Caller) (reward : ℤ) (t : Tables) (o : Option ℤ)
    → NoDebt t
    → pos 0 ≤ℤ reward
    → NoDebt (sign_in_after p reward t o)
unfolding sign_in_after warn send_console
sign_in_after-NoDebt p reward t (some left) h gain = h
sign_in_after-NoDebt p reward t none h gain =
    add_balance-NoDebt p reward sign_in_reason t h (gain-Affords p reward t h gain)

-- What a distribution promises of its lower bound.
abbrev pub DrawsWithin : Outside → Type 0
DrawsWithin outside = (low high : ℤ) → low ≤ℤ high → low ≤ℤ outside.draw low high

abbrev pub LotteryGains : Tables → Type 0
LotteryGains t = pos 0 ≤ℤ get_setting_int t.settings (codes "lottery_min") (pos 5)

raised : (low high : ℤ) → low ≤ℤ (if ltb_ℤ high low then low else high)
raised low high = ground arith

prize_lem :
    (outside : Outside) (t : Tables)
    → DrawsWithin outside
    → LotteryGains t
    → pos 0 ≤ℤ prize outside t
unfolding prize
prize_lem outside t draws gains =
    let low = get_setting_int t.settings (codes "lottery_min") (pos 5) in
    let high = get_setting_int t.settings (codes "lottery_max") (pos 30) in
    omega (arith, gains, draws low (if ltb_ℤ high low then low else high) (raised low high))

give_prize-NoDebt :
    (p : Caller) (reward : ℤ) (t : Tables)
    → NoDebt t
    → pos 0 ≤ℤ reward
    → NoDebt (give_prize p reward t)
unfolding give_prize warn send_console
give_prize-NoDebt p reward t h gain =
    add_balance-NoDebt p reward _ t h (gain-Affords p reward t h gain)

pay_lottery-NoDebt :
    (outside : Outside) (p : Caller) (cost : ℤ) (t : Tables)
    → NoDebt t
    → pos 0 ≤ℤ prize outside t
    → NoDebt (pay_lottery outside p cost t)
unfolding pay_lottery warn send_console
pay_lottery-NoDebt outside p cost t h gain =
    both_branches NoDebt (ltb_ℤ (pos 0) cost) _ (give_prize p (prize outside t) t)
      (branches_given NoDebt (ltb_ℤ (get_balance p t) cost) _ _ (λ _. h)
        (λ enough.
          give_prize-NoDebt p (prize outside t) _
            (add_balance-NoDebt p (pos 0 -ℤ cost) _ t h (cost-Affords p cost t h enough)) gain))
      (give_prize-NoDebt p (prize outside t) t h gain)

lottery_after-NoDebt :
    (outside : Outside) (p : Caller) (t : Tables) (o : Option ℤ)
    → NoDebt t
    → pos 0 ≤ℤ prize outside t
    → NoDebt (lottery_after outside p t o)
unfolding lottery_after warn send_console
lottery_after-NoDebt outside p t (some left) h gain = h
lottery_after-NoDebt outside p t none h gain = pay_lottery-NoDebt outside p _ t h gain

do_redeem-NoDebt : (p : Caller) (cost : ℤ) (t : Tables) → NoDebt t → NoDebt (do_redeem p cost t)
unfolding do_redeem warn send_console
do_redeem-NoDebt p cost t h =
    branches_given NoDebt (ltb_ℤ (get_balance p t) cost) _ _ (λ _. h)
      (λ enough.
        both_branches NoDebt (has_slot p t.slots) _ _ h
          (add_balance-NoDebt p (pos 0 -ℤ cost) _ t h (cost-Affords p cost t h enough)))

do_switch_team-NoDebt :
    (outside : Outside) (p : Caller) (cost : ℤ) (t : Tables)
    → NoDebt t
    → NoDebt (do_switch_team outside p cost t)
unfolding do_switch_team warn send_console
do_switch_team-NoDebt outside p cost t h =
    branches_given NoDebt (ltb_ℤ (get_balance p t) cost) _ _ (λ _. h)
      (λ enough. add_balance-NoDebt p (pos 0 -ℤ cost) _ t h (cost-Affords p cost t h enough))

positive_or_lem : (z : ℤ) (n : ℕ) → pos 0 ≤ℤ positive_or z (pos n)
positive_or_lem z n = ground arith

execute_command-NoDebt :
    (outside : Outside) (cmd : ChatCmd) (p : Caller) (t : Tables)
    → NoDebt t
    → pos 0 ≤ℤ prize outside t
    → NoDebt (execute_command outside cmd p t)
unfolding execute_command do_sign_in do_lottery do_query_kd do_query_points warn send_console
execute_command-NoDebt outside cmd p t h gain =
    both_branches NoDebt (equal cmd.action (codes "sign_in")) _ _
      (sign_in_after-NoDebt p (positive_or cmd.reward (pos 5)) t _ h (positive_or_lem cmd.reward 5))
      (both_branches NoDebt (equal cmd.action (codes "lottery")) _ _
        (both_branches NoDebt (get_setting_bool t.settings (codes "lottery_enabled") false) _ t
          (lottery_after-NoDebt outside p t _ h gain) h)
        (both_branches NoDebt (equal cmd.action (codes "query_kd")) _ _ h (
          both_branches NoDebt (equal cmd.action (codes "query_points")) _ _ h (
            both_branches NoDebt (equal cmd.action (codes "redeem")) _ _
              (do_redeem-NoDebt p (positive_or cmd.cost (pos 50)) t h)
              (both_branches NoDebt (equal cmd.action (codes "switch_team")) _ t
                (do_switch_team-NoDebt outside p (positive_or cmd.cost (pos 20)) t h) h)))))

run_commands-NoDebt :
    (outside : Outside) (cmds : List ChatCmd) (msg : Bytes) (p : Caller) (t : Tables)
    → NoDebt t
    → pos 0 ≤ℤ prize outside t
    → NoDebt (run_commands outside cmds msg p t)
unfolding run_commands
run_commands-NoDebt outside [] msg p t h gain = h
run_commands-NoDebt outside (cmd ∷ cmds) msg p t h gain =
    both_branches NoDebt (cmd.enabled && equal msg cmd.trigger) (execute_command outside cmd p t)
      (run_commands outside cmds msg p t) (execute_command-NoDebt outside cmd p t h gain)
      (run_commands-NoDebt outside cmds msg p t h gain)

-- No message, of whatever player and with whatever commands set up, takes a balance below zero where
-- none was, if the lottery's lower bound is not negative and its draws stay above that bound.
pub handle_chat-NoDebt :
    (outside : Outside) (msg : Bytes) (p : Caller) (t : Tables)
    → DrawsWithin outside
    → LotteryGains t
    → NoDebt t
    → NoDebt (handle_chat outside msg p t)
unfolding handle_chat
handle_chat-NoDebt outside msg p t draws gains h =
    both_branches NoDebt (equal msg [] || equal p.steam_id [] || p.server_id == 0) t
      (run_commands outside (get_commands outside t) (normalize msg) p t) h
      (run_commands-NoDebt outside (get_commands outside t) (normalize msg) p t h
        (prize_lem outside t draws gains))
