-- ===== src/Plugins/Chat/Triggers.antt =====
-- Which messages set off a command.
use mbsquad.Prelude.{
  ℕ, Bool, true, false, not, ◌&&◌, ◌||◌, List, [], ◌∷◌, ◌==◌, leb, if◌then◌else◌, map, keep, ◌≡◌,
  refl, ap, ◌∙◌, arith, All, Bool-cases, inl, inr, both_branches,
}
use mbsquad.Prelude.Bytes.{Bytes, lower, equal, equal_iff}
use mbsquad.Plugins.Chat.{Tables, Caller}
use mbsquad.Plugins.Chat.Commands.{
  Outside, ChatCmd, is_blank, is_end, keep_end, trim_back, trim_front, normalize, execute_command,
  run_commands, get_commands, handle_chat,
}

abbrev is_capital : ℕ → Bool
is_capital c = leb b'A' c && leb c b'Z'

abbrev NoCapital : Bytes → Type 0
NoCapital = All (λ c. is_capital c ≡ false)

-- Whether a text is without capital letters.
pub is_low : Bytes → Bool
is_low [] = true
is_low (c ∷ s) = not (is_capital c) && is_low s

is_low-NoCapital : (s : Bytes) → NoCapital s → is_low s ≡ true
unfolding is_low
is_low-NoCapital [] h = refl
is_low-NoCapital (c ∷ s) (hc, h) = ground (arith, hc, is_low-NoCapital s h)

map-lower-NoCapital : (s : Bytes) → NoCapital (map lower s)
map-lower-NoCapital [] = tt
map-lower-NoCapital (c ∷ s) = (ground arith, map-lower-NoCapital s)

keep_end-NoCapital :
    (c : ℕ) (s : Bytes) → is_capital c ≡ false → NoCapital s → NoCapital (keep_end c s)
keep_end-NoCapital c [] hc h = both_branches NoCapital (is_end c) [] (c ∷ []) tt (hc, tt)
keep_end-NoCapital c (d ∷ s) hc h = (hc, h)

trim_back-NoCapital : (s : Bytes) → NoCapital s → NoCapital (trim_back s)
unfolding trim_back
trim_back-NoCapital [] h = tt
trim_back-NoCapital (c ∷ s) (hc, h) =
    keep_end-NoCapital c (trim_back s) hc (trim_back-NoCapital s h)

trim_front-NoCapital : (s : Bytes) → NoCapital s → NoCapital (trim_front s)
unfolding trim_front
trim_front-NoCapital [] h = tt
trim_front-NoCapital (c ∷ s) (hc, h) =
    both_branches NoCapital (is_blank c) (trim_front s) (c ∷ s) (trim_front-NoCapital s h) (hc, h)

normalize-NoCapital : (msg : Bytes) → NoCapital (normalize msg)
unfolding normalize
normalize-NoCapital msg =
    trim_front-NoCapital (trim_back (map lower msg))
      (trim_back-NoCapital (map lower msg) (map-lower-NoCapital msg))

-- The commands that can be set off.
pub reachable : List ChatCmd → List ChatCmd
reachable = keep (λ cmd. is_low cmd.trigger)

never_equal :
    (msg trigger : Bytes) (on : Bool)
    → NoCapital msg
    → is_low trigger ≡ false
    → (on && equal msg trigger) ≡ false
never_equal msg trigger on h high = elim (Bool-cases (equal msg trigger)) [
  | inl same ↦
      absurd (cc (is_low-NoCapital msg h, ap is_low ((equal_iff msg trigger).0 same), high))
  | inr apart ↦ ground (arith, apart)
]

run_commands-reachable :
    (outside : Outside) (cmds : List ChatCmd) (msg : Bytes) (p : Caller) (t : Tables)
    → NoCapital msg
    → run_commands outside cmds msg p t ≡ run_commands outside (reachable cmds) msg p t
unfolding run_commands reachable
run_commands-reachable outside [] msg p t h = refl
run_commands-reachable outside (cmd ∷ cmds) msg p t h =
    let rest = run_commands-reachable outside cmds msg p t h in
    elim (Bool-cases (is_low cmd.trigger)) [
      | inl low ↦ rw low (
          ap
            (λ r.
              if cmd.enabled && equal msg cmd.trigger then execute_command outside cmd p t else r)
            rest)
      | inr high ↦ rw high (
          ap (λ b. if b then execute_command outside cmd p t else run_commands outside cmds msg p t)
            (never_equal msg cmd.trigger cmd.enabled h high)
          ∙ rest)
    ]

-- What a message does is what it does with the commands taken away whose trigger has a capital letter:
-- those are never carried out, as the message is put into small letters and the trigger is not.
pub handle_chat-reachable :
    (outside : Outside) (msg : Bytes) (p : Caller) (t : Tables)
    → handle_chat outside msg p t ≡ (
        if equal msg [] || equal p.steam_id [] || p.server_id == 0
        then t
        else run_commands outside (reachable (get_commands outside t)) (normalize msg) p t)
unfolding handle_chat
handle_chat-reachable outside msg p t =
    ap (λ r. if equal msg [] || equal p.steam_id [] || p.server_id == 0 then t else r)
      (run_commands-reachable outside (get_commands outside t) (normalize msg) p t
        (normalize-NoCapital msg))
