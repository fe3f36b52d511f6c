-- ===== src/Tests/Logs.antt =====
-- Runs of the log parser and of the tailer, with small stand-ins for the regular expressions.
use mbsquad.Prelude.{
  ℕ, ◌≤◌, Bool, true, false, not, ◌&&◌, ◌||◌, List, [], ◌∷◌, ◌++◌, Option, none, some, ◌≡◌, refl,
  arith, All, length, keep, ◌>>=◌,
}
use mbsquad.Prelude.Bytes.{Bytes, codes, equal, contains, strip_prefix, Lacks}
use mbsquad.Prelude.Find.{find}
use mbsquad.Prelude.Maps.{Distinct, remove, bytes_key}
use mbsquad.Logs.Names.{trim_blanks, replace_ids, preprocess_invalid_ids, extract_weapon}
use mbsquad.Logs.Names.Replaced.{with_placeholders, preprocess_invalid_ids-with_placeholders}
use mbsquad.Logs.Patterns.{Pattern, die, wound, Match, group, Std}
use mbsquad.Logs.Wounds.{Windows, Wounds, wound_record, cleanup}
use mbsquad.Logs.Kills.{attacker_of, is_null, has_id, shown_name}
use mbsquad.Logs.Lines.{is_death, is_wound, process_line}
use mbsquad.Logs.Lines.Credit.{IsWoundLine, IsDeathLine, process_line-kill}
use mbsquad.Logs.Lines.Cleanup.{parse_all, parse_all-cleanup}
use mbsquad.Logs.Tail.{Look, LocalServer, tail_loop}
use mbsquad.Logs.Tail.Once.{is_batch, tail_loop-once}

preprocess_invalid_ids-with_placeholders_example :
    preprocess_invalid_ids (codes "a INVALID b INVALID")
    ≡ with_placeholders (codes "a INVALID b INVALID")
preprocess_invalid_ids-with_placeholders_example =
    preprocess_invalid_ids-with_placeholders (codes "a INVALID b INVALID")

-- The groups that a line of a wound and one of a death give.
abbrev wound_groups : Match
wound_groups =
    []
    ∷ []
    ∷ []
    ∷ codes "Bo "
    ∷ codes "40.0"
    ∷ codes "Al"
    ∷ codes "00a"
    ∷ codes "76561198000000001"
    ∷ codes "c1"
    ∷ codes "BP_M4_C"
    ∷ []

abbrev death_groups : Bytes → Bytes → Match
death_groups controller id =
    []
    ∷ []
    ∷ []
    ∷ codes "Bo"
    ∷ codes "90.0"
    ∷ controller
    ∷ codes "00b"
    ∷ id
    ∷ codes "c1"
    ∷ codes "BP_Knife_C"
    ∷ []

abbrev first_groups : Match → Pattern → Bytes → Option Match
first_groups m die s = some m
first_groups m wound s = some wound_groups
first_groups m _ s = none

abbrev parser : Match → Std
parser m = record {
  Double = ℕ;
  stod = λ _. some 40;
  double_text = λ _. codes "40.000000";
  search = first_groups m;
}

abbrev windows : Windows
windows = record { dedup = 500; expiry = 30000 }

abbrev wounding : Bytes
wounding = codes "LogSquadTrace: Wound()"

abbrev dying : Bytes
dying = codes "LogSquadTrace: Die()"

abbrev by_controller : Match
by_controller = death_groups (codes "BP_PlayerController_C_1") (codes "76561198000000002")

abbrev by_no_one : Match
by_no_one = death_groups (codes "nullptr") (codes "76561198000000002")

wounding-IsWoundLine : (m : Match) → IsWoundLine (parser m) wounding wound_groups
unfolding is_death is_wound contains strip_prefix preprocess_invalid_ids replace_ids find
wounding-IsWoundLine m = (refl, refl, refl)

dying-IsDeathLine : (m : Match) → IsDeathLine (parser m) dying m
unfolding is_death contains strip_prefix preprocess_invalid_ids replace_ids find
dying-IsDeathLine m = (refl, refl)

controller_named : contains (codes "PlayerController") (trim_blanks (group by_controller 5)) ≡ true
unfolding contains strip_prefix trim_blanks
controller_named = refl

attacker_named : is_null (attacker_of by_controller) ≡ false
unfolding is_null equal trim_blanks
attacker_named = refl

attacker_missing : is_null (attacker_of by_no_one) ≡ true
unfolding is_null equal trim_blanks
attacker_missing = refl

wounder_real : has_id (group wound_groups 7) ≡ true
unfolding has_id equal
wounder_real = refl

same_player : trim_blanks (codes "Bo") ≡ trim_blanks (codes "Bo ")
unfolding trim_blanks
same_player = refl

process_line-kill_example :
    (process_line (parser by_controller) windows 1000 wounding [] >>= λ r.
    process_line (parser by_controller) windows 2000 dying r.1)
    ≡ some (
      record {
        type = codes "kill";
        fields =
            (codes "killerName", trim_blanks (codes "Al"))
            ∷ (codes "killerSteamId", codes "76561198000000001")
            ∷ (codes "killerEosId", codes "00a")
            ∷ (codes "victimName", shown_name (trim_blanks (codes "Bo")))
            ∷ (codes "victimSteamId", [])
            ∷ (codes "weapon", extract_weapon (codes "BP_M4_C"))
            ∷ (codes "damage", codes "90.0")
            ∷ [];
      }
          ∷ [],
      remove (trim_blanks (codes "Bo")) [],
    )
process_line-kill_example =
    process_line-kill (parser by_controller) windows 1000 2000 wounding dying wound_groups
      by_controller 40 [] (wounding-IsWoundLine by_controller) refl
      (dying-IsDeathLine by_controller) same_player (omega arith) attacker_named controller_named
      wounder_real

abbrev stored : Wounds (parser by_no_one)
stored = (codes "Bo", wound_record (parser by_no_one) 1000 wound_groups 40) ∷ []

stored-Distinct : Distinct stored
unfolding mbsquad.Prelude.Maps.lookup
stored-Distinct = (refl, tt)

-- A death, a new wound of the same player, and another death.
abbrev later_lines : List (ℕ × Bytes)
later_lines = (2000, dying) ∷ (2100, wounding) ∷ (2200, dying) ∷ []

parse_all-cleanup_example :
    parse_all
      (parser by_no_one)
      windows
      later_lines
      (cleanup (parser by_no_one) windows 1500 stored)
    ≡ parse_all (parser by_no_one) windows later_lines stored
parse_all-cleanup_example =
    parse_all-cleanup (parser by_no_one) windows 1500 later_lines stored stored-Distinct
      (omega arith, (omega arith, (omega arith, tt)))

abbrev found : ℕ → Bytes → Look
found size contents = record { exists = true; size = some size; opened = some contents }

found-IsSize : (n : ℕ) → some 4 ≡ some n → n ≤ 18446744073709551615
found-IsSize n h = ground (arith, h)

tail_loop-once_example :
    length (keep is_batch (tail_loop (found 4 (codes "a")) (found 4 (codes "b") ∷ []) 0)) ≤ 1
tail_loop-once_example =
    tail_loop-once (found 4 (codes "a")) (found 4 (codes "b") ∷ []) 0 (found-IsSize, tt)

abbrev two_lines : List Bytes
two_lines = codes "x" ∷ [] ∷ []

two_lines-Lacks : All (Lacks 10) two_lines
two_lines-Lacks = ((refl, tt), (tt, tt))

abbrev servers : List LocalServer
servers =
    record {
      id = codes "1";
      connection_mode = codes "local";
      log_path = codes "/log";
      server_api_key = codes "k";
    }
    ∷ []
