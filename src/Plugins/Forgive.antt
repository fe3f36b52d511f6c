-- ===== src/Plugins/Forgive.antt =====
-- src/plugins/tk_forgive_plugin.cpp on the table `tk_forgive`, src/plugins/switch_lock_plugin.cpp on the
-- table `switch_locks`, and the routes of src/handlers/tk_handler.cpp that change a record. A time is a
-- number of seconds.
pub mod Apology
use mbsquad.Prelude.{
  ℕ, zero, suc, ◌+◌, Bool, true, false, not, ◌&&◌, ◌||◌, List, [], ◌∷◌, ◌++◌, Option, none, some,
  ◌==◌, if◌then◌else◌, map, keep, exists,
}
use mbsquad.Prelude.Bytes.{Bytes, codes, utf8, lower, equal, contains, add_char}
use mbsquad.Prelude.Int.{ℤ, pos, negsuc, ltb_ℤ, eqb_ℤ, ◌+ℤ◌, ◌*ℤ◌}
use mbsquad.Core.Numbers.{to_string}
use mbsquad.Core.Settings.{SettingRows, get_setting, get_setting_int, get_setting_bool}
use mbsquad.Logs.Names.{trim_blanks}

-- A row of `tk_forgive`.
pub record TkRow : Type 0 where
  pub id : ℕ
  pub server_id : ℤ
  pub killer_steam_id : Bytes
  pub killer_name : Bytes
  pub victim_steam_id : Bytes
  pub victim_name : Bytes
  pub expires_at : ℤ
  pub forgiven : Bool
  pub kicked : Bool

-- A row of `switch_locks`.
pub record LockRow : Type 0 where
  pub server_id : ℤ
  pub steam_id : Bytes
  pub locked_until : ℤ

pub record TkTables : Type 0 where
  pub settings : SettingRows
  pub next_id : ℕ
  pub tk_forgive : List TkRow
  pub switch_locks : List LockRow
  pub sent : List Bytes

abbrev pub is_on : TkTables → Bool
is_on t = get_setting_bool t.settings (codes "tk_forgive_enabled") true

warn_player : Bytes → Bytes → TkTables → TkTables
warn_player steam_id msg t = record t {
  sent = (codes "AdminWarn \"" ++ steam_id ++ codes "\" " ++ msg) ∷ t.sent;
}

abbrev pub keywords_text : TkTables → Bytes
keywords_text t = get_setting t.settings (codes "tk_forgive_keywords") (codes "sor,sorry,soy")

forgive_text : TkTables → ℤ → Bytes → Bytes
forgive_text t secs victim_name =
    utf8 "你TK了"
    ++ victim_name
    ++ utf8 "，"
    ++ to_string secs
    ++ utf8 "秒内输入 "
    ++ keywords_text t
    ++ utf8 " 道歉，否则自动踢出。积分 -"
    ++ to_string (get_setting_int t.settings (codes "tk_penalty") (pos 5))

-- `handleKill`, with the type of the kill.
pub handle_kill : ℕ → Bytes → ℤ → Bytes → Bytes → Bytes → Bytes → TkTables → TkTables
handle_kill now type server_id killer killer_name victim victim_name t =
    let secs = get_setting_int t.settings (codes "tk_forgive_seconds") (pos 180) in
    if not (equal type (codes "teamkill")) || equal killer [] || not (is_on t)
    then t
    else warn_player killer (forgive_text t secs victim_name) (record t {
      next_id = t.next_id + 1;
      tk_forgive =
          record {
            id = t.next_id;
            server_id = server_id;
            killer_steam_id = killer;
            killer_name = killer_name;
            victim_steam_id = victim;
            victim_name = victim_name;
            expires_at = pos now +ℤ secs;
            forgiven = false;
            kicked = false;
          }
          ∷ t.tk_forgive;
    })

-- The texts between the commas.
unfoldable pub split_commas : Bytes → List Bytes
split_commas [] = []
split_commas (c ∷ s) = let rest = split_commas s in if c == b',' then [] ∷ rest else add_char c rest

unfoldable pub drop_blanks : Bytes → Bytes
drop_blanks [] = []
drop_blanks (c ∷ s) = let rest = drop_blanks s in if c == b' ' then rest else c ∷ s

unfoldable pub keywords : Bytes → List Bytes
keywords raw =
    keep (λ k. not (equal k []))
      (map (λ k. map lower (trim_blanks (drop_blanks k))) (split_commas raw))

abbrev pub is_apology : TkTables → Bytes → Bool
is_apology t msg = exists (λ k. contains k (map lower msg)) (keywords (keywords_text t))

abbrev pub is_active : ℕ → ℤ → Bytes → TkRow → Bool
is_active now server_id killer row =
    eqb_ℤ row.server_id server_id
    && equal row.killer_steam_id killer
    && not row.forgiven
    && not row.kicked
    && ltb_ℤ (pos now) row.expires_at

abbrev pub forgive_row : TkRow → TkRow
forgive_row row = record row { forgiven = true }

unfoldable pub forgive_active : (TkRow → Bool) → List TkRow → List TkRow
forgive_active test [] = []
forgive_active test (row ∷ rows) =
    (if test row then forgive_row row else row) ∷ forgive_active test rows

-- One message for each record that is forgiven.
pub tell_forgiven : Bytes → List TkRow → TkTables → TkTables
tell_forgiven killer [] t = t
tell_forgiven killer (row ∷ rows) t =
    tell_forgiven killer rows (warn_player killer (utf8 "你的TK已被原谅，注意友军伤害！") t)

-- `handleChat`. Its query and the change of each row by its id are one pass over the table.
unfoldable pub handle_apology : ℕ → ℤ → Bytes → Bytes → TkTables → TkTables
handle_apology now server_id steam_id msg t =
    let test = is_active now server_id steam_id in
    let told = tell_forgiven steam_id (keep test t.tk_forgive) t in
    if is_on t && not (equal steam_id []) && not (equal msg []) && is_apology t msg
    then record told { tk_forgive = forgive_active test t.tk_forgive }
    else t

-- `SwitchLockPlugin`: the locks of the server are replaced by one for everybody.
pub lock_switches : ℕ → Bytes → ℤ → TkTables → TkTables
lock_switches now type server_id t =
    let minutes = get_setting_int t.settings (codes "switch_lock_minutes") (pos 20) in
    if not (equal type (codes "scramble")) || eqb_ℤ server_id (pos 0) then t else record t {
      switch_locks =
          record {
            server_id = server_id;
            steam_id = codes "ALL";
            locked_until = pos now +ℤ (minutes *ℤ pos 60);
          }
          ∷ keep (λ l. not (eqb_ℤ l.server_id server_id)) t.switch_locks;
    }

has_record : ℕ → List TkRow → Bool
has_record id rows = exists (λ r. r.id == id) rows

-- `DELETE /api/tk-forgive/:id` and `POST /api/tk-forgive/:id/forgive`; none is the answer that no such
-- record is found.
pub delete_tk : ℕ → List TkRow → Option (List TkRow)
delete_tk id rows = if has_record id rows then some (keep (λ r. not (r.id == id)) rows) else none

pub forgive_tk : ℕ → List TkRow → Option (List TkRow)
forgive_tk id rows =
    if has_record id rows then some (forgive_active (λ r. r.id == id) rows) else none
