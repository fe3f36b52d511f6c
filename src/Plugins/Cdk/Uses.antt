-- ===== src/Plugins/Cdk/Uses.antt =====
-- How often a code is redeemed.
use mbsquad.Prelude.{ℕ, true, false, Option, none, some, ◌≡◌, ◌≢◌, refl, sym, ◌∙◌, arith, exists}
use mbsquad.Prelude.Bytes.{Bytes, equal_refl}
use mbsquad.Prelude.Maps.{nat_key}
use mbsquad.Prelude.Int.{pos, ltb_ℤ}
use mbsquad.Plugins.Cdk.{
  CdkCode, Tables, Outcome, unknown_code, expired, used_up, wrong_server, used_before, granted,
  read_int, find_code, used_by, record_use, decide, carry_out, redeem_row, redeem,
}

pub decide_granted :
    (sid : ℕ) (steam_id name now code : Bytes) (row : CdkCode) (t : Tables)
    → decide sid steam_id name now code row t ≡ granted
    → (ltb_ℤ (read_int (pos row.used_count)) (read_int row.max_uses) ≡ true)
      × (exists (used_by code steam_id) t.cdk_logs ≡ false)
unfolding decide
decide_granted sid steam_id name now code row t h = ground arith

module _ (sid : ℕ) (steam_id name now code : Bytes) where
  -- A player whose redemption of the code is in the log is refused.
  decide_logged :
      (row : CdkCode) (t : Tables)
      → exists (used_by code steam_id) t.cdk_logs ≡ true
      → decide sid steam_id name now code row t ≢ granted
  decide_logged row t logged h =
      let (room, unlogged) = decide_granted sid steam_id name now code row t h in
      cc (logged, unlogged)

  carry_out_outcome :
      (id : ℕ) (row : CdkCode) (t : Tables) (o : Outcome)
      → (carry_out sid steam_id name code id row t o).0 ≡ o
  unfolding carry_out
  carry_out_outcome id row t granted = refl
  carry_out_outcome id row t unknown_code = refl
  carry_out_outcome id row t expired = refl
  carry_out_outcome id row t used_up = refl
  carry_out_outcome id row t wrong_server = refl
  carry_out_outcome id row t used_before = refl

  redeem_row_logged :
      (o : Option (ℕ × CdkCode)) (t : Tables)
      → exists (used_by code steam_id) t.cdk_logs ≡ true
      → (redeem_row sid steam_id name now code o t).0 ≢ granted
  unfolding redeem_row
  redeem_row_logged none t logged h = cc h
  redeem_row_logged (some (id, row)) t logged h =
      decide_logged row t logged (sym (carry_out_outcome id row t _) ∙ h)

  pub redeem_logged :
      (t : Tables)
      → exists (used_by code steam_id) t.cdk_logs ≡ true
      → (redeem sid steam_id name now code t).0 ≢ granted
  unfolding redeem
  redeem_logged t = redeem_row_logged (find_code code t.cdk_codes) t

  carry_out_logs :
      (id : ℕ) (row : CdkCode) (t : Tables) (o : Outcome)
      → (carry_out sid steam_id name code id row t o).0 ≡ granted
      → exists (used_by code steam_id) (carry_out sid steam_id name code id row t o).1.cdk_logs
        ≡ true
  unfolding carry_out record_use
  carry_out_logs id row t granted h = rw (equal_refl code, equal_refl steam_id)
  carry_out_logs id row t unknown_code h = absurd (cc h)
  carry_out_logs id row t expired h = absurd (cc h)
  carry_out_logs id row t used_up h = absurd (cc h)
  carry_out_logs id row t wrong_server h = absurd (cc h)
  carry_out_logs id row t used_before h = absurd (cc h)

  redeem_row_logs :
      (o : Option (ℕ × CdkCode)) (t : Tables)
      → (redeem_row sid steam_id name now code o t).0 ≡ granted
      → exists (used_by code steam_id) (redeem_row sid steam_id name now code o t).1.cdk_logs ≡ true
  unfolding redeem_row
  redeem_row_logs none t h = absurd (cc h)
  redeem_row_logs (some (id, row)) t h = carry_out_logs id row t _ h

  redeem_logs :
      (t : Tables)
      → (redeem sid steam_id name now code t).0 ≡ granted
      → exists (used_by code steam_id) (redeem sid steam_id name now code t).1.cdk_logs ≡ true
  unfolding redeem
  redeem_logs t = redeem_row_logs (find_code code t.cdk_codes) t

-- A player who was granted a code is refused when redeeming it next, at any time, on any server
-- and under any name.
pub redeem_once :
    (sid sid' : ℕ) (steam_id name name' now now' code : Bytes) (t : Tables)
    → (redeem sid steam_id name now code t).0 ≡ granted
    → (redeem sid' steam_id name' now' code (redeem sid steam_id name now code t).1).0 ≢ granted
redeem_once sid sid' steam_id name name' now now' code t h =
    redeem_logged sid' steam_id name' now' code (redeem sid steam_id name now code t).1
      (redeem_logs sid steam_id name now code t h)
