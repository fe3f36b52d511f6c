-- ===== src/Relay/Settings/RoundTrip.antt =====
-- The settings of relay/main.cpp, stored and loaded again.
use mbsquad.Prelude.{◌≡◌, ◌≢◌, refl, ap, ◌∙◌, Bool, true, [], ◌∷◌, some, ◌>>=◌}
use mbsquad.Prelude.Bytes.{Bytes, equal}
use mbsquad.Prelude.Maps.{bytes_key, lookup}
use mbsquad.Prelude.Int.{ℤ}
use mbsquad.Relay.Files.{Disk}
use mbsquad.Relay.Files.Paths.{read_file-write_file}
use mbsquad.Relay.Settings.{
  Json, Config, to_json, from_json, load_cfg, save_cfg, parsed_config, config_or_default,
}

-- What the library documents of its conversions: a value is converted back to what it was made of.
pub record IsLawful {J : Type 0} (L : Json J) : Type 0 where
  pub texts : (s : Bytes) → L.as_text (L.of_text s) ≡ some s
  pub ints : (n : ℤ) → L.as_int (L.of_int n) ≡ some n
  pub flags : (b : Bool) → L.as_flag (L.of_flag b) ≡ some b

module _ {J : Type 0} (L : Json J) (h : IsLawful L) where
  from_json-to_json : (c : Config) → from_json L (to_json L c) ≡ some c
  unfolding from_json lookup equal
  from_json-to_json c = simp (h.texts, h.ints, h.flags)

  parsed_config_read :
      (c : Config) (text : Bytes)
      → text ≢ []
      → L.parse text ≡ some (to_json L c)
      → parsed_config L text ≡ c
  parsed_config_read c [] hn hp = absurd (hn refl)
  parsed_config_read c (b ∷ text) hn hp =
      ap (λ o. config_or_default L (o >>= from_json L)) hp
      ∙ ap (config_or_default L) (from_json-to_json c)

  -- What is saved in a file that can be written is loaded again, every field of it, where the library
  -- reads the text that it made of the settings, which is not empty, as the same object.
  pub load_cfg-save_cfg :
      (d : Disk) (cfg_path : Bytes) (c : Config)
      → d.writable cfg_path ≡ true
      → L.dump (to_json L c) ≢ []
      → L.parse (L.dump (to_json L c)) ≡ some (to_json L c)
      → load_cfg L (save_cfg L d cfg_path c) cfg_path ≡ c
  unfolding load_cfg save_cfg
  load_cfg-save_cfg d cfg_path c hw hn hp =
      ap (parsed_config L) (read_file-write_file d cfg_path (L.dump (to_json L c)) hw)
      ∙ parsed_config_read c (L.dump (to_json L c)) hn hp
