-- ===== src/Core/Url.antt =====
-- `parseRelayUrl` of src/core/shared_utils.h.
use mbsquad.Prelude.{
  ◌≡◌, refl, ap, true, false, [], ◌∷◌, ◌++◌, append_assoc, append-nil, ℕ, ◌<◌, ◌^◌, Option, none,
  some, arith, ◌==◌, All-map, All-append,
}
use mbsquad.Prelude.Bytes.{
  Bytes, codes, strip_prefix, split_at, split_at-append, split_at-none, Lacks,
}
use mbsquad.Prelude.Int.{ℤ, pos}
use mbsquad.Core.Numbers.{is_digit, stoi, decimal_nat}
use mbsquad.Core.Numbers.RoundTrip.{stoi_nat, decimal_nat-AllDigits}

pub record RelayEndpoint : Type 0 where
  pub host : Bytes
  pub port : ℤ

abbrev or_else : ℤ → Option ℤ → ℤ
or_else fallback none = fallback
or_else fallback (some z) = z

-- `rest.substr(p + 3)` for the first `p` at which `://` stands, if there is one.
find_scheme_end : Bytes → Option Bytes
find_scheme_end [] = none
find_scheme_end (c ∷ s) = elim (strip_prefix (codes "://") (c ∷ s)) [
  | none ↦ find_scheme_end s
  | some rest ↦ some rest
]

after_scheme : Bytes → Bytes
after_scheme url = elim (find_scheme_end url) [ none ↦ url | some rest ↦ rest ]

-- Without a slash the whole text.
before_slash : Bytes → Bytes
before_slash s = elim (split_at b'/' s) [ none ↦ s | some (front, _) ↦ front ]

-- The text of the port behind a colon. `slash` is searched from the start of the text. Where it
-- stands in front of the colon, `slash - colon - 1` wraps to a huge count and `substr` takes all.
port_text : Bytes → Bytes → Bytes
port_text host tail = elim (split_at b'/' host) [ none ↦ before_slash tail | some _ ↦ tail ]

with_colon : ℤ → Bytes → Option (Bytes × Bytes) → RelayEndpoint
with_colon default_port rest none = record { host = before_slash rest; port = default_port }
with_colon default_port rest (some (host, tail)) = record {
  host = host;
  port = or_else default_port (stoi (port_text host tail));
}

pub parse_relay_url : Bytes → ℤ → RelayEndpoint
parse_relay_url url default_port =
    let rest = after_scheme url in with_colon default_port rest (split_at b':' rest)

find_scheme_end-append :
    (scheme rest : Bytes)
    → Lacks b':' scheme
    → find_scheme_end (scheme ++ (codes "://" ++ rest)) ≡ some rest
unfolding find_scheme_end strip_prefix
find_scheme_end-append [] rest h = refl
find_scheme_end-append (c ∷ s) rest h = ground (arith, find_scheme_end-append s rest h.1)

after_scheme-append :
    (scheme rest : Bytes)
    → Lacks b':' scheme
    → after_scheme (scheme ++ (codes "://" ++ rest)) ≡ rest
unfolding after_scheme
after_scheme-append scheme rest h = rw (find_scheme_end-append scheme rest h, after_scheme)

-- What may follow the host and the port: nothing, or a slash and the rest of the path.
abbrev pub path_text : Option Bytes → Bytes
path_text none = []
path_text (some path) = b'/' ∷ path

before_slash-path_text :
    (s : Bytes) (path : Option Bytes) → Lacks b'/' s → before_slash (s ++ path_text path) ≡ s
unfolding before_slash
before_slash-path_text s none h = rw append-nil (rw (split_at-none b'/' s h, before_slash))
before_slash-path_text s (some path) h = rw (split_at-append b'/' s path h, before_slash)

digit_lacks_slash : (c : ℕ) → is_digit c ≡ true → (c == b'/') ≡ false
digit_lacks_slash c h = ground arith

port_text-decimal :
    (host : Bytes) (port : ℕ) (path : Option Bytes)
    → Lacks b'/' host
    → stoi (port_text host (decimal_nat port ++ path_text path)) ≡ stoi (decimal_nat port)
unfolding port_text
port_text-decimal host port path h =
    rw (split_at-none b'/' host h, port_text)
      (ap stoi (
        before_slash-path_text (decimal_nat port) path
          (All-map digit_lacks_slash (decimal_nat port) (decimal_nat-AllDigits port))))

module _ (scheme host : Bytes) (default_port : ℤ) (scheme_plain : Lacks b':' scheme)
    (host_plain : Lacks b':' host) where
  -- A URL with a port gives the host and that port, whatever path follows.
  pub parse_relay_url_port :
      (port : ℕ) (path : Option Bytes)
      → Lacks b'/' host
      → port < 2 ^ 31
      → parse_relay_url
          (scheme ++ (codes "://" ++ (host ++ b':' ∷ (decimal_nat port ++ path_text path))))
          default_port
        ≡ record { host = host; port = pos port }
  unfolding parse_relay_url with_colon
  parse_relay_url_port port path no_slash h =
      let tail = decimal_nat port ++ path_text path in
      rw (after_scheme-append scheme (host ++ b':' ∷ tail) scheme_plain) (
        rw (split_at-append b':' host tail host_plain, with_colon)
          (rw (port_text-decimal host port path no_slash) (rw (stoi_nat port h))))

  -- A URL with no port and no colon in its path gives the host and the default port.
  pub parse_relay_url_default :
      (path : Option Bytes)
      → Lacks b'/' host
      → Lacks b':' (path_text path)
      → parse_relay_url (scheme ++ (codes "://" ++ (host ++ path_text path))) default_port
        ≡ record { host = host; port = default_port }
  unfolding parse_relay_url with_colon
  parse_relay_url_default path no_slash plain =
      rw (after_scheme-append scheme (host ++ path_text path) scheme_plain) (
        rw
          (
            split_at-none b':' (host ++ path_text path)
                (All-append _ host (path_text path) host_plain plain),
            with_colon,
          )
          (rw (before_slash-path_text host path no_slash)))

  -- A colon in the path is taken for the one in front of the port: the path up to it becomes part
  -- of the host.
  pub parse_relay_url_path_colon :
      (path tail : Bytes)
      → Lacks b':' path
      → (parse_relay_url
          (scheme ++ (codes "://" ++ (host ++ b'/' ∷ (path ++ b':' ∷ tail))))
          default_port).host
        ≡ host ++ b'/' ∷ path
  unfolding parse_relay_url with_colon
  parse_relay_url_path_colon path tail plain =
      rw (after_scheme-append scheme (host ++ b'/' ∷ (path ++ b':' ∷ tail)) scheme_plain) (
        rw (← append_assoc host (b'/' ∷ path) (b':' ∷ tail)) (
          rw (
            split_at-append b':' (host ++ b'/' ∷ path) tail
                (All-append _ host (b'/' ∷ path) host_plain (refl, plain)),
            with_colon,
          )))
