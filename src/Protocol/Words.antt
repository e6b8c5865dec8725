-- ===== src/Protocol/Words.antt =====
-- The words of the protocol are read back.
use bridge_framework.Base.{◌≡◌, refl, ok, chars}
use bridge_framework.Protocol.{
  DaemonMode, AuthScheme, ExportFormat, lite, full, ultra, off, bearer, api_key, json, csv, text,
  mode_as_str, parse_mode, scheme_as_str, parse_scheme, format_as_str, parse_format,
}

parse_mode-as_str : (m : DaemonMode) → parse_mode (chars (mode_as_str m)) ≡ ok m
unfolding parse_mode mode_as_str
parse_mode-as_str lite = refl
parse_mode-as_str full = refl
parse_mode-as_str ultra = refl
parse_mode-as_str off = refl

parse_scheme-as_str : (s : AuthScheme) → parse_scheme (chars (scheme_as_str s)) ≡ ok s
unfolding parse_scheme scheme_as_str
parse_scheme-as_str bearer = refl
parse_scheme-as_str api_key = refl

parse_format-as_str : (f : ExportFormat) → parse_format (chars (format_as_str f)) ≡ ok f
unfolding parse_format format_as_str
parse_format-as_str json = refl
parse_format-as_str csv = refl
parse_format-as_str text = refl

-- Every mode, authentication scheme and export format is read back from its word.
pub parse-word :
    (m : DaemonMode) (s : AuthScheme) (f : ExportFormat)
    → (parse_mode (chars (mode_as_str m)) ≡ ok m)
      × (parse_scheme (chars (scheme_as_str s)) ≡ ok s)
      × (parse_format (chars (format_as_str f)) ≡ ok f)
parse-word m s f = (parse_mode-as_str m, parse_scheme-as_str s, parse_format-as_str f)
