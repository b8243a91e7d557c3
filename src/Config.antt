-- ===== src/Config.antt =====
-- config.c and logging.c: the options of the command line and the level of the log.
-- A C string is the list of its bytes before the NUL; a `char *` that can be NULL is an `Option`. What is
-- logged is left out.
pub mod Options
use post_dns.Base.{
  ℕ, ◌+◌, ◌-◌, ◌%◌, ◌^◌, List, [], ◌∷◌, Bool, true, false, ◌==◌, Option, none, some, ltb,
  if◌then◌else◌, drop, Run, ok, Fault, ◌>>=◌, from_option,
}
use mathlib.Core.List.{head?}
use post_dns.Text.{Str}

-- `logging_information_level` of `logging_level_t`, by its number.
abbrev pub logging_information_level : ℕ
logging_information_level = 1

pub record DnsConfig : Type 0 where
  pub upstream_name : Option Str
  pub ipv4_config_file : Option Str
  pub ipv6_config_file : Option Str
  pub cname_config_file : Option Str
  pub logging_level : ℕ

-- "10.3.9.44"
abbrev pub upstream_default : Str
upstream_default = 0x31 ∷ 0x30 ∷ 0x2e ∷ 0x33 ∷ 0x2e ∷ 0x39 ∷ 0x2e ∷ 0x34 ∷ 0x34 ∷ []

unfoldable pub config_default : DnsConfig
config_default = record {
  upstream_name = some upstream_default;
  ipv4_config_file = none;
  ipv6_config_file = none;
  cname_config_file = none;
  logging_level = logging_information_level;
}

-- `s[0]`, where an empty string has its NUL.
abbrev pub first_char : Str → ℕ
first_char [] = 0
first_char (c ∷ s) = c

-- `s[1]` of a string that is not empty.
abbrev pub second_char : Str → ℕ
second_char [] = 0
second_char (c ∷ s) = first_char s

-- `*argv[i+1] - 48` as an unsigned number: the `char` is signed.
unfoldable pub level_of : ℕ → ℕ
level_of c = (if ltb c 128 then c + 2 ^ 32 - 48 else c + 2 ^ 32 - 256 + 2 ^ 32 - 48) % 2 ^ 32

-- A level above 3 is refused.
unfoldable pub new_level : ℕ → ℕ → ℕ
new_level level asked = if ltb 3 asked then level else asked

-- What one round of the loop does: it goes on with a configuration and the global `logging_level`, and
-- skips the next argument or does not; or it prints the help and ends the process.
pub data Round : Type 0 where
  goes_on : Bool → DnsConfig → ℕ → Round
  helps : Round

-- The `switch`; `next_argument` is `argv[i + 1]`. The case of 'l' falls through to the default, which logs.
unfoldable pub config_option : DnsConfig → ℕ → ℕ → Option Str → Run Round
unfolding level_of new_level
config_option config level c next_argument =
    if c == 0x68
    then ok helps
    else if c == 0x73
    then ok (goes_on true (record config { upstream_name = next_argument }) level)
    else if c == 0x34
    then ok (goes_on true (record config { ipv4_config_file = next_argument }) level)
    else if c == 0x36
    then ok (goes_on true (record config { ipv6_config_file = next_argument }) level)
    else if c == 0x63
    then ok (goes_on true (record config { cname_config_file = next_argument }) level)
    else if c == 0x6c
    then (do
      text ← from_option Fault.null_pointer next_argument
      ok (goes_on false config (new_level level (level_of (first_char text)))))
    else ok (goes_on false config level)

unfoldable pub config_argument : DnsConfig → ℕ → Str → Option Str → Run Round
unfolding config_option
config_argument config level argument next_argument =
    if first_char argument == 0x2d
    then config_option config level (second_char argument) next_argument
    else ok (goes_on false config level)

-- How the reading of the command line ends.
pub data Startup : Type 0 where
  started : DnsConfig → ℕ → Startup
  helped : Startup

-- The loop; the Boolean says that `i++` has passed over the next argument. Behind the last one stands NULL.
unfoldable pub config_loop : Bool → DnsConfig → ℕ → List Str → Run Startup
unfolding config_argument
config_loop skip config level [] = ok (started config level)
config_loop true config level (argument ∷ rest) = config_loop false config level rest
config_loop false config level (argument ∷ rest) = do
  round ← config_argument config level argument (head? rest)
  elim round [
    | goes_on skip config' level' ↦ config_loop skip config' level' rest
    | helps ↦ ok helped
  ]

-- `config_init`, with the value of the global `logging_level`.
unfoldable pub config_init : ℕ → List Str → Run Startup
unfolding config_loop config_default
config_init level argv = config_loop false config_default level (drop 1 argv)
