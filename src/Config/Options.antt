-- ===== src/Config/Options.antt =====
-- config.c: command lines of well-formed options.
use post_dns.Base.{
  ℕ, zero, suc, sym, ap, ◌∙◌, append-nil, ◌+◌, ◌<◌, ◌≡◌, refl, arith, List, [], ◌∷◌, ◌++◌, false,
  some, ok, fault, Fault,
}
use post_dns.Text.{Str}
use post_dns.Config.{
  DnsConfig, level_of, new_level, config_option, config_argument, started, helped, config_loop,
  config_init, config_default,
}

-- What one option with its argument sets.
pub data Setting : Type 0 where
  upstream_name : Str → Setting
  ipv4_config_file : Str → Setting
  ipv6_config_file : Str → Setting
  cname_config_file : Str → Setting
  logging_level : (n : ℕ) → n < 4 → Setting

-- `-s x`, `-4 x`, `-6 x`, `-c x` and `-l n`.
unfoldable pub arguments : Setting → List Str
arguments (upstream_name x) = (0x2d ∷ 0x73 ∷ []) ∷ x ∷ []
arguments (ipv4_config_file x) = (0x2d ∷ 0x34 ∷ []) ∷ x ∷ []
arguments (ipv6_config_file x) = (0x2d ∷ 0x36 ∷ []) ∷ x ∷ []
arguments (cname_config_file x) = (0x2d ∷ 0x63 ∷ []) ∷ x ∷ []
arguments (logging_level n _) = (0x2d ∷ 0x6c ∷ []) ∷ ((48 + n) ∷ []) ∷ []

unfoldable pub command_line : List Setting → List Str
command_line [] = []
command_line (x ∷ xs) = arguments x ++ command_line xs

-- The settings one after the other: the level is the global one, the others are in the configuration.
unfoldable pub configured : List Setting → DnsConfig → DnsConfig
configured [] c = c
configured (upstream_name x ∷ xs) c = configured xs (record c { upstream_name = some x })
configured (ipv4_config_file x ∷ xs) c = configured xs (record c { ipv4_config_file = some x })
configured (ipv6_config_file x ∷ xs) c = configured xs (record c { ipv6_config_file = some x })
configured (cname_config_file x ∷ xs) c = configured xs (record c { cname_config_file = some x })
configured (logging_level n _ ∷ xs) c = configured xs c

unfoldable pub leveled : List Setting → ℕ → ℕ
leveled [] level = level
leveled (logging_level n _ ∷ xs) level = leveled xs n
leveled (_ ∷ xs) level = leveled xs level

-- The level is taken from the next argument, which the next round reads as an option that is unknown.
config_loop-logging_level :
    (n : ℕ)
    → n < 4
    → (c : DnsConfig) (level : ℕ) (rest : List Str)
    → config_loop false c level ((0x2d ∷ 0x6c ∷ []) ∷ ((48 + n) ∷ []) ∷ rest)
      ≡ config_loop false c n rest
unfolding config_loop config_argument config_option level_of new_level
config_loop-logging_level zero h c level rest = refl
config_loop-logging_level (suc zero) h c level rest = refl
config_loop-logging_level (suc (suc zero)) h c level rest = refl
config_loop-logging_level (suc (suc (suc zero))) h c level rest = refl
config_loop-logging_level (suc (suc (suc (suc n)))) h c level rest = absurd (omega arith)

-- The loop on the options, whatever stands behind them.
config_loop-command_line :
    (xs : List Setting) (c : DnsConfig) (level : ℕ) (rest : List Str)
    → config_loop false c level (command_line xs ++ rest)
      ≡ config_loop false (configured xs c) (leveled xs level) rest
unfolding config_loop config_argument config_option command_line arguments configured leveled
config_loop-command_line [] c level rest = refl
config_loop-command_line (upstream_name x ∷ xs) c level rest =
    config_loop-command_line xs (record c { upstream_name = some x }) level rest
config_loop-command_line (ipv4_config_file x ∷ xs) c level rest =
    config_loop-command_line xs (record c { ipv4_config_file = some x }) level rest
config_loop-command_line (ipv6_config_file x ∷ xs) c level rest =
    config_loop-command_line xs (record c { ipv6_config_file = some x }) level rest
config_loop-command_line (cname_config_file x ∷ xs) c level rest =
    config_loop-command_line xs (record c { cname_config_file = some x }) level rest
config_loop-command_line (logging_level n small ∷ xs) c level rest =
    config_loop-logging_level n small c level (command_line xs ++ rest)
    ∙ config_loop-command_line xs c n rest

-- A command line of options with their arguments, in any order and any number: `config_init` returns
-- the configuration in which each has set its field, the last one winning, and the global level of
-- the log is the last one asked for.
pub config_init-command_line :
    (level : ℕ) (program : Str) (xs : List Setting)
    → config_init level (program ∷ command_line xs)
      ≡ ok (started (configured xs config_default) (leveled xs level))
unfolding config_init config_loop
config_init-command_line level program xs =
    ap (config_loop false config_default level) (sym (append-nil (command_line xs)))
    ∙ config_loop-command_line xs config_default level []

-- Behind options with their arguments: `-h` ends the process, whatever follows it, and `-l` without
-- a level reads through NULL.
pub config_init-last :
    (level : ℕ) (program : Str) (xs : List Setting)
    → ((rest : List Str)
        → config_init level (program ∷ command_line xs ++ (0x2d ∷ 0x68 ∷ []) ∷ rest) ≡ ok helped)
      × (config_init level (program ∷ command_line xs ++ (0x2d ∷ 0x6c ∷ []) ∷ [])
          ≡ fault Fault.null_pointer)
unfolding config_init config_loop config_argument config_option
config_init-last level program xs = (
  λ rest. config_loop-command_line xs config_default level ((0x2d ∷ 0x68 ∷ []) ∷ rest),
  config_loop-command_line xs config_default level ((0x2d ∷ 0x6c ∷ []) ∷ []),
)
