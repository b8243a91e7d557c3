-- ===== src/Main/Startup.antt =====
-- main.c and socket.c: `main` up to the event loop, with `socket_init`.
-- The results of the two calls of `uv_udp_bind` are parameters, and so are those of `ipv4_read_file`. The
-- upstream server's address is what `uv_ip4_addr` makes of its name, which no theorem needs.
use post_dns.Base.{
  ◌&&◌, ℕ, ◌≡◌, ◌≢◌, refl, ap, ◌∙◌, List, [], ◌∷◌, Bool, true, false, ◌==◌, Option, none, some,
  Bool-cases, Option-cases, inl, inr, if◌then◌else◌, All, Run, ok, fault, Fault, ◌>>=◌, bind_ok,
}
use post_dns.Text.{Str}
use post_dns.HashTable.{HashTable, hash_table_new}
use post_dns.Cache.{Ipv4Cache}
use post_dns.Cache.ReadFile.{fgets_lines, ipv4_read_file}
use post_dns.Cache.Lines.{has_pair, ipv4_read_file_lem}
use post_dns.Config.{DnsConfig, started, helped, config_init, config_default}
use post_dns.Config.Options.{Setting, command_line, configured, leveled, config_init-command_line}
use post_dns.Server.{Server}
use post_dns.Main.{start}

-- The event loop runs with these tables, this name of the upstream server and this level of the log, or
-- the process has ended.
pub data Launch (Addr : Type 0) : Type 0 where
  running : Server Addr → Option Str → ℕ → Launch Addr
  exits : Launch Addr

-- Whether `socket_init` returns: it ends the process when a port cannot be bound.
unfoldable pub socket_init : ℕ → ℕ → Bool
socket_init bind_result query_result =
    if bind_result == 0 then (if query_result == 0 then true else false) else false

-- Both ports have to be bound.
socket_init_lem :
    (bind_result query_result : ℕ)
    → socket_init bind_result query_result ≡ (bind_result == 0 && query_result == 0)
unfolding socket_init
socket_init_lem bind_result query_result = elim (Bool-cases (bind_result == 0)) [
  | inl z ↦ elim (Bool-cases (query_result == 0)) [
    | inl y ↦ rw (z, y) refl
    | inr y ↦ rw (z, y) refl
  ]
  | inr z ↦ rw z refl
]

module _ (contents : Str → Option (List ℕ)) where
  -- Whether some line of the file, if there is one, has two pieces.
  unfoldable pub has_entry : Option Str → Bool
  has_entry none = false
  has_entry (some name) = elim (contents name) [
    | none ↦ false
    | some bytes ↦ has_pair (fgets_lines 1023 [] bytes)
  ]

  -- The file, if there is one, has no NUL.
  abbrev pub IsPlain : Option Str → Type 0
  IsPlain none = Unit
  IsPlain (some name) = (bytes : List ℕ) → contents name ≡ some bytes → All (λ c. c ≢ 0) bytes

  read_lem :
      (uv_ip4_addr : List ℕ → ℕ) (junk now : ℕ) (file : Option Str) (table : HashTable Ipv4Cache)
      → IsPlain file
      → ipv4_read_file uv_ip4_addr junk now contents file table
        ≡ (if has_entry file then fault Fault.out_of_bounds else ok table)
  unfolding has_entry
  read_lem uv_ip4_addr junk now none table plain =
      (ipv4_read_file_lem uv_ip4_addr junk now contents table).0
  read_lem uv_ip4_addr junk now (some name) table plain = elim (Option-cases (contents name)) [
    | inl z ↦
        (ipv4_read_file_lem uv_ip4_addr junk now contents table).1 name z ∙ rw (has_entry, z) refl
    | inr (bytes, z) ↦
        (ipv4_read_file_lem uv_ip4_addr junk now contents table).2 name bytes z (plain bytes z)
        ∙ rw (has_entry, z) refl
  ]

module _ {Addr : Type 0} (uv_ip4_addr : List ℕ → ℕ) (junk now : ℕ)
    (contents : Str → Option (List ℕ)) where
  -- The file is read into the fresh table, and then the loop runs.
  unfoldable pub fill_tables : DnsConfig → ℕ → Run (Launch Addr)
  fill_tables config level = do
    ipv4 ← ipv4_read_file uv_ip4_addr junk now contents config.ipv4_config_file hash_table_new
    ok (running (record start { ipv4 = ipv4 }) config.upstream_name level)

  unfoldable pub main : ℕ → ℕ → ℕ → List Str → Run (Launch Addr)
  unfolding fill_tables
  main bind_result query_result level argv = do
    startup ← config_init level argv
    elim startup [
      | helped ↦ ok exits
      | started config level' ↦
          if socket_init bind_result query_result then fill_tables config level' else ok exits
    ]

  fill_tables_lem :
      (config : DnsConfig) (level : ℕ)
      → IsPlain contents config.ipv4_config_file
      → fill_tables config level ≡ (
          if has_entry contents config.ipv4_config_file
          then fault Fault.out_of_bounds
          else ok (running start config.upstream_name level))
  unfolding fill_tables start
  fill_tables_lem config level plain =
      let read =
        read_lem contents uv_ip4_addr junk now config.ipv4_config_file hash_table_new plain in
      elim (Bool-cases (has_entry contents config.ipv4_config_file)) [
        | inl z ↦ rw (read, z) refl
        | inr z ↦ rw (read, z) refl
      ]

  -- On a command line of options with their arguments, where the IPv4 configuration file, if one is
  -- named and opens, has no NUL: if one of the two ports cannot be bound, that is, if `uv_udp_bind`
  -- does not return 0 for it, the process ends; else, if some line of the file, less its last byte,
  -- has two pieces, the reading of the file ends in a write outside of an array; else the event loop
  -- starts with four empty tables and with the name of the upstream server and the level of the log
  -- that the options ask for.
  pub main_lem :
      (bind_result query_result level : ℕ) (program : Str) (xs : List Setting)
      → IsPlain contents (configured xs config_default).ipv4_config_file
      → main bind_result query_result level (program ∷ command_line xs) ≡ (
          if bind_result == 0 && query_result == 0
          then (if has_entry contents (configured xs config_default).ipv4_config_file
              then fault Fault.out_of_bounds
              else ok
                  (running start (configured xs config_default).upstream_name (leveled xs level)))
          else ok exits)
  unfolding main
  main_lem bind_result query_result level program xs plain =
      let read = config_init-command_line level program xs in
      let filled = fill_tables_lem (configured xs config_default) (leveled xs level) plain in
      bind_ok _ _ read (
        rw (socket_init_lem bind_result query_result)
          (ap (λ r. if bind_result == 0 && query_result == 0 then r else ok exits) filled))
