-- ===== src/Examples/Running.antt =====
-- Tests of replies from the caches, of runs of the event loop, and of what is read at the start.
use post_dns.Base.{
  ◌&&◌, ◌==◌, none, out_of_fuel, inl, false, ℕ, zero, suc, ◌≤◌, ◌<◌, ◌≡◌, ◌≢◌, refl, arith, List,
  [], ◌∷◌, ◌++◌, false, Option, some, none, if◌then◌else◌, length, replicate, All, ok, fault, Fault,
  Returns,
}
use post_dns.Text.{Str, string_equal, string_split, string_dup}
use post_dns.Text.Murmur.{string_hash_code}
use post_dns.HashTable.{
  HashNode, null, cell, HashTable, index, hash_table_new, hash_table_put, replace, add_node, grow,
}
use post_dns.HashTable.Chain.{lookup, entries}
use post_dns.HashTable.Rows.{all_entries, bucket}
use post_dns.HashTable.Invariant.{view, IsValid}
use post_dns.HashTable.Put.{hash_table_new_lem}
use post_dns.Cache.{Ipv4Cache, Ipv6Cache, CnameCache}
use post_dns.Cache.Clear.{IsShort}
use post_dns.Cache.ReadFile.{fgets_lines, ipv4_read_file}
use post_dns.Cache.Lines.{has_pair, ipv4_read_file_lem}
use post_dns.Message.{ResourceRecord}
use post_dns.Message.Labels.{IsName, wire}
use post_dns.Message.Header.{header_bytes}
use post_dns.Message.Record.{IsRecord, record_bytes}
use post_dns.Message.Written.{message_bytes, answer_bytes}
use post_dns.Message.RoundTrip.{as_received}
use post_dns.Server.{Server, trimmed}
use post_dns.Server.Receive.{bind_socket_read}
use post_dns.Server.Answers.{a_records}
use post_dns.Server.Aliases.{Leads, here, alias, alias_records}
use post_dns.Server.Send.{feature_bytes}
use post_dns.Server.Ask.{IsMissing, no_address4, Asks, bind_socket_read-Asks}
use post_dns.Server.Cached.{cached4, banned4}
use post_dns.Server.Answered.{reply_of, Answered}
use post_dns.Server.Answer.{bind_socket_read-Answered, bind_socket_read_refuses}
use post_dns.Server.Forward.{AreValid}
use post_dns.Config.{started, helped, config_init, config_default}
use post_dns.Config.Options.{
  Setting, upstream_name, ipv4_config_file, logging_level, command_line, configured, leveled,
  config_init-command_line, config_init-last,
}
use post_dns.Main.{start, clear_callback, sigint_callback, sigint}
use post_dns.Main.Startup.{running, exits, main, has_entry, IsPlain, main_lem}
use post_dns.Server.Circle.{bind_socket_read_circle}
use post_dns.Main.Timer.{Expires, clear_callback_lem, sigint_callback_lem}
use post_dns.Main.Steps.{Event, from_client, handle, here, next, received, Came, IsProper}
use post_dns.Main.Replies.{Reaches-IsProper}
use post_dns.Main.Pinned.{ArePinned, Reaches-ArePinned}
use post_dns.Examples.{
  name_a, name_a-IsName, name_d, bucket_four, one, two, put-IsValid, one-IsValid, two-IsValid,
  empty-IsValid, request, question_a, request-IsMessage,
}

abbrev block : List ℕ
block = replicate 128 0xcc

-- An alias for the first name, and one address for the name it leads to.
abbrev leads_on : CnameCache
leads_on = record { name = name_d; ttl = 120; timestamp = 0; manual = false }

abbrev entry4 : ℕ → Ipv4Cache
entry4 a = record { node = a ∷ []; ttl = 120; timestamp = 0; manual = false }

abbrev held4 : ℕ → HashTable Ipv4Cache
held4 a = bucket_four (cell (some (name_d, entry4 a)) null) 1

held4-IsValid : (a : ℕ) → IsValid (held4 a)
unfolding hash_table_put hash_table_new index string_hash_code add_node replace grow
held4-IsValid a = put-IsValid hash_table_new (held4 a) name_d (entry4 a) empty-IsValid refl

abbrev server : ℕ → Server ℕ
server a = record {
  clients = hash_table_new;
  ipv4 = held4 a;
  ipv6 = hash_table_new;
  cname = one leads_on;
  sent = [];
}

alias_on : view (one leads_on) name_a ≡ some leads_on
unfolding view index string_hash_code lookup entries string_equal
alias_on = refl

alias_end : view (one leads_on) name_d ≡ none
unfolding view index string_hash_code lookup entries string_equal
alias_end = refl

held : (a : ℕ) → view (held4 a) name_d ≡ some (entry4 a)
unfolding view index string_hash_code lookup entries string_equal
held a = refl

abbrev led : Leads (one leads_on) 1 name_a name_d
led = alias name_a leads_on 0 name_d alias_on (here name_d)

abbrev answers : List ResourceRecord
answers = alias_records led ++ a_records name_d (7 ∷ [])

name_d-IsName : IsName name_d
unfolding string_split
name_d-IsName = record {
  labels = (((omega arith, omega arith, ((λ e. omega (arith, e)), tt)), tt));
  short = omega arith;
}

answers-IsRecord : All IsRecord answers
unfolding alias_records string_dup
answers-IsRecord = (
  record {
    name = name_a-IsName;
    class = omega arith;
    ttl = omega arith;
    value = (refl, name_d-IsName);
    len = tt;
  },
  (
    record {
      name = name_d-IsName;
      class = omega arith;
      ttl = omega arith;
      value = (refl, omega arith);
      len = refl;
    },
    tt,
  ),
)

nobody_waits : view (hash_table_new {V = ℕ}) (feature_bytes request question_a) ≡ none
nobody_waits = hash_table_new_lem.1 (feature_bytes request question_a)

few_clients : (hash_table_new {V = ℕ}).count < (hash_table_new {V = ℕ}).threshold
unfolding hash_table_new
few_clients = omega arith

few_answers : length answers < 0x1_0000
unfolding alias_records
few_answers = omega arith

reply_room :
    length (message_bytes (reply_of request question_a 0 answers) question_a) ≤ length block
unfolding header_bytes wire string_split answer_bytes record_bytes alias_records string_dup
reply_room = omega arith

refusal_room : length (message_bytes (reply_of request question_a 3 []) question_a) ≤ length block
unfolding header_bytes wire string_split answer_bytes record_bytes
refusal_room = omega arith

bind_socket_read-Answered_example :
    Returns
      (bind_socket_read 300 block
        (length (message_bytes request question_a))
        (message_bytes request question_a ++ 7 ∷ [])
        42
        (server 7))
      (Answered (server 7) (message_bytes (reply_of request question_a 0 answers) question_a) 42)
bind_socket_read-Answered_example =
    bind_socket_read-Answered (server 7) request question_a 42 1 answers request-IsMessage
      (cached4 name_d led (entry4 7) 7 refl alias_end (held 7) refl (λ e. omega (arith, e)) refl)
      answers-IsRecord few_answers empty-IsValid (held4-IsValid 7)
      (empty-IsValid {V = Ipv6Cache}).placed (one-IsValid leads_on).placed nobody_waits few_clients
      300 block (7 ∷ []) (omega arith) (omega arith) reply_room

bind_socket_read_refuses_example :
    Returns
      (bind_socket_read 300 block
        (length (message_bytes request question_a))
        (message_bytes request question_a ++ 7 ∷ [])
        42
        (server 0))
      (Answered (server 0) (message_bytes (reply_of request question_a 3 []) question_a) 42)
bind_socket_read_refuses_example =
    bind_socket_read_refuses (server 0) request question_a 42 1 request-IsMessage
      (banned4 name_d led (entry4 0) refl alias_end (held 0) refl) empty-IsValid (held4-IsValid 0)
      (empty-IsValid {V = Ipv6Cache}).placed (one-IsValid leads_on).placed nobody_waits few_clients
      300 block (7 ∷ []) (omega arith) (omega arith) refusal_room

-- One datagram that arrives at the start.
request_room : length (message_bytes (trimmed (as_received request)) question_a) ≤ length block
unfolding header_bytes wire string_split answer_bytes record_bytes
request_room = omega arith

missing : IsMissing (start {Addr = ℕ}) question_a 0
unfolding start
missing =
    no_address4 name_a (here name_a) refl (hash_table_new_lem.1 name_a)
      (hash_table_new_lem.1 name_a)

abbrev client : ℕ
client = 42

abbrev event : Event ℕ
event =
    from_client 42 (message_bytes request question_a ++ 7 ∷ [])
      (length (message_bytes request question_a)) block

asked :
    Returns
      (bind_socket_read 300 block
        (length (message_bytes request question_a))
        (message_bytes request question_a ++ 7 ∷ [])
        client
        start)
      (Asks start request question_a client)
unfolding start
asked =
    bind_socket_read-Asks start request question_a 42 request-IsMessage empty-IsValid
      (empty-IsValid {V = Ipv4Cache}).placed (empty-IsValid {V = Ipv6Cache}).placed
      (empty-IsValid {V = CnameCache}).placed 0 missing 300 block (7 ∷ []) (omega arith)
      (omega arith) request_room

handled : handle 300 event start ≡ ok asked.0
unfolding handle
handled = asked.1

Reaches-IsProper_example :
    All (IsProper (Came 300 (event ∷ []))) asked.0.sent
    × (length asked.0.sent ≤ received (event ∷ []))
Reaches-IsProper_example =
    Reaches-IsProper 300 (event ∷ []) asked.0
      (next start asked.0 asked.0 event [] handled (here asked.0))

Reaches-ArePinned_example : ArePinned asked.0
Reaches-ArePinned_example =
    Reaches-ArePinned 300 (event ∷ []) asked.0
      (next start asked.0 asked.0 event [] handled (here asked.0))

-- Two entries that expire in one bucket.
abbrev expiring : Server ℕ
expiring = record (server 7) { ipv4 = two (entry4 7) }

expiring-AreValid : AreValid expiring
expiring-AreValid = record {
  clients = empty-IsValid;
  ipv4 = two-IsValid (entry4 7);
  ipv6 = empty-IsValid;
  cname = one-IsValid leads_on;
}

all_short :
    {V : Type 0} (nodes : List (HashNode V)) (i : ℕ)
    → All (λ b. length (entries b) ≤ 2) nodes
    → length (bucket nodes i) ≤ 2
unfolding entries
all_short [] i h = omega arith
all_short (b ∷ nodes) zero h = h.0
all_short (b ∷ nodes) (suc i) h = all_short nodes i h.1

two-IsShort : IsShort (two (entry4 7))
unfolding entries
two-IsShort i = all_short (two (entry4 7)).table i (
  omega arith,
  (
    omega arith,
    (omega arith, (omega arith, (omega arith, (omega arith, (omega arith, (omega arith, tt)))))),
  ),
)

empty-IsShort : IsShort (hash_table_new {V = Ipv6Cache})
unfolding entries hash_table_new
empty-IsShort i = all_short (hash_table_new {V = Ipv6Cache}).table i (
  omega arith,
  (
    omega arith,
    (omega arith, (omega arith, (omega arith, (omega arith, (omega arith, (omega arith, tt)))))),
  ),
)

clear_callback_lem_example : Returns (clear_callback 1000 expiring) (Expires 1000 expiring)
clear_callback_lem_example =
    clear_callback_lem 1000 expiring expiring-AreValid two-IsShort empty-IsShort

abbrev settings : List Setting
settings = upstream_name name_a ∷ logging_level 2 (omega arith) ∷ upstream_name name_d ∷ []

config_init-command_line_example :
    config_init 1 (name_a ∷ command_line settings)
    ≡ ok (started (configured settings config_default) (leveled settings 1))
config_init-command_line_example = config_init-command_line 1 name_a settings

config_init-last_example :
    ((rest : List Str)
      → config_init 1 (name_a ∷ command_line settings ++ (0x2d ∷ 0x68 ∷ []) ∷ rest) ≡ ok helped)
    × (config_init 1 (name_a ∷ command_line settings ++ (0x2d ∷ 0x6c ∷ []) ∷ [])
        ≡ fault Fault.null_pointer)
config_init-last_example = config_init-last 1 name_a settings

-- Every file has the one line `a d`.
abbrev contents : Str → Option (List ℕ)
contents name = some (b'a' ∷ b' ' ∷ b'd' ∷ 0x0a ∷ [])

ipv4_read_file_lem_example :
    (ipv4_read_file (λ s. length s) 0xcc 1000 contents none (held4 7) ≡ ok (held4 7))
    × ((name : Str)
        → contents name ≡ none
        → ipv4_read_file (λ s. length s) 0xcc 1000 contents (some name) (held4 7) ≡ ok (held4 7))
    × ((name : Str) (bytes : List ℕ)
        → contents name ≡ some bytes
        → All (λ c. c ≢ 0) bytes
        → ipv4_read_file (λ s. length s) 0xcc 1000 contents (some name) (held4 7) ≡ (
            if has_pair (fgets_lines 1023 [] bytes)
            then fault Fault.out_of_bounds
            else ok (held4 7)))
ipv4_read_file_lem_example = ipv4_read_file_lem (λ s. length s) 0xcc 1000 contents (held4 7)

sigint_callback_lem_example :
    (sigint_callback sigint expiring
      ≡ ok (
          some (record {
            clients = all_entries expiring.clients.table;
            ipv4 = all_entries expiring.ipv4.table;
            ipv6 = all_entries expiring.ipv6.table;
            cname = all_entries expiring.cname.table;
          })))
    × ((signum : ℕ) → signum ≢ sigint → sigint_callback signum expiring ≡ ok none)
sigint_callback_lem_example = sigint_callback_lem expiring expiring-AreValid

contents-IsPlain : IsPlain contents (some name_a)
contents-IsPlain = λ bytes e.
    let same_bytes : b'a' ∷ b' ' ∷ b'd' ∷ 0x0a ∷ [] ≡ bytes = cc in
    rw (← same_bytes) (
      (λ z. omega (arith, z)),
      ((λ z. omega (arith, z)), ((λ z. omega (arith, z)), ((λ z. omega (arith, z)), tt))),
    )

abbrev with_file : List Setting
with_file = upstream_name name_d ∷ ipv4_config_file name_a ∷ []

file-IsPlain : IsPlain contents (configured with_file config_default).ipv4_config_file
unfolding configured
file-IsPlain = contents-IsPlain

main_lem_example :
    main {Addr = ℕ} (λ s. length s) 0xcc 1000 contents 0 0 1 (name_a ∷ command_line with_file) ≡ (
      if 0 == 0 && 0 == 0
      then (if has_entry contents (configured with_file config_default).ipv4_config_file
          then fault Fault.out_of_bounds
          else ok (
              running start
                (configured with_file config_default).upstream_name
                (leveled with_file 1)))
      else ok exits)
main_lem_example =
    main_lem {Addr = ℕ} (λ s. length s) 0xcc 1000 contents 0 0 1 name_a with_file file-IsPlain

-- An alias that leads back to its own name.
abbrev leads_back : CnameCache
leads_back = record { name = name_a; ttl = 120; timestamp = 0; manual = false }

abbrev circling : Server ℕ
circling = record (server 7) { cname = one leads_back }

alias_back : view (one leads_back) name_a ≡ some leads_back
unfolding view index string_hash_code lookup entries string_equal
alias_back = refl

bind_socket_read_circle_example :
    bind_socket_read 300 block
      (length (message_bytes request question_a))
      (message_bytes request question_a ++ 7 ∷ [])
      client
      circling
    ≡ out_of_fuel
bind_socket_read_circle_example =
    bind_socket_read_circle circling request question_a client 0 0 name_a request-IsMessage
      (inl refl) empty-IsValid (one-IsValid leads_back).placed (here name_a)
      (alias name_a leads_back 0 name_a alias_back (here name_a)) 300 block (7 ∷ []) (omega arith)
