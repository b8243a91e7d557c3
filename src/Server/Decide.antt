-- ===== src/Server/Decide.antt =====
-- socket.c: `bind_socket_read` on any well-formed question whose aliases end, for any clean caches.
use post_dns.Base.{
  All-append, ℕ, ◌+◌, ◌≤◌, ◌<◌, ◌^◌, ◌≡◌, refl, ap, ◌∙◌, arith, List, [], ◌∷◌, ◌++◌, none, some,
  Option-cases, inl, inr, length, length-append, All, Returns,
}
use native.Mathlib.Decide.{ℕ_discrete}
use mathlib.Core.List.{head?}
use post_dns.Text.{Str}
use post_dns.HashTable.{HashTable}
use post_dns.HashTable.Invariant.{view, IsPlaced, IsValid}
use post_dns.Cache.{Ipv4Cache, Ipv6Cache, CnameCache}
use post_dns.Message.{Query, Message, type_a, type_cname, type_aaaa}
use post_dns.Message.Parse.{name_fuel}
use post_dns.Message.Labels.{IsName}
use post_dns.Message.Record.{IsRecord}
use post_dns.Message.Written.{IsMessage, message_bytes}
use post_dns.Server.{Server}
use post_dns.Server.Receive.{bind_socket_read}
use post_dns.Server.Aliases.{Leads, here, alias, alias_records, length-alias_records}
use post_dns.Server.Answers.{a_records, aaaa_records, length-a_records, length-aaaa_records}
use post_dns.Server.Send.{feature_bytes}
use post_dns.Server.Cached.{cached4, cached_alias, cached6, banned4}
use post_dns.Server.Ask.{no_address4, no_alias, no_address6}
use post_dns.Server.Verdict.{
  Verdict, asks, answers, refuses, empty, payload, Executes, bind_socket_read-Verdict,
}

-- The caches hold what a reply can carry, behind `n` aliases: names in well-formed labels, an address
-- at least for each IPv4 entry, and no more of them than a reply counts.
pub record AreClean {Addr : Type 0} (s : Server Addr) (n : ℕ) : Type 0 where
  pub named : (d : Str) (c : CnameCache) → view s.cname d ≡ some c → IsName c.name
  pub addressed :
      (d : Str) (c : Ipv4Cache) → view s.ipv4 d ≡ some c → (a : ℕ) × (head? c.node ≡ some a)
  pub words : (d : Str) (c : Ipv4Cache) → view s.ipv4 d ≡ some c → All (λ a. a < 2 ^ 32) c.node
  pub few4 : (d : Str) (c : Ipv4Cache) → view s.ipv4 d ≡ some c → n + length c.node < 2 ^ 16
  pub blocks : (d : Str) (c : Ipv6Cache) → view s.ipv6 d ≡ some c → All (λ b. length b ≡ 16) c.node
  pub few6 : (d : Str) (c : Ipv6Cache) → view s.ipv6 d ≡ some c → n + length c.node < 2 ^ 16
  pub few : n < 2 ^ 16

pub alias_records-IsRecord :
    {cname : HashTable CnameCache} {n : ℕ} {d d' : Str} (l : Leads cname n d d')
    → ((x : Str) (c : CnameCache) → view cname x ≡ some c → IsName c.name)
    → IsName d
    → All IsRecord (alias_records l) × IsName d'
unfolding alias_records
alias_records-IsRecord (here d) named h = (tt, h)
alias_records-IsRecord (alias d c n d' e l) named h =
    let target = named d c e in
    let (rest, last) = alias_records-IsRecord l named target in
    (
      (
        record {
          name = h;
          class = omega arith;
          ttl = omega arith;
          value = (refl, target);
          len = tt;
        },
        rest,
      ),
      last,
    )

pub a_records-IsRecord :
    (d : Str) (node : List ℕ)
    → IsName d
    → All (λ a. a < 2 ^ 32) node
    → All IsRecord (a_records d node)
a_records-IsRecord d [] h hs = tt
a_records-IsRecord d (a ∷ node) h (small, hs) = (
  record { name = h; class = omega arith; ttl = omega arith; value = (refl, small); len = refl },
  a_records-IsRecord d node h hs,
)

pub aaaa_records-IsRecord :
    (d : Str) (node : List (List ℕ))
    → IsName d
    → All (λ b. length b ≡ 16) node
    → All IsRecord (aaaa_records d node)
aaaa_records-IsRecord d [] h hs = tt
aaaa_records-IsRecord d (a ∷ node) h (size, hs) = (
  record { name = h; class = omega arith; ttl = omega arith; value = (refl, size); len = refl },
  aaaa_records-IsRecord d node h hs,
)

module _ {Addr : Type 0} (s : Server Addr) (q : Query) (n : ℕ) (d : Str) (clean : AreClean s n)
    (l : Leads s.cname n q.name d) (end : view s.cname d ≡ none) (name : IsName q.name) where
  unfoldable pub verdict4 : q.type ≡ type_a → Verdict s q n
  verdict4 t = elim (Option-cases (view s.ipv4 d)) [
    | inl z ↦ asks (no_address4 d l t end z)
    | inr (c, z) ↦
        let (a, first) = clean.addressed d c z in
        elim (ℕ_discrete a 0) [
          | yes e ↦ refuses (banned4 d l c t end z (first ∙ ap some e))
          | no some_address ↦
              let (good, last) = alias_records-IsRecord l clean.named name in
              answers (alias_records l ++ a_records d c.node)
                (cached4 d l c a t end z first some_address refl)
                (All-append IsRecord (alias_records l) (a_records d c.node) good
                  (a_records-IsRecord d c.node last (clean.words d c z)))
                (omega (
                  arith,
                  length-append (alias_records l) (a_records d c.node),
                  length-alias_records l,
                  length-a_records d c.node,
                  clean.few4 d c z,
                ))
        ]
  ]

  unfoldable pub verdict_alias : q.type ≡ type_cname → Verdict s q n
  verdict_alias t = elim (Option-cases (view s.cname q.name)) [
    | inl z ↦ asks (no_alias t z)
    | inr (c, z) ↦
        answers (alias_records l) (cached_alias d l c t end z refl)
          (alias_records-IsRecord l clean.named name).0
          (omega (arith, length-alias_records l, clean.few))
  ]

  unfoldable pub verdict6 : q.type ≡ type_aaaa → Verdict s q n
  verdict6 t = elim (Option-cases (view s.ipv6 d)) [
    | inl z ↦ asks (no_address6 d l t end z)
    | inr (c, z) ↦
        let (good, last) = alias_records-IsRecord l clean.named name in
        answers (alias_records l ++ aaaa_records d c.node) (cached6 d l c t end z refl)
          (All-append IsRecord (alias_records l) (aaaa_records d c.node) good
            (aaaa_records-IsRecord d c.node last (clean.blocks d c z)))
          (omega (
            arith,
            length-append (alias_records l) (aaaa_records d c.node),
            length-alias_records l,
            length-aaaa_records d c.node,
            clean.few6 d c z,
          ))
  ]

  -- What the callback does with the question.
  unfoldable pub verdict : Verdict s q n
  unfolding verdict4 verdict_alias verdict6
  verdict = elim (ℕ_discrete q.type type_a) [
    | yes t ↦ verdict4 t
    | no not4 ↦ elim (ℕ_discrete q.type type_cname) [
      | yes t ↦ verdict_alias t
      | no not_alias ↦ elim (ℕ_discrete q.type type_aaaa) [
        | yes t ↦ verdict6 t
        | no not6 ↦ empty not4 not_alias not6
      ]
    ]
  ]

module _ {Addr : Type 0} where
  -- Against a decision that is made on what the tables read: a client's well-formed message with one
  -- question, where the stored aliases lead from its name in `n` steps to one without an alias, the
  -- caches hold well-formed names and addresses, an address at least for each IPv4 entry and no more
  -- than a reply counts, the tables of clients and of IPv4 addresses are valid and the names of the
  -- other two caches are placed, nobody waits under the same question and identifier and the table
  -- of clients is below its limit, with fuel for the names and the aliases and room in the block.
  -- The callback returns and does what the decision says: it sends one datagram, which is the
  -- question to the upstream server if the caches lack an answer, a refusal if the first IPv4
  -- address is 0, the stored records if there are some, and an empty reply for another type; the
  -- client waits exactly if the question was sent on, all other clients wait as before, and no cache
  -- changes but for the mark `manual` of IPv4 entries.
  pub bind_socket_read-verdict :
      (s : Server Addr) (m : Message) (q : Query) (address : Addr) (n : ℕ) (d : Str)
      (h : IsMessage m q) (clean : AreClean s n) (l : Leads s.cname n q.name d)
      (end : view s.cname d ≡ none)
      → IsValid s.clients
      → IsValid s.ipv4
      → IsPlaced s.ipv6
      → IsPlaced s.cname
      → view s.clients (feature_bytes m q) ≡ none
      → s.clients.count < s.clients.threshold
      → (fuel : ℕ) (block rest : List ℕ) → name_fuel ≤ fuel
      → n < fuel
      → length (payload m (verdict s q n d clean l end h.query.name)) ≤ length block
      → Returns
          (bind_socket_read fuel block
            (length (message_bytes m q))
            (message_bytes m q ++ rest)
            address
            s)
          (Executes m address (verdict s q n d clean l end h.query.name))
  bind_socket_read-verdict s m q address n d h clean l end valid p4 p6 pc absent roomy fuel block
        rest enough far room =
      bind_socket_read-Verdict s m q address n h valid p4 p6 pc absent roomy
        (verdict s q n d clean l end h.query.name) fuel block rest enough far room
