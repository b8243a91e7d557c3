-- ===== src/Server/Collect.antt =====
-- socket.c: what `query_socket_read` collects from the answers of the upstream server.
use post_dns.Base.{
  ℕ, suc, ◌≡◌, refl, sym, ap, ◌∙◌, arith, List, [], ◌∷◌, ◌++◌, append_assoc, append-nil, false,
  if◌then◌else◌, Option, some, length, drop, All, Returns, from_option, Fault, bind_ok,
  get_elem?-drop, drop_next,
}
use post_dns.Text.{Str, string_dup}
use post_dns.HashTable.Chain.{same}
use post_dns.HashTable.Invariant.{view, IsValid}
use post_dns.HashTable.Put.{hash_table_put_lem}
use post_dns.Cache.{CnameCache, cname_cache_put, cname_entry}
use post_dns.Message.{ResponseData, address4, domain, address6, unset, ResourceRecord}
use post_dns.Message.Record.{IsRecord, IsData}
use post_dns.Server.Receive.{
  Collected, collect_answer, collect_answers, collect_a, collect_cname, collect_aaaa,
}

-- The addresses of the records, in order.
unfoldable pub addresses4 : List ResourceRecord → List ℕ
addresses4 [] = []
addresses4 (r ∷ rs) = elim (r.response_data) [ address4 a ↦ a ∷ addresses4 rs | _ ↦ addresses4 rs ]

unfoldable pub addresses6 : List ResourceRecord → List (List ℕ)
addresses6 [] = []
addresses6 (r ∷ rs) = elim (r.response_data) [ address6 a ↦ a ∷ addresses6 rs | _ ↦ addresses6 rs ]

-- The name of the last record with an address, if there is one.
unfoldable pub name4 : Option Str → List ResourceRecord → Option Str
name4 o [] = o
name4 o (r ∷ rs) = elim (r.response_data) [ address4 a ↦ name4 (some r.name) rs | _ ↦ name4 o rs ]

unfoldable pub name6 : Option Str → List ResourceRecord → Option Str
name6 o [] = o
name6 o (r ∷ rs) = elim (r.response_data) [ address6 a ↦ name6 (some r.name) rs | _ ↦ name6 o rs ]

-- What the table of aliases holds for a domain after the records, from what it held before.
unfoldable pub aliases : ℕ → Str → List ResourceRecord → Option CnameCache → Option CnameCache
aliases now d [] held = held
aliases now d (r ∷ rs) held = elim (r.response_data) [
  | domain x ↦ aliases now d rs (
      if same r.name d
      then some (record { name = x; ttl = 120; timestamp = now; manual = false })
      else held)
  | _ ↦ aliases now d rs held
]

pub record Gathers (now : ℕ) (rs : List ResourceRecord) (c : Collected) (c' : Collected)
    : Type 0 where
  pub valid : IsValid c'.cname
  pub nodes4 : c'.ipv4_node ≡ c.ipv4_node ++ addresses4 rs
  pub nodes6 : c'.ipv6_node ≡ c.ipv6_node ++ addresses6 rs
  pub domain4 : c'.ipv4_domain ≡ name4 c.ipv4_domain rs
  pub domain6 : c'.ipv6_domain ≡ name6 c.ipv6_domain rs
  pub aliased : (d : Str) → view c'.cname d ≡ aliases now d rs (view c.cname d)

-- One record, by what its data is.
gather_one :
    (value : ResponseData) (now : ℕ) (r : ResourceRecord) (c : Collected)
    → r.response_data ≡ value
    → IsData r.type value
    → IsValid c.cname
    → Returns (collect_answer now r c) (Gathers now (r ∷ []) c)
unfolding collect_answer collect_a collect_cname collect_aaaa addresses4 addresses6 name4 name6
    aliases cname_cache_put string_dup
gather_one (address4 a) now r c e h valid = (
  record c { ipv4_domain = some r.name; ipv4_node = c.ipv4_node ++ a ∷ [] },
  rw (h.0, e) refl,
  record {
    valid = valid;
    nodes4 = rw e refl;
    nodes6 = rw e (sym (append-nil c.ipv6_node));
    domain4 = rw e refl;
    domain6 = rw e refl;
    aliased = λ d. rw e refl;
  },
)
gather_one (domain d) now r c e h valid =
    let entry : CnameCache = record { name = d; ttl = 120; timestamp = now; manual = false } in
    let (cname, run, (valid', stores)) =
      hash_table_put_lem c.cname r.name (cname_entry now entry) valid in
    (
      record c { cname = cname },
      rw (h.0, e) (bind_ok _ _ run refl),
      record {
        valid = valid';
        nodes4 = rw e (sym (append-nil c.ipv4_node));
        nodes6 = rw e (sym (append-nil c.ipv6_node));
        domain4 = rw e refl;
        domain6 = rw e refl;
        aliased = λ d'. rw e (stores d');
      },
    )
gather_one (address6 a) now r c e h valid = (
  record c { ipv6_domain = some r.name; ipv6_node = c.ipv6_node ++ a ∷ [] },
  rw (h.0, e) refl,
  record {
    valid = valid;
    nodes4 = rw e (sym (append-nil c.ipv4_node));
    nodes6 = rw e refl;
    domain4 = rw e refl;
    domain6 = rw e refl;
    aliased = λ d. rw e refl;
  },
)
gather_one unset now r c e h valid = absurd h

addresses4-∷ :
    (value : ResponseData) (r : ResourceRecord) (rs : List ResourceRecord)
    → r.response_data ≡ value
    → addresses4 (r ∷ rs) ≡ addresses4 (r ∷ []) ++ addresses4 rs
unfolding addresses4
addresses4-∷ (address4 a) r rs e = rw e refl
addresses4-∷ (domain d) r rs e = rw e refl
addresses4-∷ (address6 a) r rs e = rw e refl
addresses4-∷ unset r rs e = rw e refl

addresses6-∷ :
    (value : ResponseData) (r : ResourceRecord) (rs : List ResourceRecord)
    → r.response_data ≡ value
    → addresses6 (r ∷ rs) ≡ addresses6 (r ∷ []) ++ addresses6 rs
unfolding addresses6
addresses6-∷ (address4 a) r rs e = rw e refl
addresses6-∷ (domain d) r rs e = rw e refl
addresses6-∷ (address6 a) r rs e = rw e refl
addresses6-∷ unset r rs e = rw e refl

name-∷ :
    (value : ResponseData) (o o' : Option Str) (r : ResourceRecord) (rs : List ResourceRecord)
    → r.response_data ≡ value
    → (name4 o (r ∷ rs) ≡ name4 (name4 o (r ∷ [])) rs)
      × (name6 o' (r ∷ rs) ≡ name6 (name6 o' (r ∷ [])) rs)
unfolding name4 name6
name-∷ (address4 a) o o' r rs e = (rw e refl, rw e refl)
name-∷ (domain d) o o' r rs e = (rw e refl, rw e refl)
name-∷ (address6 a) o o' r rs e = (rw e refl, rw e refl)
name-∷ unset o o' r rs e = (rw e refl, rw e refl)

aliases-∷ :
    (value : ResponseData) (now : ℕ) (d : Str) (held : Option CnameCache) (r : ResourceRecord)
    (rs : List ResourceRecord)
    → r.response_data ≡ value
    → aliases now d (r ∷ rs) held ≡ aliases now d rs (aliases now d (r ∷ []) held)
unfolding aliases
aliases-∷ (address4 a) now d held r rs e = rw e refl
aliases-∷ (domain x) now d held r rs e = rw e refl
aliases-∷ (address6 a) now d held r rs e = rw e refl
aliases-∷ unset now d held r rs e = rw e refl

-- Over well-formed records, and with a valid table of aliases, the loop of `query_socket_read` ends
-- without a fault; it has appended the IPv4 and the IPv6 addresses of the records in order, its two
-- domains are the names of the last record with such an address, and the table of aliases is valid,
-- holds the last alias of each name, stamped with the time, and reads as before for the others.
pub collect_answers-Gathers :
    (now : ℕ) (rs : List ResourceRecord) (i : ℕ) (base : List ResourceRecord) (c : Collected)
    → All IsRecord rs
    → drop i base ≡ rs
    → IsValid c.cname
    → Returns (collect_answers now base i (length rs) c) (Gathers now rs c)
unfolding collect_answers addresses4 addresses6 name4 name6 aliases
collect_answers-Gathers now [] i base c h d valid = (
  c,
  refl,
  record {
    valid = valid;
    nodes4 = sym (append-nil c.ipv4_node);
    nodes6 = sym (append-nil c.ipv6_node);
    domain4 = refl;
    domain6 = refl;
    aliased = λ d. refl;
  },
)
collect_answers-Gathers now (r ∷ rs) i base c (h, hs) d valid =
    let v = r.response_data in
    let (c₁, run₁, g₁) = gather_one v now r c refl h.value valid in
    let (c₂, run₂, g₂) =
      collect_answers-Gathers now rs (suc i) base c₁ hs (drop_next i base r rs d) g₁.valid in
    let (n4, n6) = name-∷ v c.ipv4_domain c.ipv6_domain r rs refl in
    (
      c₂,
      bind_ok _ _ (ap (from_option Fault.out_of_bounds) (get_elem?-drop i base r rs d)) (
          bind_ok _ _ run₁
            (ap (λ (j : ℕ). collect_answers now base j (length rs) c₁) (omega arith) ∙ run₂)),
      record {
        valid = g₂.valid;
        nodes4 =
            g₂.nodes4
            ∙ ap (λ (x : List ℕ). x ++ addresses4 rs) g₁.nodes4
            ∙ append_assoc c.ipv4_node (addresses4 (r ∷ [])) (addresses4 rs)
            ∙ ap (λ (x : List ℕ). c.ipv4_node ++ x) (sym (addresses4-∷ v r rs refl));
        nodes6 =
            g₂.nodes6
            ∙ ap (λ (x : List (List ℕ)). x ++ addresses6 rs) g₁.nodes6
            ∙ append_assoc c.ipv6_node (addresses6 (r ∷ [])) (addresses6 rs)
            ∙ ap (λ (x : List (List ℕ)). c.ipv6_node ++ x) (sym (addresses6-∷ v r rs refl));
        domain4 = g₂.domain4 ∙ ap (λ (o : Option Str). name4 o rs) g₁.domain4 ∙ sym n4;
        domain6 = g₂.domain6 ∙ ap (λ (o : Option Str). name6 o rs) g₁.domain6 ∙ sym n6;
        aliased = λ d'.
            g₂.aliased d'
            ∙ ap (λ (o : Option CnameCache). aliases now d' rs o) (g₁.aliased d')
            ∙ sym (aliases-∷ v now d' (view c.cname d') r rs refl);
      },
    )
