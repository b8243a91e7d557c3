-- ===== src/Server/Answers.antt =====
-- socket.c: the IPv4 addresses of one name in both loops of `bind_socket_read`.
use post_dns.Base.{
  ℕ, suc, ◌+◌, ◌≤◌, ◌≡◌, refl, sym, ap, ◌∙◌, arith, List, [], ◌∷◌, Bool, true, false, Option, none,
  some, Bool-cases, Option-cases, if◌then◌else◌, length, Run, ok, Fault, Returns, ◌>>=◌,
  from_option, >>=-eq-ok, bind_ok, ◌==◌, inl, inr,
}
use mathlib.Core.List.{head?}
use post_dns.Text.{Str}
use post_dns.Text.Equal.{string_equal_iff}
use post_dns.HashTable.{HashTable, write_through}
use post_dns.HashTable.Chain.{same}
use post_dns.HashTable.Invariant.{view, IsPlaced, IsValid}
use post_dns.HashTable.Put.{hash_table_get-view, write_through_lem, Stores}
use post_dns.Cache.{Ipv4Cache, ipv4_cache_get}
use post_dns.Message.{ResourceRecord}
use post_dns.Server.Lookup.{Progress}
use post_dns.Server.Reply.{answer_ipv4, ipv4_responses, ipv6_responses}
use mathlib.Core.List.{map}
use post_dns.Server.{generate_ipv4_response, generate_ipv6_response}
use post_dns.Text.{Str, string_dup}
use post_dns.Message.{ResourceRecord, address4, address6}
use post_dns.Server.Agreement.{push_answers_lem}

abbrev pub nodes : Option Ipv4Cache → Option (List ℕ)
nodes none = none
nodes (some c) = some c.node

-- The two tables hold the same addresses: they may differ in `manual`.
abbrev pub SameNodes : HashTable Ipv4Cache → HashTable Ipv4Cache → Type 0
SameNodes t t' = (q : Str) → nodes (view t' q) ≡ nodes (view t q)

-- What the first loop did from `k` answers on, and `run` does with the same caches.
pub record Agrees (ipv4 : HashTable Ipv4Cache) (banned : Bool) (k : ℕ)
    (run : HashTable Ipv4Cache → ℕ → List ResourceRecord → Run (List ResourceRecord)) (p : Progress)
    : Type 0 where
  pub valid : IsValid p.ipv4
  pub same_nodes : SameNodes ipv4 p.ipv4
  pub allowed : banned ≡ false
  pub grows : k ≤ p.answer_count
  pub writes :
      (table : HashTable Ipv4Cache)
      → IsPlaced table
      → SameNodes ipv4 table
      → (limit : ℕ) (answers : List ResourceRecord) → length answers ≡ k
      → p.answer_count ≤ limit
      → Returns (run table limit answers) λ answers'. length answers' ≡ p.answer_count

pub ok-injective {ℓ} : {A : Type ℓ} {a b : A} → ok a ≡ ok b → a ≡ b
ok-injective h = cc

-- The record that tells an address.
abbrev pub a_record : Str → ℕ → ResourceRecord
a_record name address = record {
  name = name;
  type = 1;
  class = 1;
  ttl = 120;
  response_data_length = 4;
  response_data = address4 address;
}

abbrev pub aaaa_record : Str → List ℕ → ResourceRecord
aaaa_record name address = record {
  name = name;
  type = 28;
  class = 1;
  ttl = 120;
  response_data_length = 16;
  response_data = address6 address;
}

abbrev pub a_records : Str → List ℕ → List ResourceRecord
a_records d node = map (a_record d) node

abbrev pub aaaa_records : Str → List (List ℕ) → List ResourceRecord
aaaa_records d node = map (aaaa_record d) node

pub ipv4_responses-a_records : (d : Str) (node : List ℕ) → ipv4_responses d node ≡ a_records d node
unfolding ipv4_responses generate_ipv4_response string_dup
ipv4_responses-a_records d [] = refl
ipv4_responses-a_records d (a ∷ node) =
    ap (λ rs. a_record d a ∷ rs) (ipv4_responses-a_records d node)

pub ipv6_responses-aaaa_records :
    (d : Str) (node : List (List ℕ)) → ipv6_responses d node ≡ aaaa_records d node
unfolding ipv6_responses generate_ipv6_response string_dup
ipv6_responses-aaaa_records d [] = refl
ipv6_responses-aaaa_records d (a ∷ node) =
    ap (λ rs. aaaa_record d a ∷ rs) (ipv6_responses-aaaa_records d node)

pub length-a_records : (d : Str) (node : List ℕ) → length (a_records d node) ≡ length node
length-a_records d [] = refl
length-a_records d (a ∷ node) = ap suc (length-a_records d node)

pub length-aaaa_records :
    (d : Str) (node : List (List ℕ)) → length (aaaa_records d node) ≡ length node
length-aaaa_records d [] = refl
length-aaaa_records d (a ∷ node) = ap suc (length-aaaa_records d node)

pub length-ipv4_responses : (d : Str) (node : List ℕ) → length (ipv4_responses d node) ≡ length node
unfolding ipv4_responses
length-ipv4_responses d [] = refl
length-ipv4_responses d (a ∷ node) = ap suc (length-ipv4_responses d node)

pub length-ipv6_responses :
    (d : Str) (node : List (List ℕ)) → length (ipv6_responses d node) ≡ length node
unfolding ipv6_responses
length-ipv6_responses d [] = refl
length-ipv6_responses d (a ∷ node) = ap suc (length-ipv6_responses d node)

-- A new value of `manual` changes no address.
pub stored-SameNodes :
    (t t' : HashTable Ipv4Cache) (d : Str) (c : Ipv4Cache) (b : Bool)
    → view t d ≡ some c
    → Stores t d (record c { manual = b }) t'
    → SameNodes t t'
stored-SameNodes t t' d c b e stores q = elim (Bool-cases (same d q)) [
  | inl s ↦ let q_is_d : d ≡ q = (string_equal_iff d q).0 s in rw (stores q, s, ← q_is_d, e) refl
  | inr s ↦ rw (stores q, s) refl
]

-- The addresses of a name are written from any table that holds the same ones.
answer_ipv4_lem :
    (table : HashTable Ipv4Cache) (limit : ℕ) (d : Str) (answers : List ResourceRecord)
    (node : List ℕ)
    → IsPlaced table
    → nodes (view table d) ≡ some node
    → length answers + length node ≤ limit
    → Returns
        (answer_ipv4 table limit d answers)
        λ answers'. length answers' ≡ length answers + length node
unfolding answer_ipv4 ipv4_cache_get
answer_ipv4_lem table limit d answers node placed e room = elim (Option-cases (view table d)) [
  | inl z ↦ absurd (cc)
  | inr (c, z) ↦
      let c_node : c.node ≡ node = cc in
      let size = length-ipv4_responses d c.node in
      let same_size = ap length c_node in
      let (answers', run, sum) =
        push_answers_lem limit (ipv4_responses d c.node) answers (omega (arith, size, same_size)) in
      (
        answers',
        bind_ok _ _ (hash_table_get-view placed d) (rw z run),
        omega (arith, sum, size, same_size),
      )
]

module _ (p : Progress) (d : Str) (k : ℕ) where
  -- What `count_ipv4` does with what the cache holds.
  abbrev pub counted_ipv4 : HashTable Ipv4Cache → List ℕ → Bool → Progress
  counted_ipv4 ipv4 node true = record p { ipv4 = ipv4; answer_count = k; banned = true }
  counted_ipv4 ipv4 node false = record p { ipv4 = ipv4; answer_count = k + length node }

  abbrev pub ipv4_step : Option Ipv4Cache → Run Progress
  ipv4_step none = ok (record p { answer_count = k; cached = false })
  ipv4_step (some cache) = do
    address ← from_option Fault.null_pointer (head? cache.node)
    ipv4' ← write_through p.ipv4 d (record cache { manual = address == 0 })
    ok (
        if address == 0
        then record p { ipv4 = ipv4'; answer_count = k; banned = true }
        else record p { ipv4 = ipv4'; answer_count = k + length cache.node })

  finish-counted :
      (ipv4 : HashTable Ipv4Cache) (node : List ℕ) (address : ℕ) (b : Bool)
      → (address == 0) ≡ b
      → ok (
          if address == 0
          then record p { ipv4 = ipv4; answer_count = k; banned = true }
          else record p { ipv4 = ipv4; answer_count = k + length node })
        ≡ ok (counted_ipv4 ipv4 node b)
  finish-counted ipv4 node address true z = rw z refl
  finish-counted ipv4 node address false z = rw z refl

  counted_ipv4-Agrees :
      (c : Ipv4Cache) (manual b : Bool) (ipv4' : HashTable Ipv4Cache)
      → view p.ipv4 d ≡ some c
      → IsValid ipv4'
      → Stores p.ipv4 d (record c { manual = manual }) ipv4'
      → (counted_ipv4 ipv4' c.node b).banned ≡ false
      → Agrees p.ipv4 p.banned k (λ t l a. answer_ipv4 t l d a) (counted_ipv4 ipv4' c.node b)
  counted_ipv4-Agrees c manual true ipv4' e valid stores allowed = absurd (cc)
  counted_ipv4-Agrees c manual false ipv4' e valid stores allowed = record {
    valid = valid;
    same_nodes = stored-SameNodes p.ipv4 ipv4' d c manual e stores;
    allowed = allowed;
    grows = omega arith;
    writes = λ table placed same_nodes limit answers size room.
        let (answers', run, sum) =
          answer_ipv4_lem table limit d answers c.node placed (same_nodes d ∙ ap nodes e)
            (omega (arith, size)) in
        (answers', run, omega (arith, sum, size));
  }

  pub ipv4_step-Agrees :
      {p' : Progress} (found : Option Ipv4Cache)
      → IsValid p.ipv4
      → view p.ipv4 d ≡ found
      → ipv4_step found ≡ ok p'
      → p'.cached ≡ true
      → p'.banned ≡ false
      → Agrees p.ipv4 p.banned k (λ t l a. answer_ipv4 t l d a) p'
  ipv4_step-Agrees {p' = p'} none valid e h hit allowed =
      let same : record p { answer_count = k; cached = false } ≡ p' = cc in
      let missed : false ≡ p'.cached = ap (λ (x : Progress). x.cached) same in absurd (cc)
  ipv4_step-Agrees {p' = p'} (some c) valid e h hit allowed =
      let (address, first, h₁) = >>=-eq-ok (from_option Fault.null_pointer (head? c.node)) _ h in
      let (ipv4', run, (valid', stores)) =
        write_through_lem p.ipv4 d (record c { manual = address == 0 }) c valid e in
      let finished : (b : Bool) → (address == 0) ≡ b → counted_ipv4 ipv4' c.node b ≡ p' = λ b z.
        ok-injective (sym (bind_ok _ _ run (finish-counted ipv4' c.node address b z)) ∙ h₁) in
      let kept : (b : Bool)
          → (address == 0) ≡ b
          → Agrees p.ipv4 p.banned k (λ t l a. answer_ipv4 t l d a) p' =
        λ b z. rw (← finished b z) (
          counted_ipv4-Agrees c (address == 0) b ipv4' e valid' stores
            (ap (λ (x : Progress). x.banned) (finished b z) ∙ allowed)) in
      kept (address == 0) refl
