-- ===== src/Main/Unmarked.antt =====
-- socket.c: the mark `manual` in what `query_socket_read` stores.
use post_dns.Base.{
  ℕ, zero, suc, ◌+◌, ◌≡◌, refl, List, [], ◌∷◌, ◌++◌, false, Option, none, some, Bool-cases, inl,
  inr, ◌==◌, ok, >>=-eq-ok, at,
}
use mathlib.Core.List.{head?}
use post_dns.Text.{Str}
use post_dns.HashTable.{HashTable}
use post_dns.HashTable.Values.{AllEntries, ok-eq}
use post_dns.Cache.{Ipv4Cache, Ipv6Cache, CnameCache, cname_cache_put}
use post_dns.Cache.Values.{
  ipv4_cache_put-AllEntries, ipv6_cache_put-AllEntries, cname_cache_put-AllEntries,
}
use post_dns.Message.{
  ResponseData, address4, domain, address6, unset, ResourceRecord, type_a, type_cname, type_aaaa,
}
use post_dns.Server.Receive.{
  Collected, collect_a, collect_cname, collect_aaaa, collect_answer, collect_answers, store_ipv4,
  store_ipv6,
}
use post_dns.Main.Bans.{IsServable}

collect_cname-unmarked :
    (now : ℕ) (r : ResourceRecord) (v : ResponseData) (c : Collected) {c' : Collected}
    → AllEntries (λ k (x : CnameCache). x.manual ≡ false) c.cname
    → collect_cname now r v c ≡ ok c'
    → AllEntries (λ k (x : CnameCache). x.manual ≡ false) c'.cname
unfolding collect_cname
collect_cname-unmarked now r (domain d) c h e =
    let (cname, stored, e₁) = >>=-eq-ok (cname_cache_put c.cname now _ _) _ e in
    rw (← ok-eq e₁) (
      cname_cache_put-AllEntries (λ k (x : CnameCache). x.manual ≡ false) c.cname now _ _ refl h
        stored)
collect_cname-unmarked now r (address4 a) c h e = absurd (cc)
collect_cname-unmarked now r (address6 a) c h e = absurd (cc)
collect_cname-unmarked now r unset c h e = absurd (cc)

collect_a-cname :
    (r : ResourceRecord) (v : ResponseData) (c : Collected) {c' : Collected}
    → collect_a r v c ≡ ok c'
    → c'.cname ≡ c.cname
unfolding collect_a
collect_a-cname r (address4 a) c e = rw (← ok-eq e) refl
collect_a-cname r (domain d) c e = absurd (cc)
collect_a-cname r (address6 a) c e = absurd (cc)
collect_a-cname r unset c e = absurd (cc)

collect_aaaa-cname :
    (r : ResourceRecord) (v : ResponseData) (c : Collected) {c' : Collected}
    → collect_aaaa r v c ≡ ok c'
    → c'.cname ≡ c.cname
unfolding collect_aaaa
collect_aaaa-cname r (address6 a) c e = rw (← ok-eq e) refl
collect_aaaa-cname r (domain d) c e = absurd (cc)
collect_aaaa-cname r (address4 a) c e = absurd (cc)
collect_aaaa-cname r unset c e = absurd (cc)

pub collect_answers-unmarked :
    (now : ℕ) (answers : List ResourceRecord) (i n : ℕ) (c : Collected) {c' : Collected}
    → AllEntries (λ k (x : CnameCache). x.manual ≡ false) c.cname
    → collect_answers now answers i n c ≡ ok c'
    → AllEntries (λ k (x : CnameCache). x.manual ≡ false) c'.cname
unfolding collect_answers collect_answer
collect_answers-unmarked now answers i zero c h e = rw (← ok-eq e) h
collect_answers-unmarked now answers i (suc n) c h e =
    let (r, read, e₁) = >>=-eq-ok (at answers i) _ e in
    let (c₁, run, e₂) = >>=-eq-ok (collect_answer now r c) _ e₁ in
    collect_answers-unmarked now answers (i + 1) n c₁
      (elim (Bool-cases (r.type == type_a)) [
        | inl z ↦ rw (collect_a-cname r r.response_data c (rw z at run)) h
        | inr z ↦ elim (Bool-cases (r.type == type_cname)) [
          | inl z₁ ↦ collect_cname-unmarked now r r.response_data c h (rw (z, z₁) at run)
          | inr z₁ ↦ elim (Bool-cases (r.type == type_aaaa)) [
            | inl z₂ ↦ rw (collect_aaaa-cname r r.response_data c (rw (z, z₁, z₂) at run)) h
            | inr z₂ ↦ rw (← ok-eq (rw (z, z₁, z₂) at run)) h
          ]
        ]
      ])
      e₂

-- Where a domain with IPv4 addresses was found, there is an address.
abbrev pub IsPaired : Collected → Type 0
IsPaired c = (x : Str) → c.ipv4_domain ≡ some x → (a : ℕ) × (head? c.ipv4_node ≡ some a)

head-append : (node : List ℕ) (a : ℕ) → (b : ℕ) × (head? (node ++ a ∷ []) ≡ some b)
head-append [] a = (a, refl)
head-append (x ∷ node) a = (x, refl)

collect_a-IsPaired :
    (r : ResourceRecord) (v : ResponseData) (c : Collected) {c' : Collected}
    → collect_a r v c ≡ ok c'
    → IsPaired c'
unfolding collect_a
collect_a-IsPaired r (address4 a) c e = rw (← ok-eq e) (λ x named. head-append c.ipv4_node a)
collect_a-IsPaired r (domain d) c e = absurd (cc)
collect_a-IsPaired r (address6 a) c e = absurd (cc)
collect_a-IsPaired r unset c e = absurd (cc)

collect_cname-IsPaired :
    (now : ℕ) (r : ResourceRecord) (v : ResponseData) (c : Collected) {c' : Collected}
    → IsPaired c
    → collect_cname now r v c ≡ ok c'
    → IsPaired c'
unfolding collect_cname
collect_cname-IsPaired now r (domain d) c h e =
    let (cname, stored, e₁) = >>=-eq-ok (cname_cache_put c.cname now _ _) _ e in rw (← ok-eq e₁) h
collect_cname-IsPaired now r (address4 a) c h e = absurd (cc)
collect_cname-IsPaired now r (address6 a) c h e = absurd (cc)
collect_cname-IsPaired now r unset c h e = absurd (cc)

collect_aaaa-IsPaired :
    (r : ResourceRecord) (v : ResponseData) (c : Collected) {c' : Collected}
    → IsPaired c
    → collect_aaaa r v c ≡ ok c'
    → IsPaired c'
unfolding collect_aaaa
collect_aaaa-IsPaired r (address6 a) c h e = rw (← ok-eq e) h
collect_aaaa-IsPaired r (domain d) c h e = absurd (cc)
collect_aaaa-IsPaired r (address4 a) c h e = absurd (cc)
collect_aaaa-IsPaired r unset c h e = absurd (cc)

pub collect_answers-IsPaired :
    (now : ℕ) (answers : List ResourceRecord) (i n : ℕ) (c : Collected) {c' : Collected}
    → IsPaired c
    → collect_answers now answers i n c ≡ ok c'
    → IsPaired c'
unfolding collect_answers collect_answer
collect_answers-IsPaired now answers i zero c h e = rw (← ok-eq e) h
collect_answers-IsPaired now answers i (suc n) c h e =
    let (r, read, e₁) = >>=-eq-ok (at answers i) _ e in
    let (c₁, run, e₂) = >>=-eq-ok (collect_answer now r c) _ e₁ in
    collect_answers-IsPaired now answers (i + 1) n c₁
      (elim (Bool-cases (r.type == type_a)) [
        | inl z ↦ collect_a-IsPaired r r.response_data c (rw z at run)
        | inr z ↦ elim (Bool-cases (r.type == type_cname)) [
          | inl z₁ ↦ collect_cname-IsPaired now r r.response_data c h (rw (z, z₁) at run)
          | inr z₁ ↦ elim (Bool-cases (r.type == type_aaaa)) [
            | inl z₂ ↦ collect_aaaa-IsPaired r r.response_data c h (rw (z, z₁, z₂) at run)
            | inr z₂ ↦ rw (← ok-eq (rw (z, z₁, z₂) at run)) h
          ]
        ]
      ])
      e₂

pub store_ipv4-IsServable :
    (now : ℕ) (name : Option Str) (node : List ℕ) (t : HashTable Ipv4Cache)
    {t' : HashTable Ipv4Cache}
    → ((x : Str) → name ≡ some x → (a : ℕ) × (head? node ≡ some a))
    → AllEntries IsServable t
    → store_ipv4 now name node t ≡ ok t'
    → AllEntries IsServable t'
unfolding store_ipv4
store_ipv4-IsServable now none node t has h e = rw (← ok-eq e) h
store_ipv4-IsServable now (some name) node t has h e =
    ipv4_cache_put-AllEntries IsServable t now name _ (has name refl, λ marked. absurd (cc)) h e

pub store_ipv6-unmarked :
    (now : ℕ) (name : Option Str) (node : List (List ℕ)) (t : HashTable Ipv6Cache)
    {t' : HashTable Ipv6Cache}
    → AllEntries (λ k (x : Ipv6Cache). x.manual ≡ false) t
    → store_ipv6 now name node t ≡ ok t'
    → AllEntries (λ k (x : Ipv6Cache). x.manual ≡ false) t'
unfolding store_ipv6
store_ipv6-unmarked now none node t h e = rw (← ok-eq e) h
store_ipv6-unmarked now (some name) node t h e =
    ipv6_cache_put-AllEntries (λ k (x : Ipv6Cache). x.manual ≡ false) t now name _ refl h e
