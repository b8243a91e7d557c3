-- ===== src/Server/Banned.antt =====
-- socket.c: the flags `banned` and `cached` in the first loop of `bind_socket_read`.
use post_dns.Base.{
  ℕ, zero, suc, ◌+◌, ◌≡◌, refl, sym, ap, ◌∙◌, List, Bool, true, false, Option, none, some,
  Bool-cases, if◌then◌else◌, length, Run, ok, Fault, ◌>>=◌, at, from_option, >>=-eq-ok, ◌==◌, inl,
  inr,
}
use mathlib.Core.List.{head?}
use post_dns.Text.{Str}
use post_dns.HashTable.{HashTable, write_through}
use post_dns.Cache.{
  Ipv4Cache, Ipv6Cache, CnameCache, cname_cache_get, ipv4_cache_get, ipv6_cache_get,
}
use post_dns.Message.{Query, type_a, type_cname, type_aaaa}
use post_dns.Server.Lookup.{
  Progress, count_aliases, count_ipv4, count_ipv6, count_query, count_queries,
}
use post_dns.Server.Answers.{ok-injective, ipv4_step}
use post_dns.Server.Loops.{ipv6_step}
use post_dns.Server.Exact.{pick, alias_count}

-- A run that leaves `banned` set, if it ends.
abbrev Keeps : Run Progress → Type 0
Keeps run = (p' : Progress) → run ≡ ok p' → p'.banned ≡ true

ok-Keeps : (p : Progress) → p.banned ≡ true → Keeps (ok p)
ok-Keeps p b p' h = sym (ap (λ (x : Progress). x.banned) (ok-injective h)) ∙ b

bind-Keeps {ℓ} :
    {A : Type ℓ} (m : Run A) (f : A → Run Progress) → ((a : A) → Keeps (f a)) → Keeps (m >>= f)
bind-Keeps m f keeps p' h = let (a, run, h') = >>=-eq-ok m f h in keeps a p' h'

if-Keeps :
    (b : Bool) (x y : Progress)
    → x.banned ≡ true
    → y.banned ≡ true
    → Keeps (ok (if b then x else y))
if-Keeps true x y hx hy = ok-Keeps x hx
if-Keeps false x y hx hy = ok-Keeps y hy

pick-Keeps :
    (a b c : Bool) (x y z w : Run Progress)
    → Keeps x
    → Keeps y
    → Keeps z
    → Keeps w
    → Keeps (pick a b c x y z w)
pick-Keeps true b c x y z w hx hy hz hw = hx
pick-Keeps false true c x y z w hx hy hz hw = hy
pick-Keeps false false true x y z w hx hy hz hw = hz
pick-Keeps false false false x y z w hx hy hz hw = hw

ipv4_step-Keeps :
    (p : Progress) (d : Str) (k : ℕ)
    → p.banned ≡ true
    → (found : Option Ipv4Cache) → Keeps (ipv4_step p d k found)
ipv4_step-Keeps p d k b none = ok-Keeps _ b
ipv4_step-Keeps p d k b (some c) =
    bind-Keeps (from_option Fault.null_pointer (head? c.node)) _ (λ address.
      bind-Keeps (write_through p.ipv4 d (record c { manual = address == 0 })) _ (λ ipv4'.
        if-Keeps (address == 0) (record p { ipv4 = ipv4'; answer_count = k; banned = true })
          (record p { ipv4 = ipv4'; answer_count = k + length c.node }) refl b))

ipv6_step-Keeps :
    (ipv6 : HashTable Ipv6Cache) (p : Progress) (d : Str) (k : ℕ)
    → p.banned ≡ true
    → (found : Option Ipv6Cache) → Keeps (ipv6_step ipv6 d k p found)
ipv6_step-Keeps ipv6 p d k b none = ok-Keeps _ b
ipv6_step-Keeps ipv6 p d k b (some c) = ok-Keeps _ b

module _ (fuel : ℕ) (cname : HashTable CnameCache) (ipv6 : HashTable Ipv6Cache) where
  alias_count-Keeps :
      (d : Str) (p : Progress)
      → p.banned ≡ true
      → (found : Option CnameCache) → Keeps (alias_count fuel cname ipv6 d p found)
  alias_count-Keeps d p b none = ok-Keeps _ b
  alias_count-Keeps d p b (some c) =
      bind-Keeps (count_aliases fuel cname d p.answer_count) _
        (λ (k, e). ok-Keeps (record p { answer_count = k }) b)

  count_query-Keeps :
      (q : Query) (p : Progress) → p.banned ≡ true → Keeps (count_query fuel cname ipv6 q p)
  unfolding count_query count_ipv4 count_ipv6
  count_query-Keeps q p b =
      let aliases = count_aliases fuel cname q.name p.answer_count in
      pick-Keeps (q.type == type_a) (q.type == type_cname) (q.type == type_aaaa) _ _ _ _
        (bind-Keeps aliases _ (λ (k, d).
          bind-Keeps (ipv4_cache_get p.ipv4 d) (ipv4_step p d k) (ipv4_step-Keeps p d k b)))
        (bind-Keeps (cname_cache_get cname q.name) (alias_count fuel cname ipv6 q.name p)
          (alias_count-Keeps q.name p b))
        (bind-Keeps aliases _ (λ (k, d).
          bind-Keeps (ipv6_cache_get ipv6 d) (ipv6_step ipv6 d k p) (ipv6_step-Keeps ipv6 p d k b)))
        (ok-Keeps p b)

  -- One round of the loop, whose guard is `cached`.
  abbrev pub guarded : List Query → ℕ → ℕ → Progress → Bool → Run Progress
  guarded queries i n p false = ok p
  guarded queries i n p true = do
    q ← at queries i
    p' ← count_query fuel cname ipv6 q p
    count_queries fuel cname ipv6 queries (i + 1) n p'

  pub count_queries-guarded :
      (queries : List Query) (i n : ℕ) (p : Progress) (b : Bool)
      → p.cached ≡ b
      → count_queries fuel cname ipv6 queries i (suc n) p ≡ guarded queries i n p b
  unfolding count_queries
  count_queries-guarded queries i n p true z = rw z refl
  count_queries-guarded queries i n p false z = rw z refl

  guarded-Keeps :
      (queries : List Query) (i n : ℕ) (p : Progress) (b : Bool)
      → p.banned ≡ true
      → ((p₁ : Progress)
          → p₁.banned ≡ true
          → Keeps (count_queries fuel cname ipv6 queries (i + 1) n p₁))
      → Keeps (guarded queries i n p b)
  guarded-Keeps queries i n p false b rest p' h = ok-Keeps p b p' h
  guarded-Keeps queries i n p true b rest p' h =
      let (q, at_i, h₁) = >>=-eq-ok (at queries i) _ h in
      let (p₁, run, h₂) = >>=-eq-ok (count_query fuel cname ipv6 q p) _ h₁ in
      rest p₁ (count_query-Keeps q p b p₁ run) p' h₂

  pub count_queries-Keeps :
      (queries : List Query) (i n : ℕ) (p : Progress)
      → p.banned ≡ true
      → Keeps (count_queries fuel cname ipv6 queries i n p)
  unfolding count_queries
  count_queries-Keeps queries i zero p b p' h = ok-Keeps p b p' h
  count_queries-Keeps queries i (suc n) p b p' h =
      guarded-Keeps queries i n p p.cached b (count_queries-Keeps queries (i + 1) n) p'
        (sym (count_queries-guarded queries i n p p.cached refl) ∙ h)

  -- A loop that ends with `cached` set ran with it.
  pub count_queries_cached :
      (queries : List Query) (i n : ℕ) (p p' : Progress)
      → count_queries fuel cname ipv6 queries i n p ≡ ok p'
      → p'.cached ≡ true
      → p.cached ≡ true
  unfolding count_queries
  count_queries_cached queries i zero p p' h hit =
      ap (λ (x : Progress). x.cached) (ok-injective h) ∙ hit
  count_queries_cached queries i (suc n) p p' h hit = elim (Bool-cases p.cached) [
    | inl z ↦ z
    | inr z ↦
        let same = ok-injective (sym (count_queries-guarded queries i n p false z) ∙ h) in
        ap (λ (x : Progress). x.cached) same ∙ hit
  ]
