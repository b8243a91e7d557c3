-- ===== src/Server/Exact.antt =====
-- socket.c: one round of both loops of `bind_socket_read`, by the type of the question.
use post_dns.Base.{
  ℕ, ◌≡◌, ap, ◌∙◌, Bool, true, false, Option, none, some, if◌then◌else◌, Run, ok, ◌>>=◌, >>=-eq-ok,
  ◌==◌,
}
use post_dns.Text.{Str}
use post_dns.HashTable.{HashTable}
use post_dns.HashTable.Invariant.{IsValid}
use post_dns.Cache.{Ipv6Cache, CnameCache, cname_cache_get}
use post_dns.Message.{Query, type_a, type_cname, type_aaaa}
use post_dns.Server.Lookup.{Progress, count_aliases, count_query}
use post_dns.Server.Reply.{answer_aliases, answer_ipv4, answer_ipv6, answer_query}
use post_dns.Server.Agreement.{count_aliases-Follows}
use post_dns.Server.Answers.{Agrees, ok-injective}
use post_dns.Server.Loops.{
  Writer, count_ipv4-Agrees, count_ipv6-Agrees, unchanged-Agrees, aliases-Agrees,
}

-- The shape of both switches.
abbrev pub pick {ℓ} : {A : Type ℓ} → Bool → Bool → Bool → A → A → A → A → A
pick a b c x y z w = if a then x else if b then y else if c then z else w

-- Both loops agree on one case of the switch.
abbrev Case : Progress → Progress → Run Progress → Writer → Type 0
Case p p' count write = count ≡ ok p' → Agrees p.ipv4 p.banned p.answer_count write p'

pick-Case :
    (p p' : Progress) (a b c : Bool) (x y z w : Run Progress) (x' y' z' w' : Writer)
    → Case p p' x x'
    → Case p p' y y'
    → Case p p' z z'
    → Case p p' w w'
    → Case p p'
        (pick a b c x y z w)
        (λ t l s. pick a b c (x' t l s) (y' t l s) (z' t l s) (w' t l s))
pick-Case p p' true b c x y z w x' y' z' w' hx hy hz hw = hx
pick-Case p p' false true c x y z w x' y' z' w' hx hy hz hw = hy
pick-Case p p' false false true x y z w x' y' z' w' hx hy hz hw = hz
pick-Case p p' false false false x y z w x' y' z' w' hx hy hz hw = hw

module _ (fuel : ℕ) (cname : HashTable CnameCache) (ipv6 : HashTable Ipv6Cache) where
  -- The case for the type CNAME, after the first look into the cache.
  abbrev pub alias_count : Str → Progress → Option CnameCache → Run Progress
  alias_count d p none = ok (record p { cached = false })
  alias_count d p (some c) = do
    (answer_count, domain_name) ← count_aliases fuel cname d p.answer_count
    ok (record p { answer_count = answer_count })

  alias_count-Agrees :
      (d : Str) (p p' : Progress) (found : Option CnameCache)
      → IsValid p.ipv4
      → p'.cached ≡ true
      → p'.banned ≡ false
      → alias_count d p found ≡ ok p'
      → Agrees p.ipv4 p.banned p.answer_count
          (λ t l a. answer_aliases fuel cname l d a >>= λ (e, a'). ok a')
          p'
  alias_count-Agrees d p p' none valid hit allowed h =
      let missed : false ≡ p'.cached = ap (λ (x : Progress). x.cached) (ok-injective h) in
      absurd (cc)
  alias_count-Agrees d p p' (some c) valid hit allowed h =
      let ((k', d'), run, h') = >>=-eq-ok (count_aliases fuel cname d p.answer_count) _ h in
      let same = ok-injective h' in
      let kept : p.banned ≡ false = ap (λ (x : Progress). x.banned) same ∙ allowed in
      rw (← same) (
        aliases-Agrees fuel cname d (λ e t l a. ok a)
          (count_aliases-Follows fuel cname d p.answer_count run)
          (unchanged-Agrees (record p { answer_count = k' }) valid kept))

  pub count_query-Agrees :
      (q : Query) (p p' : Progress)
      → IsValid p.ipv4
      → p'.cached ≡ true
      → p'.banned ≡ false
      → count_query fuel cname ipv6 q p ≡ ok p'
      → Agrees p.ipv4 p.banned p.answer_count (λ t l a. answer_query fuel cname t ipv6 l q a) p'
  unfolding count_query answer_query
  count_query-Agrees q p p' valid hit allowed h =
      pick-Case p p' (q.type == type_a) (q.type == type_cname) (q.type == type_aaaa) _ _ _ _ _ _ _ _
        (λ h₁.
          let ((k', d'), run, h') =
            >>=-eq-ok (count_aliases fuel cname q.name p.answer_count) _ h₁ in
          aliases-Agrees fuel cname q.name (λ e t l a. answer_ipv4 t l e a)
            (count_aliases-Follows fuel cname q.name p.answer_count run)
            (count_ipv4-Agrees p d' k' valid h' hit allowed))
        (λ h₁.
          let (found, run, h') =
            >>=-eq-ok (cname_cache_get cname q.name) (alias_count q.name p) h₁ in
          alias_count-Agrees q.name p p' found valid hit allowed h')
        (λ h₁.
          let ((k', d'), run, h') =
            >>=-eq-ok (count_aliases fuel cname q.name p.answer_count) _ h₁ in
          aliases-Agrees fuel cname q.name (λ e t l a. answer_ipv6 ipv6 l e a)
            (count_aliases-Follows fuel cname q.name p.answer_count run)
            (count_ipv6-Agrees ipv6 d' k' p valid h' hit allowed))
        (λ h₁.
          let same = ok-injective h₁ in
          rw (← same) (unchanged-Agrees p valid (ap (λ (x : Progress). x.banned) same ∙ allowed)))
        h
