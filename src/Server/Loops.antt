-- ===== src/Server/Loops.antt =====
-- socket.c: the IPv6 addresses of one name, and the parts of a round one after the other, in both loops
-- of `bind_socket_read`.
use post_dns.Base.{
  ℕ, ◌+◌, ◌≡◌, refl, sym, ap, ◌∙◌, arith, List, Bool, true, false, Option, none, some, length, Run,
  ok, ◌>>=◌, >>=-eq-ok, bind_ok,
}
use post_dns.Text.{Str}
use post_dns.HashTable.{HashTable}
use post_dns.HashTable.Invariant.{view, IsValid}
use post_dns.HashTable.Put.{hash_table_get-view}
use post_dns.Cache.{Ipv4Cache, Ipv6Cache, CnameCache, ipv4_cache_get, ipv6_cache_get}
use post_dns.Message.{ResourceRecord}
use post_dns.Server.Lookup.{Progress, count_ipv4, count_ipv6}
use post_dns.Server.Reply.{answer_aliases, answer_ipv4, answer_ipv6, ipv6_responses}
use post_dns.Server.Agreement.{Follows, push_answers_lem}
use post_dns.Server.Answers.{
  Agrees, ok-injective, ipv4_step, ipv4_step-Agrees, length-ipv6_responses,
}

abbrev pub Writer : Type 0
Writer = HashTable Ipv4Cache → ℕ → List ResourceRecord → Run (List ResourceRecord)

pub count_ipv4-Agrees :
    (p : Progress) (d : Str) (k : ℕ) {p' : Progress}
    → IsValid p.ipv4
    → count_ipv4 p.ipv4 d k p ≡ ok p'
    → p'.cached ≡ true
    → p'.banned ≡ false
    → Agrees p.ipv4 p.banned k (λ t l a. answer_ipv4 t l d a) p'
unfolding count_ipv4 ipv4_cache_get
count_ipv4-Agrees p d k valid h =
    let run : ipv4_step p d k (view p.ipv4 d) ≡ count_ipv4 p.ipv4 d k p =
      sym (bind_ok _ (ipv4_step p d k) (hash_table_get-view valid.placed d) refl) in
    ipv4_step-Agrees p d k (view p.ipv4 d) valid refl (run ∙ h)

-- Nothing is written by this part of a round.
pub unchanged-Agrees :
    (p : Progress)
    → IsValid p.ipv4
    → p.banned ≡ false
    → Agrees p.ipv4 p.banned p.answer_count (λ t l a. ok a) p
unchanged-Agrees p valid allowed = record {
  valid = valid;
  same_nodes = λ q. refl;
  allowed = allowed;
  grows = omega arith;
  writes = λ t placed same limit answers size room. (answers, refl, size);
}

module _ (ipv6 : HashTable Ipv6Cache) (d : Str) (k : ℕ) (p : Progress) where
  abbrev pub ipv6_step : Option Ipv6Cache → Run Progress
  ipv6_step none = ok (record p { answer_count = k; cached = false })
  ipv6_step (some cache) = ok (record p { answer_count = k + length cache.node })

  ipv6_step-Agrees :
      {p' : Progress} (found : Option Ipv6Cache)
      → IsValid p.ipv4
      → ipv6_cache_get ipv6 d ≡ ok found
      → ipv6_step found ≡ ok p'
      → p'.cached ≡ true
      → p'.banned ≡ false
      → Agrees p.ipv4 p.banned k (λ t l a. answer_ipv6 ipv6 l d a) p'
  unfolding answer_ipv6
  ipv6_step-Agrees {p' = p'} none valid e h hit allowed =
      let missed : false ≡ p'.cached = ap (λ (x : Progress). x.cached) (ok-injective h) in
      absurd (cc)
  ipv6_step-Agrees {p' = p'} (some c) valid e h hit allowed =
      let same = ok-injective h in
      let kept : p.banned ≡ false = ap (λ (x : Progress). x.banned) same ∙ allowed in
      let rs = ipv6_responses d c.node in
      let size : length rs ≡ length c.node = length-ipv6_responses d c.node in
      rw (← same) (record {
        valid = valid;
        same_nodes = λ q. refl;
        allowed = kept;
        grows = omega arith;
        writes = λ t placed same_nodes limit answers start room.
            let (answers', run, sum) =
              push_answers_lem limit rs answers (omega (arith, size, start)) in
            (answers', bind_ok _ _ e run, omega (arith, sum, size, start));
      })

  pub count_ipv6-Agrees :
      {p' : Progress}
      → IsValid p.ipv4
      → count_ipv6 ipv6 d k p ≡ ok p'
      → p'.cached ≡ true
      → p'.banned ≡ false
      → Agrees p.ipv4 p.banned k (λ t l a. answer_ipv6 ipv6 l d a) p'
  unfolding count_ipv6
  count_ipv6-Agrees valid h =
      let (found, run, h') = >>=-eq-ok (ipv6_cache_get ipv6 d) ipv6_step h in
      ipv6_step-Agrees found valid run h'

-- Aliases first, then the addresses of the name that they lead to.
pub aliases-Agrees :
    (fuel : ℕ) (cname : HashTable CnameCache) (d : Str) {d' : Str} {k k' : ℕ} (rest : Str → Writer)
    {ipv4 : HashTable Ipv4Cache} {banned : Bool} {p' : Progress}
    → Follows fuel cname d k k' d'
    → Agrees ipv4 banned k' (rest d') p'
    → Agrees ipv4 banned k
        (λ t l a. answer_aliases fuel cname l d a >>= λ (e, a'). rest e t l a')
        p'
aliases-Agrees fuel cname d {d' = d'} rest follows a = record {
  valid = a.valid;
  same_nodes = a.same_nodes;
  allowed = a.allowed;
  grows = omega (arith, follows.0, a.grows);
  writes = λ t placed same_nodes limit answers size room.
      let (ea, run, (to, size')) = follows.1 limit answers size (omega (arith, a.grows)) in
      let (answers', run', sum) = a.writes t placed same_nodes limit (ea.1) size' room in
      (answers', bind_ok _ _ run (ap (λ (e : Str). rest e t limit (ea.1)) to ∙ run'), sum);
}

pub sequence-Agrees :
    {ipv4 : HashTable Ipv4Cache} {banned : Bool} {k : ℕ} (first second : Writer) {p p' : Progress}
    → Agrees ipv4 banned k first p
    → Agrees p.ipv4 p.banned p.answer_count second p'
    → Agrees ipv4 banned k (λ t l a. first t l a >>= λ a'. second t l a') p'
sequence-Agrees first second {p = p} a b = record {
  valid = b.valid;
  same_nodes = λ q. b.same_nodes q ∙ a.same_nodes q;
  allowed = a.allowed;
  grows = omega (arith, a.grows, b.grows);
  writes = λ t placed same_nodes limit answers size room.
      let (a₁, run₁, sum₁) =
        a.writes t placed same_nodes limit answers size (omega (arith, b.grows)) in
      let (a₂, run₂, sum₂) =
        b.writes t placed (λ q. same_nodes q ∙ sym (a.same_nodes q)) limit a₁ sum₁ room in
      (a₂, bind_ok _ _ run₁ run₂, sum₂);
}
