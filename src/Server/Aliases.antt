-- ===== src/Server/Aliases.antt =====
-- socket.c: the loop that follows aliases in `bind_socket_read`, against the aliases that are stored.
use post_dns.Text.{string_dup}
use post_dns.Message.{domain}
use post_dns.Base.{
  ℕ, zero, suc, ◌+◌, ◌<◌, ◌≤◌, ◌≡◌, refl, sym, ap, ◌∙◌, arith, List, [], ◌∷◌, ◌++◌, append_assoc,
  append-nil, length, length-append, none, some, ok, out_of_fuel, bind_ok,
}
use post_dns.Text.{Str}
use post_dns.HashTable.{HashTable}
use post_dns.HashTable.Invariant.{view, IsPlaced}
use post_dns.HashTable.Put.{hash_table_get-view}
use post_dns.Cache.{CnameCache, cname_cache_get}
use post_dns.Message.{ResourceRecord}
use post_dns.Server.{generate_cname_response}
use post_dns.Server.Lookup.{count_aliases}
use post_dns.Server.Reply.{answer_aliases}
use post_dns.Server.Agreement.{push_answer_lem}

-- The stored aliases lead from one domain to another in so many steps.
pub data Leads (cname : HashTable CnameCache) : ℕ → Str → Str → Type 0 where
  here : (d : Str) → Leads cname 0 d d
  alias :
      (d : Str) (c : CnameCache) (n : ℕ) (d' : Str)
      → view cname d ≡ some c
      → Leads cname n c.name d'
      → Leads cname (suc n) d d'

step :
    (cname : HashTable CnameCache) (fuel : ℕ) (d : Str) (k : ℕ) (c : CnameCache)
    → IsPlaced cname
    → view cname d ≡ some c
    → count_aliases (suc fuel) cname d k ≡ count_aliases fuel cname c.name (k + 1)
unfolding count_aliases cname_cache_get
step cname fuel d k c p e = bind_ok _ _ (hash_table_get-view p d) (rw e refl)

-- The record that tells an alias.
abbrev pub cname_record : Str → Str → ResourceRecord
cname_record name target = record {
  name = name;
  type = 5;
  class = 1;
  ttl = 120;
  response_data_length = length name;
  response_data = domain target;
}

-- The records that the aliases on the way give.
unfoldable pub alias_records :
    {cname : HashTable CnameCache} {n : ℕ} {d d' : Str} → Leads cname n d d' → List ResourceRecord
alias_records (here d) = []
alias_records (alias d c n d' e l) = cname_record d c.name ∷ alias_records l

-- The second loop writes them.
pub answer_aliases-alias_records :
    (cname : HashTable CnameCache)
    → IsPlaced cname
    → (n : ℕ) (d d' : Str) (l : Leads cname n d d') → view cname d' ≡ none
    → (fuel limit : ℕ) (answers : List ResourceRecord) → n < fuel
    → length answers + length (alias_records l) ≤ limit
    → answer_aliases fuel cname limit d answers ≡ ok (d', answers ++ alias_records l)
unfolding answer_aliases cname_cache_get alias_records generate_cname_response string_dup
answer_aliases-alias_records cname p n d d' l end zero limit answers enough room =
    absurd (omega arith)
answer_aliases-alias_records cname p zero d d' (here _) end (suc fuel) limit answers enough room =
    bind_ok _ _ (hash_table_get-view p d)
      (rw end (ap (λ (rs : List ResourceRecord). ok (d, rs)) (sym (append-nil answers))))
answer_aliases-alias_records cname p (suc n) d d' (alias _ c _ _ e l) end (suc fuel) limit answers
      enough room =
    let r = cname_record d c.name in
    let grown = length-append answers (r ∷ []) in
    bind_ok _ _ (hash_table_get-view p d) (
      rw e (
        bind_ok _ _ (push_answer_lem limit answers r (omega arith)) (
          answer_aliases-alias_records cname p n c.name d' l end fuel limit (answers ++ r ∷ [])
            (omega arith) (omega (arith, grown))
          ∙ ap (λ (rs : List ResourceRecord). ok (d', rs))
              (append_assoc answers (r ∷ []) (alias_records l)))))

pub length-alias_records :
    {cname : HashTable CnameCache} {n : ℕ} {d d' : Str} (l : Leads cname n d d')
    → length (alias_records l) ≡ n
unfolding alias_records
length-alias_records (here d) = refl
length-alias_records (alias d c n d' e l) = ap suc (length-alias_records l)

-- Where the stored aliases lead in n steps to a domain that has none, on a table whose names are
-- placed, the loop that follows aliases ends there with any fuel above n, and has added n to its
-- count.
pub count_aliases-Leads :
    (cname : HashTable CnameCache)
    → IsPlaced cname
    → (n : ℕ) (d d' : Str) → Leads cname n d d'
    → view cname d' ≡ none
    → (fuel k : ℕ) → n < fuel
    → count_aliases fuel cname d k ≡ ok (k + n, d')
unfolding count_aliases cname_cache_get
count_aliases-Leads cname p n d d' l end zero k enough = absurd (omega arith)
count_aliases-Leads cname p zero d d' (here _) end (suc fuel) k enough =
    bind_ok _ _ (hash_table_get-view p d) (rw end (ap (λ (n : ℕ). ok (n, d)) (omega arith)))
count_aliases-Leads cname p (suc n) d d' (alias _ c _ _ e l) end (suc fuel) k enough =
    step cname fuel d k c p e
    ∙ count_aliases-Leads cname p n c.name d' l end fuel (k + 1) (omega arith)
    ∙ ap (λ (n : ℕ). ok (n, d')) (omega arith)

first_alias :
    {cname : HashTable CnameCache} {n : ℕ} {x y : Str}
    → Leads cname (suc n) x y
    → (c : CnameCache) × (view cname x ≡ some c) × Leads cname n c.name y
first_alias (alias _ c _ _ e l) = (c, e, l)

-- From any place that leads to a circle, no fuel is enough.
pub into_circle :
    (cname : HashTable CnameCache)
    → IsPlaced cname
    → (n : ℕ) (d : Str) → Leads cname (suc n) d d
    → (m : ℕ) (x : Str) → Leads cname m x d
    → (fuel k : ℕ) → count_aliases fuel cname x k ≡ out_of_fuel
unfolding count_aliases
into_circle cname p n d round m x l zero k = refl
into_circle cname p n d round zero x (here _) (suc fuel) k =
    let (c, e, l) = first_alias round in
    step cname fuel d k c p e ∙ into_circle cname p n d round n c.name l fuel (k + 1)
into_circle cname p n d round (suc m) x (alias _ c _ _ e l) (suc fuel) k =
    step cname fuel x k c p e ∙ into_circle cname p n d round m c.name l fuel (k + 1)
