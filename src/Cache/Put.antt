-- ===== src/Cache/Put.antt =====
-- ipv4_cache.c, ipv6_cache.c and cname_cache.c: what a name reads as after a put.
use post_dns.Base.{
  ℕ, ◌≡◌, refl, sym, ap, ◌∙◌, Bool, true, false, Option, none, some, Bool-cases, Option-cases,
  if◌then◌else◌, ok, Returns, bind_ok, inl, inr,
}
use post_dns.Text.{Str}
use post_dns.Text.Equal.{string_equal_iff}
use post_dns.HashTable.{HashTable, write_through}
use post_dns.HashTable.Chain.{same}
use post_dns.HashTable.Invariant.{view, IsValid}
use post_dns.HashTable.Put.{hash_table_get-view, hash_table_put_lem, write_through_lem, Stores}
use post_dns.Cache.{
  Ipv4Cache, Ipv6Cache, CnameCache, ipv4_cache_get, ipv4_cache_put, ipv4_entry, ipv6_cache_get,
  ipv6_cache_put, cname_cache_get, cname_cache_put,
}

-- The entries after a put at the time `now`.
abbrev pub stamped4 : ℕ → Ipv4Cache → Ipv4Cache
stamped4 now cache = record { node = cache.node; ttl = cache.ttl; timestamp = now; manual = false }

abbrev pub stamped6 : ℕ → Ipv6Cache → Ipv6Cache
stamped6 now cache = record { node = cache.node; ttl = cache.ttl; timestamp = now; manual = false }

abbrev pub stamped_name : ℕ → CnameCache → CnameCache
stamped_name now cache = record {
  name = cache.name;
  ttl = cache.ttl;
  timestamp = now;
  manual = false;
}

-- What the cache of IPv4 addresses holds for the name of a put: an entry that is manual stays.
abbrev pub ipv4_kept : ℕ → Ipv4Cache → Option Ipv4Cache → Ipv4Cache
ipv4_kept now cache none = stamped4 now cache
ipv4_kept now cache (some old) = if old.manual then old else stamped4 now cache

-- The two results of a put on the name of a manual entry and of another one.
manual_kept :
    (t : HashTable Ipv4Cache) (name : Str) (old : Ipv4Cache) (q : Str)
    → view t name ≡ some old
    → view t q ≡ (if same name q then some old else view t q)
manual_kept t name old q e = elim (Bool-cases (same name q)) [
  | inl s ↦ let here : name ≡ q = (string_equal_iff name q).0 s in rw s (ap (view t) (sym here) ∙ e)
  | inr s ↦ rw s refl
]

overwritten :
    (t : HashTable Ipv4Cache) (now : ℕ) (name : Str) (cache old : Ipv4Cache) (manual : Bool)
    → IsValid t
    → view t name ≡ some old
    → Returns
        (if manual then ok t else write_through t name (ipv4_entry now cache))
        λ t'. IsValid t' × Stores t name (if manual then old else stamped4 now cache) t'
overwritten t now name cache old true valid e = (t, refl, (valid, λ q. manual_kept t name old q e))
overwritten t now name cache old false valid e =
    write_through_lem t name (stamped4 now cache) old valid e

-- `ipv4_cache_put` on a valid table ends in a valid table that holds the new entry under the name,
-- stamped with the time and not manual, but keeps the old one where that is manual. Every other name
-- reads as before.
pub ipv4_cache_put_lem :
    (t : HashTable Ipv4Cache) (now : ℕ) (name : Str) (cache : Ipv4Cache)
    → IsValid t
    → Returns
        (ipv4_cache_put t now name cache)
        λ t'. IsValid t' × Stores t name (ipv4_kept now cache (view t name)) t'
unfolding ipv4_cache_put ipv4_cache_get
ipv4_cache_put_lem t now name cache valid = elim (Option-cases (view t name)) [
  | inl absent ↦
      let (t', run, done) = hash_table_put_lem t name (stamped4 now cache) valid in
      (t', bind_ok _ _ (hash_table_get-view valid.placed name) (rw absent run), rw absent done)
  | inr (old, e) ↦
      let (t', run, done) = overwritten t now name cache old old.manual valid e in
      (t', bind_ok _ _ (hash_table_get-view valid.placed name) (rw e run), rw e done)
]

-- `ipv6_cache_put` on a valid table ends in a valid table that holds the new entry under the name,
-- stamped with the time and not manual, whatever was there. Every other name reads as before.
pub ipv6_cache_put_lem :
    (t : HashTable Ipv6Cache) (now : ℕ) (name : Str) (cache : Ipv6Cache)
    → IsValid t
    → Returns
        (ipv6_cache_put t now name cache)
        λ t'. IsValid t' × Stores t name (stamped6 now cache) t'
unfolding ipv6_cache_put ipv6_cache_get
ipv6_cache_put_lem t now name cache valid = elim (Option-cases (view t name)) [
  | inl absent ↦
      let (t', run, done) = hash_table_put_lem t name (stamped6 now cache) valid in
      (t', bind_ok _ _ (hash_table_get-view valid.placed name) (rw absent run), done)
  | inr (old, e) ↦
      let (t', run, done) = write_through_lem t name (stamped6 now cache) old valid e in
      (t', bind_ok _ _ (hash_table_get-view valid.placed name) (rw e run), done)
]

-- `cname_cache_get` after `cname_cache_put` on a valid table finds the alias, stamped with the time,
-- under its name, and for every other name what it found before.
pub cname_cache_get-cname_cache_put :
    (t : HashTable CnameCache) (now : ℕ) (name : Str) (cache : CnameCache)
    → IsValid t
    → Returns (cname_cache_put t now name cache) λ t'.
      (q : Str)
      → cname_cache_get t' q
        ≡ (if same name q then ok (some (stamped_name now cache)) else cname_cache_get t q)
unfolding cname_cache_put cname_cache_get
cname_cache_get-cname_cache_put t now name cache valid =
    let (t', run, (valid', stores)) = hash_table_put_lem t name (stamped_name now cache) valid in
    (
      t',
      run,
      λ q. elim (Bool-cases (same name q)) [
        | inl s ↦ rw s (hash_table_get-view valid'.placed q ∙ ap ok (rw (stores q, s) refl))
        | inr s ↦ rw s (
            hash_table_get-view valid'.placed q
            ∙ ap ok (rw (stores q, s) refl)
            ∙ sym (hash_table_get-view valid.placed q))
      ],
    )
