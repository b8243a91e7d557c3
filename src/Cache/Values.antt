-- ===== src/Cache/Values.antt =====
-- The three caches: what each operation does to a predicate of all names and entries.
use post_dns.Base.{
  ℕ, ◌≡◌, List, [], ◌∷◌, Bool, ltb, length, ok, >>=-eq-ok, Bool-cases, Option-cases, inl, inr,
}
use post_dns.Text.{Str}
use post_dns.HashTable.{HashTable, hash_table_remove}
use post_dns.HashTable.Values.{
  AllEntries, ok-eq, hash_table_put-AllEntries, write_through-AllEntries,
}
use post_dns.HashTable.Removed.{hash_table_remove-AllEntries}
use post_dns.Cache.{
  Ipv4Cache, Ipv6Cache, CnameCache, ipv4_entry, ipv6_entry, cname_entry, ipv4_cache_get,
  ipv4_cache_put, ipv6_cache_get, ipv6_cache_put, cname_cache_put, collect_table, remove_all, clear,
}

module _ {κ} where
  pub ipv4_cache_put-AllEntries :
      (P : Str → Ipv4Cache → Type κ)
      → (t : HashTable Ipv4Cache) (now : ℕ) (k : Str) (c : Ipv4Cache) {t' : HashTable Ipv4Cache}
      → P k (ipv4_entry now c)
      → AllEntries P t
      → ipv4_cache_put t now k c ≡ ok t'
      → AllEntries P t'
  unfolding ipv4_cache_put
  ipv4_cache_put-AllEntries P t now k c p h e =
      let (found, run, e₁) = >>=-eq-ok (ipv4_cache_get t k) _ e in
      elim (Option-cases found) [
        | inl absent ↦ hash_table_put-AllEntries P t k (ipv4_entry now c) p h (rw absent at e₁)
        | inr (old, there) ↦
            let e₂ = rw there at e₁ in
            elim (Bool-cases old.manual) [
              | inl z ↦ rw (← ok-eq (rw z at e₂)) h
              | inr z ↦ write_through-AllEntries P t k (ipv4_entry now c) p h (rw z at e₂)
            ]
      ]

  pub ipv6_cache_put-AllEntries :
      (P : Str → Ipv6Cache → Type κ)
      → (t : HashTable Ipv6Cache) (now : ℕ) (k : Str) (c : Ipv6Cache) {t' : HashTable Ipv6Cache}
      → P k (ipv6_entry now c)
      → AllEntries P t
      → ipv6_cache_put t now k c ≡ ok t'
      → AllEntries P t'
  unfolding ipv6_cache_put
  ipv6_cache_put-AllEntries P t now k c p h e =
      let (found, run, e₁) = >>=-eq-ok (ipv6_cache_get t k) _ e in
      elim (Option-cases found) [
        | inl absent ↦ hash_table_put-AllEntries P t k (ipv6_entry now c) p h (rw absent at e₁)
        | inr (old, there) ↦ write_through-AllEntries P t k (ipv6_entry now c) p h (rw there at e₁)
      ]

  pub cname_cache_put-AllEntries :
      (P : Str → CnameCache → Type κ)
      → (t : HashTable CnameCache) (now : ℕ) (k : Str) (c : CnameCache) {t' : HashTable CnameCache}
      → P k (cname_entry now c)
      → AllEntries P t
      → cname_cache_put t now k c ≡ ok t'
      → AllEntries P t'
  unfolding cname_cache_put
  cname_cache_put-AllEntries P t now k c p h e =
      hash_table_put-AllEntries P t k (cname_entry now c) p h e

module _ {ℓ κ} {V : Type ℓ} (P : Str → V → Type κ) where
  remove_all-AllEntries :
      (names : List Str) (t : HashTable V) {t' : HashTable V}
      → AllEntries P t
      → remove_all names t ≡ ok t'
      → AllEntries P t'
  unfolding remove_all
  remove_all-AllEntries [] t h e = rw (← ok-eq e) h
  remove_all-AllEntries (name ∷ names) t h e =
      let (t₁, run, e₁) = >>=-eq-ok (hash_table_remove t name) _ e in
      remove_all-AllEntries names t₁ (hash_table_remove-AllEntries P t name h run) e₁

  pub clear-AllEntries :
      (expired : V → Bool) (t : HashTable V) {t' : HashTable V}
      → AllEntries P t
      → clear expired t ≡ ok t'
      → AllEntries P t'
  unfolding clear
  clear-AllEntries expired t h e =
      let (names, run, e₁) = >>=-eq-ok (collect_table expired t.table) _ e in
      elim (Bool-cases (ltb t.count (length names))) [
        | inl z ↦ absurd (let e₂ = rw z at e₁ in cc)
        | inr z ↦ remove_all-AllEntries names t h (rw z at e₁)
      ]
