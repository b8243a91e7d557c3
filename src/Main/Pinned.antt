-- ===== src/Main/Pinned.antt =====
-- main.c, socket.c and the caches: which entries carry the mark `manual` in a run.
use post_dns.Base.{
  ℕ, zero, suc, ◌≡◌, refl, List, [], ◌∷◌, true, false, none, some, Bool-cases, Option-cases, inl,
  inr, ok, >>=-eq-ok,
}
use post_dns.HashTable.{hash_table_put, hash_table_get, hash_table_remove}
use post_dns.HashTable.Values.{AllEntries, ok-eq, hash_table_new-AllEntries}
use post_dns.Cache.{
  Ipv6Cache, CnameCache, ipv4_cache_clear, ipv6_cache_clear, cname_cache_clear, ipv4_expired,
  ipv6_expired,
}
use post_dns.Cache.Values.{clear-AllEntries}
use post_dns.Message.{Message}
use post_dns.Message.Parse.{buf2message}
use post_dns.Message.Build.{message2buf, message2feature_string}
use post_dns.Message.Release.{message_log, message_free}
use post_dns.Server.{
  read_block, Server, trimmed, send_response, send_query, message_copy_header_queries,
}
use post_dns.Server.Lookup.{Progress, count_queries}
use post_dns.Server.Receive.{
  Collected, as_reply, back_message_of, reply_or_ask, bind_socket_read, collect_answers, store_ipv4,
  store_ipv6, query_socket_read,
}
use post_dns.Main.{start, clear_callback}
use post_dns.Main.Steps.{Event, from_client, from_upstream, timer, handle, Reaches, here, next}
use post_dns.Main.Bans.{IsServable, count_queries-IsServable}
use post_dns.Main.Unmarked.{
  collect_answers-unmarked, collect_answers-IsPaired, store_ipv4-IsServable, store_ipv6-unmarked,
}

-- The three caches mark nothing else.
pub record ArePinned {Addr : Type 0} (s : Server Addr) : Type 0 where
  pub servable : AllEntries IsServable s.ipv4
  pub none6 : AllEntries (λ k (c : Ipv6Cache). c.manual ≡ false) s.ipv6
  pub none_cname : AllEntries (λ k (c : CnameCache). c.manual ≡ false) s.cname

-- The senders change no cache.
record SameCaches {Addr : Type 0} (s s' : Server Addr) : Type 0 where
  ipv4 : s'.ipv4 ≡ s.ipv4
  ipv6 : s'.ipv6 ≡ s.ipv6
  cname : s'.cname ≡ s.cname

module _ {Addr : Type 0} where
  kept_caches : (s : Server Addr) → SameCaches s s
  kept_caches s = record { ipv4 = refl; ipv6 = refl; cname = refl }

  SameCaches-ArePinned : {s s' : Server Addr} → SameCaches s s' → ArePinned s → ArePinned s'
  SameCaches-ArePinned same h = record {
    servable = rw same.ipv4 h.servable;
    none6 = rw same.ipv6 h.none6;
    none_cname = rw same.cname h.none_cname;
  }

  send_response-SameCaches :
      (block : List ℕ) (s : Server Addr) (m : Message) {s' : Server Addr}
      → send_response block s m ≡ ok s'
      → SameCaches s s'
  unfolding send_response
  send_response-SameCaches block s m e =
      let (k, key, e₁) = >>=-eq-ok (message2feature_string m) _ e in
      let (found, run, e₂) = >>=-eq-ok (hash_table_get s.clients k) _ e₁ in
      elim (Option-cases found) [
        | inl absent ↦ rw (← ok-eq (rw absent at e₂)) (kept_caches s)
        | inr (address, there) ↦
            let (sent, built, e₃) = >>=-eq-ok (message2buf block (trimmed m)) _ (rw there at e₂) in
            let (bytes, _, e₅) = >>=-eq-ok (read_block sent.0 sent.1) _ e₃ in
            let (clients, removed, e₄) = >>=-eq-ok (hash_table_remove s.clients k) _ e₅ in
            rw (← ok-eq e₄) (record { ipv4 = refl; ipv6 = refl; cname = refl })
      ]

  reply_or_ask-SameCaches :
      (fuel : ℕ) (block : List ℕ) (m back : Message) (p : Progress) (s : Server Addr)
      {s' : Server Addr}
      → reply_or_ask fuel block m back p s ≡ ok s'
      → SameCaches s s'
  unfolding reply_or_ask back_message_of send_query
  reply_or_ask-SameCaches fuel block m back p s e = elim (Bool-cases (p.cached)) [
    | inl z ↦
        let (back', run, e₁) =
          >>=-eq-ok (back_message_of fuel s.cname s.ipv6 m p back) _ (rw z at e) in
        send_response-SameCaches block s back' e₁
    | inr z ↦
        let (sent, built, e₁) = >>=-eq-ok (message2buf block (trimmed m)) _ (rw z at e) in
        let (bytes, _, e₂) = >>=-eq-ok (read_block sent.0 sent.1) _ e₁ in
        rw (← ok-eq e₂) (record { ipv4 = refl; ipv6 = refl; cname = refl })
  ]

  bind_socket_read-ArePinned :
      (fuel : ℕ) (block : List ℕ) (n : ℕ) (base : List ℕ) (address : Addr) (s : Server Addr)
      {s' : Server Addr}
      → ArePinned s
      → bind_socket_read fuel block n base address s ≡ ok s'
      → ArePinned s'
  unfolding bind_socket_read
  bind_socket_read-ArePinned fuel block zero base address s h e = rw (← ok-eq e) h
  bind_socket_read-ArePinned fuel block (suc n) base address s h e =
      let (m, parsed, e₁) = >>=-eq-ok (buf2message fuel base (suc n)) _ e in
      let (u, logged, e₂) = >>=-eq-ok (message_log m) _ e₁ in
      let (k, key, e₃) = >>=-eq-ok (message2feature_string m) _ e₂ in
      let (clients, stored, e₄) =
        >>=-eq-ok (hash_table_put s.clients (some k) (some address)) _ e₃ in
      let (back, copied, e₅) = >>=-eq-ok (message_copy_header_queries m) _ e₄ in
      let p₀ : Progress = record {
        ipv4 = s.ipv4;
        answer_count = 0;
        cached = true;
        banned = false;
      } in
      let (p, counted, e₆) =
        >>=-eq-ok (count_queries fuel s.cname s.ipv6 m.queries 0 m.query_count p₀) _ e₅ in
      let s₁ : Server Addr = record s { clients = clients; ipv4 = p.ipv4 } in
      let (s₂, sent, e₇) = >>=-eq-ok (reply_or_ask fuel block m (as_reply back) p s₁) _ e₆ in
      let (u', freed, e₈) = >>=-eq-ok (message_free m) _ e₇ in
      let bans =
        count_queries-IsServable fuel s.cname s.ipv6 m.queries 0 m.query_count p₀ h.servable
          counted in
      let h₁ : ArePinned s₁ = record {
        servable = bans;
        none6 = h.none6;
        none_cname = h.none_cname;
      } in
      rw (← ok-eq e₈)
        (SameCaches-ArePinned (reply_or_ask-SameCaches fuel block m (as_reply back) p s₁ sent) h₁)

module _ {Addr : Type 0} where
  query_socket_read-ArePinned :
      (fuel : ℕ) (block : List ℕ) (now n : ℕ) (base : List ℕ) (s : Server Addr) {s' : Server Addr}
      → ArePinned s
      → query_socket_read fuel block now n base s ≡ ok s'
      → ArePinned s'
  unfolding query_socket_read
  query_socket_read-ArePinned fuel block now zero base s h e = rw (← ok-eq e) h
  query_socket_read-ArePinned fuel block now (suc n) base s h e =
      let (m, parsed, e₁) = >>=-eq-ok (buf2message fuel base (suc n)) _ e in
      let (u, logged, e₂) = >>=-eq-ok (message_log m) _ e₁ in
      let c₀ : Collected = record {
        ipv4_domain = none;
        ipv4_node = [];
        ipv6_domain = none;
        ipv6_node = [];
        cname = s.cname;
      } in
      let (c, collected, e₃) = >>=-eq-ok (collect_answers now m.answers 0 m.answer_count c₀) _ e₂ in
      let (ipv4, stored4, e₄) = >>=-eq-ok (store_ipv4 now c.ipv4_domain c.ipv4_node s.ipv4) _ e₃ in
      let (ipv6, stored6, e₅) = >>=-eq-ok (store_ipv6 now c.ipv6_domain c.ipv6_node s.ipv6) _ e₄ in
      let s₁ : Server Addr = record s { ipv4 = ipv4; ipv6 = ipv6; cname = c.cname } in
      let (s₂, sent, e₆) = >>=-eq-ok (send_response block s₁ m) _ e₅ in
      let (u', freed, e₇) = >>=-eq-ok (message_free m) _ e₆ in
      let h₁ : ArePinned s₁ = record {
        servable =
            store_ipv4-IsServable now c.ipv4_domain c.ipv4_node s.ipv4
              (collect_answers-IsPaired now m.answers 0 m.answer_count c₀ (λ x named. absurd (cc))
                collected)
              h.servable stored4;
        none6 = store_ipv6-unmarked now c.ipv6_domain c.ipv6_node s.ipv6 h.none6 stored6;
        none_cname =
            collect_answers-unmarked now m.answers 0 m.answer_count c₀ h.none_cname collected;
      } in
      rw (← ok-eq e₇) (SameCaches-ArePinned (send_response-SameCaches block s₁ m sent) h₁)

  clear_callback-ArePinned :
      (now : ℕ) (s : Server Addr) {s' : Server Addr}
      → ArePinned s
      → clear_callback now s ≡ ok s'
      → ArePinned s'
  unfolding clear_callback ipv4_cache_clear ipv6_cache_clear cname_cache_clear
  clear_callback-ArePinned now s h e =
      let (ipv4, run₄, e₁) = >>=-eq-ok (ipv4_cache_clear s.ipv4 now) _ e in
      let (ipv6, run₆, e₂) = >>=-eq-ok (ipv6_cache_clear s.ipv6 now) _ e₁ in
      rw (← ok-eq e₂) (record {
        servable = clear-AllEntries IsServable (ipv4_expired now) s.ipv4 h.servable run₄;
        none6 =
            clear-AllEntries (λ k (x : Ipv6Cache). x.manual ≡ false) (ipv6_expired now) s.ipv6
              h.none6 run₆;
        none_cname = h.none_cname;
      })

  handle-ArePinned :
      (fuel : ℕ) (event : Event Addr) (s : Server Addr) {s' : Server Addr}
      → ArePinned s
      → handle fuel event s ≡ ok s'
      → ArePinned s'
  unfolding handle
  handle-ArePinned fuel (from_client a base n block) s h e =
      bind_socket_read-ArePinned fuel block n base a s h e
  handle-ArePinned fuel (from_upstream base n now block) s h e =
      query_socket_read-ArePinned fuel block now n base s h e
  handle-ArePinned fuel (timer now) s h e = clear_callback-ArePinned now s h e

  start-ArePinned : ArePinned (start {Addr = Addr})
  unfolding start
  start-ArePinned = record {
    servable = hash_table_new-AllEntries IsServable;
    none6 = hash_table_new-AllEntries (λ k (x : Ipv6Cache). x.manual ≡ false);
    none_cname = hash_table_new-AllEntries (λ k (x : CnameCache). x.manual ≡ false);
  }

  Reaches-ArePinned_from :
      (fuel : ℕ) (es : List (Event Addr)) {s s' : Server Addr}
      → ArePinned s
      → Reaches fuel s es s'
      → ArePinned s'
  Reaches-ArePinned_from fuel [] h (here s) = h
  Reaches-ArePinned_from fuel (e ∷ es) h (next s t u _ _ run rest) =
      Reaches-ArePinned_from fuel es (handle-ArePinned fuel e s h run) rest

  -- From the start, whatever arrives and in whichever order, as long as every callback returns: each
  -- IPv4 entry has an address, one that carries the mark `manual` has the first address 0, and no
  -- entry of the other two caches carries it.
  pub Reaches-ArePinned :
      (fuel : ℕ) (es : List (Event Addr)) (s : Server Addr) → Reaches fuel start es s → ArePinned s
  Reaches-ArePinned fuel es s run = Reaches-ArePinned_from fuel es start-ArePinned run
