-- ===== src/Main/Sends.antt =====
-- main.c and socket.c: what one callback sends, and to whom.
use post_dns.Base.{
  leb, leb→le, ℕ, zero, suc, ◌≤◌, ◌≡◌, refl, sym, ap, ◌∙◌, arith, inl, inr, List, [], ◌∷◌, ◌++◌,
  append-nil, some, Bool-cases, Option-cases, length, take, All, ok, >>=-eq-ok,
}
use post_dns.HashTable.{hash_table_put, hash_table_get, hash_table_remove}
use post_dns.HashTable.Values.{
  AllEntries, ok-eq, hash_table_put-AllEntries, hash_table_get-AllEntries,
}
use post_dns.HashTable.Removed.{hash_table_remove-AllEntries}
use post_dns.Cache.{ipv4_cache_clear, ipv6_cache_clear}
use post_dns.Message.{Message}
use post_dns.Message.Parse.{buf2message}
use post_dns.Message.Build.{message2buf, message2feature_string}
use post_dns.Message.Release.{message_log, message_free}
use post_dns.Server.{
  read_block, Server, Datagram, to_client, to_upstream, trimmed, send_response, send_query,
  message_copy_header_queries,
}
use post_dns.Server.Lookup.{Progress, count_queries}
use post_dns.Server.Receive.{
  as_reply, back_message_of, reply_or_ask, bind_socket_read, collect_answers, store_ipv4,
  store_ipv6, query_socket_read,
}
use post_dns.Main.{clear_callback}
use post_dns.Main.Feature.{key-SameFeature}
use post_dns.Main.Steps.{IsProper, IsWaiting}

-- What `uv_udp_send` reads lies inside the block.
read_block-eq :
    (len : ℕ) (buf : List ℕ) {bytes : List ℕ}
    → read_block len buf ≡ ok bytes
    → (len ≤ length buf) × (bytes ≡ take len buf)
unfolding read_block
read_block-eq len buf h = elim (Bool-cases (leb len (length buf))) [
  | inl z ↦ (leb→le len (length buf) z, sym (ok-eq (rw z at h)))
  | inr z ↦ absurd (let stuck = rw z at h in cc)
]

module _ {Addr : Type 0} (Asked : Addr → Message → Type 0) where
  -- The clients that wait have asked, and what was sent is proper, at most `n` datagrams of it.
  pub record Sends (n : ℕ) (s s' : Server Addr) : Type 0 where
    pub waiting : AllEntries (IsWaiting Asked) s'.clients
    pub ds : List (Datagram Addr)
    pub appended : s'.sent ≡ s.sent ++ ds
    pub proper : All (IsProper Asked) ds
    pub few : length ds ≤ n

  pub nothing_sent :
      (n : ℕ) (s s' : Server Addr)
      → AllEntries (IsWaiting Asked) s'.clients
      → s'.sent ≡ s.sent
      → Sends n s s'
  nothing_sent n s s' w e = record {
    waiting = w;
    ds = [];
    appended = e ∙ sym (append-nil s.sent);
    proper = tt;
    few = omega arith;
  }

  send_response-Sends :
      (block : List ℕ) (s : Server Addr) (m : Message) {s' : Server Addr}
      → AllEntries (IsWaiting Asked) s.clients
      → send_response block s m ≡ ok s'
      → Sends 1 s s'
  unfolding send_response
  send_response-Sends block s m {s' = s'} w e =
      let (k, key, e₁) = >>=-eq-ok (message2feature_string m) _ e in
      let (found, run, e₂) = >>=-eq-ok (hash_table_get s.clients k) _ e₁ in
      elim (Option-cases found) [
        | inl absent ↦
            let same : s ≡ s' = ok-eq (rw absent at e₂) in
            nothing_sent 1 s s' (rw (← same) w) (rw (← same) refl)
        | inr (address, there) ↦
            let ((len, buf), built, e₃) =
              >>=-eq-ok (message2buf block (trimmed m)) _ (rw there at e₂) in
            let (bytes, out, e₅) = >>=-eq-ok (read_block len buf) _ e₃ in
            let (inside, same_bytes) = read_block-eq len buf out in
            let (clients, removed, e₄) = >>=-eq-ok (hash_table_remove s.clients k) _ e₅ in
            let (m₀, asked, key₀) =
              hash_table_get-AllEntries (IsWaiting Asked) s.clients k w (run ∙ ap ok there) in
            rw (← ok-eq e₄) (record {
              waiting = hash_table_remove-AllEntries (IsWaiting Asked) s.clients k w removed;
              ds = to_client address bytes ∷ [];
              appended = refl;
              proper = (
                (
                  m₀,
                  m,
                  asked,
                  key-SameFeature m₀ m k key₀ key,
                  (block, len, buf, built, inside, same_bytes),
                ),
                tt,
              );
              few = omega arith;
            })
      ]

  send_query-Sends :
      (block : List ℕ) (s : Server Addr) (address : Addr) (m : Message) {s' : Server Addr}
      → AllEntries (IsWaiting Asked) s.clients
      → Asked address m
      → send_query block s m ≡ ok s'
      → Sends 1 s s'
  unfolding send_query
  send_query-Sends block s address m w asked e =
      let ((len, buf), built, e₁) = >>=-eq-ok (message2buf block (trimmed m)) _ e in
      let (bytes, out, e₂) = >>=-eq-ok (read_block len buf) _ e₁ in
      let (inside, same_bytes) = read_block-eq len buf out in
      rw (← ok-eq e₂) (record {
        waiting = w;
        ds = to_upstream bytes ∷ [];
        appended = refl;
        proper = ((address, m, asked, (block, len, buf, built, inside, same_bytes)), tt);
        few = omega arith;
      })

  reply_or_ask-Sends :
      (fuel : ℕ) (block : List ℕ) (m back : Message) (p : Progress) (s : Server Addr)
      (address : Addr) {s' : Server Addr}
      → AllEntries (IsWaiting Asked) s.clients
      → Asked address m
      → reply_or_ask fuel block m back p s ≡ ok s'
      → Sends 1 s s'
  unfolding reply_or_ask back_message_of
  reply_or_ask-Sends fuel block m back p s address w asked e = elim (Bool-cases (p.cached)) [
    | inl z ↦
        let (back', run, e₁) =
          >>=-eq-ok (back_message_of fuel s.cname s.ipv6 m p back) _ (rw z at e) in
        send_response-Sends block s back' w e₁
    | inr z ↦ send_query-Sends block s address m w asked (rw z at e)
  ]

  pub bind_socket_read-Sends :
      (fuel : ℕ) (block : List ℕ) (n : ℕ) (base : List ℕ) (address : Addr) (s : Server Addr)
      {s' : Server Addr}
      → AllEntries (IsWaiting Asked) s.clients
      → ((m : Message) → buf2message fuel base n ≡ ok m → Asked address m)
      → bind_socket_read fuel block n base address s ≡ ok s'
      → Sends 1 s s'
  unfolding bind_socket_read
  bind_socket_read-Sends fuel block zero base address s w asks e =
      rw (← ok-eq e) (nothing_sent 1 s s w refl)
  bind_socket_read-Sends fuel block (suc n) base address s w asks e =
      let (m, parsed, e₁) = >>=-eq-ok (buf2message fuel base (suc n)) _ e in
      let (u, logged, e₂) = >>=-eq-ok (message_log m) _ e₁ in
      let (k, key, e₃) = >>=-eq-ok (message2feature_string m) _ e₂ in
      let (clients, stored, e₄) =
        >>=-eq-ok (hash_table_put s.clients (some k) (some address)) _ e₃ in
      let (back, copied, e₅) = >>=-eq-ok (message_copy_header_queries m) _ e₄ in
      let (p, counted, e₆) =
        >>=-eq-ok (count_queries fuel s.cname s.ipv6 m.queries 0 m.query_count _) _ e₅ in
      let s₁ : Server Addr = record s { clients = clients; ipv4 = p.ipv4 } in
      let (s₂, sent, e₇) = >>=-eq-ok (reply_or_ask fuel block m (as_reply back) p s₁) _ e₆ in
      let (u', freed, e₈) = >>=-eq-ok (message_free m) _ e₇ in
      let asked = asks m parsed in
      let w₁ =
        hash_table_put-AllEntries (IsWaiting Asked) s.clients k address (m, asked, key) w stored in
      let sends = reply_or_ask-Sends fuel block m (as_reply back) p s₁ address w₁ asked sent in
      rw (← ok-eq e₈) (record {
        waiting = sends.waiting;
        ds = sends.ds;
        appended = sends.appended;
        proper = sends.proper;
        few = sends.few;
      })

  pub query_socket_read-Sends :
      (fuel : ℕ) (block : List ℕ) (now n : ℕ) (base : List ℕ) (s : Server Addr) {s' : Server Addr}
      → AllEntries (IsWaiting Asked) s.clients
      → query_socket_read fuel block now n base s ≡ ok s'
      → Sends 1 s s'
  unfolding query_socket_read
  query_socket_read-Sends fuel block now zero base s w e =
      rw (← ok-eq e) (nothing_sent 1 s s w refl)
  query_socket_read-Sends fuel block now (suc n) base s w e =
      let (m, parsed, e₁) = >>=-eq-ok (buf2message fuel base (suc n)) _ e in
      let (u, logged, e₂) = >>=-eq-ok (message_log m) _ e₁ in
      let (c, collected, e₃) = >>=-eq-ok (collect_answers now m.answers 0 m.answer_count _) _ e₂ in
      let (ipv4, stored4, e₄) = >>=-eq-ok (store_ipv4 now c.ipv4_domain c.ipv4_node s.ipv4) _ e₃ in
      let (ipv6, stored6, e₅) = >>=-eq-ok (store_ipv6 now c.ipv6_domain c.ipv6_node s.ipv6) _ e₄ in
      let s₁ : Server Addr = record s { ipv4 = ipv4; ipv6 = ipv6; cname = c.cname } in
      let (s₂, sent, e₆) = >>=-eq-ok (send_response block s₁ m) _ e₅ in
      let (u', freed, e₇) = >>=-eq-ok (message_free m) _ e₆ in
      let sends = send_response-Sends block s₁ m w sent in
      rw (← ok-eq e₇) (record {
        waiting = sends.waiting;
        ds = sends.ds;
        appended = sends.appended;
        proper = sends.proper;
        few = sends.few;
      })

  pub clear_callback-Sends :
      (now : ℕ) (s : Server Addr) {s' : Server Addr}
      → AllEntries (IsWaiting Asked) s.clients
      → clear_callback now s ≡ ok s'
      → Sends 0 s s'
  unfolding clear_callback
  clear_callback-Sends now s w e =
      let (ipv4, run₄, e₁) = >>=-eq-ok (ipv4_cache_clear s.ipv4 now) _ e in
      let (ipv6, run₆, e₂) = >>=-eq-ok (ipv6_cache_clear s.ipv6 now) _ e₁ in
      rw (← ok-eq e₂) (nothing_sent 0 s _ w refl)
