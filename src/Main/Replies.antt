-- ===== src/Main/Replies.antt =====
-- main.c and socket.c: whom the datagrams of a run go to, and how many there are.
use post_dns.Base.{
  All-append, ℕ, ◌+◌, ◌≤◌, ◌≡◌, refl, sym, ap, ◌∙◌, arith, inl, inr, List, [], ◌∷◌, ◌++◌,
  append_assoc, length, length-append, All, ok,
}
use post_dns.HashTable.Values.{AllEntries, hash_table_new-AllEntries}
use post_dns.Message.{Message}
use post_dns.Server.{Server, Datagram}
use post_dns.Main.{start}
use post_dns.Main.Steps.{
  Event, from_client, from_upstream, timer, handle, Reaches, here, next, received, Holds, Came,
  IsProper, IsWaiting,
}
use post_dns.Main.Sends.{
  Sends, nothing_sent, bind_socket_read-Sends, query_socket_read-Sends, clear_callback-Sends,
}

module _ {Addr : Type 0} (Asked : Addr → Message → Type 0) where
  handle-Sends :
      (fuel : ℕ) (event : Event Addr) (s : Server Addr) {s' : Server Addr}
      → AllEntries (IsWaiting Asked) s.clients
      → ((address : Addr) (m : Message) → Holds fuel event address m → Asked address m)
      → handle fuel event s ≡ ok s'
      → Sends Asked (received (event ∷ [])) s s'
  unfolding handle received
  handle-Sends fuel (from_client a base n block) s w asks e =
      bind_socket_read-Sends Asked fuel block n base a s w (λ m parsed. asks a m (refl, parsed)) e
  handle-Sends fuel (from_upstream base n now block) s w asks e =
      query_socket_read-Sends Asked fuel block now n base s w e
  handle-Sends fuel (timer now) s w asks e = clear_callback-Sends Asked now s w e

  received-∷ :
      (e : Event Addr) (es : List (Event Addr))
      → received (e ∷ es) ≡ received (e ∷ []) + received es
  unfolding received
  received-∷ (from_client a base n block) es = omega arith
  received-∷ (from_upstream base n now block) es = omega arith
  received-∷ (timer now) es = omega arith

  Reaches-Sends :
      (fuel : ℕ) (es : List (Event Addr)) {s s' : Server Addr}
      → AllEntries (IsWaiting Asked) s.clients
      → ((address : Addr) (m : Message) → Came fuel es address m → Asked address m)
      → Reaches fuel s es s'
      → Sends Asked (received es) s s'
  unfolding received
  Reaches-Sends fuel [] w asks (here s) = nothing_sent Asked 0 s s w refl
  Reaches-Sends fuel (e ∷ es) w asks (next s t u _ _ run rest) =
      let one = handle-Sends fuel e s w (λ a m h. asks a m (inl h)) run in
      let more = Reaches-Sends fuel es one.waiting (λ a m h. asks a m (inr h)) rest in
      record {
        waiting = more.waiting;
        ds = one.ds ++ more.ds;
        appended =
            more.appended
            ∙ ap (λ (x : List (Datagram Addr)). x ++ more.ds) one.appended
            ∙ append_assoc s.sent one.ds more.ds;
        proper = All-append (IsProper Asked) one.ds more.ds one.proper more.proper;
        few = omega (arith, length-append one.ds more.ds, one.few, more.few, received-∷ e es);
      }

module _ {Addr : Type 0} where
  -- From the start, whatever arrives and in whichever order, as long as every callback returns: each
  -- datagram sent to a client is built from a message that has the same identifier as a message that
  -- came from that very address, and the same bytes of the names, the classes and the types of its
  -- questions, one behind the other; each one sent to the upstream server is built from a message
  -- that came from a client; what is sent lies inside the block that was written; and no more
  -- datagrams were sent than came in.
  pub Reaches-IsProper :
      (fuel : ℕ) (es : List (Event Addr)) (s : Server Addr)
      → Reaches fuel start es s
      → All (IsProper (Came fuel es)) s.sent × (length s.sent ≤ received es)
  unfolding start
  Reaches-IsProper fuel es s run =
      let sends =
        Reaches-Sends (Came fuel es) fuel es (hash_table_new-AllEntries (IsWaiting (Came fuel es)))
          (λ a m h. h) run in
      let all : sends.ds ≡ s.sent = sym sends.appended in
      (rw (← all) sends.proper, rw (← all) sends.few)
