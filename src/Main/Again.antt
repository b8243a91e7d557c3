-- ===== src/Main/Again.antt =====
-- socket.c: a question that the caches answer after an exchange with the upstream server.
use post_dns.Base.{
  ℕ, ◌≤◌, ◌<◌, ◌^◌, ◌≡◌, ◌≢◌, refl, ◌∙◌, arith, List, [], ◌∷◌, ◌++◌, Option, none, some, length,
  All, Returns,
}
use mathlib.Core.List.{head?, map}
use post_dns.Text.{Str}
use post_dns.Text.Equal.{string_equal_refl}
use post_dns.HashTable.{HashTable}
use post_dns.HashTable.Invariant.{view}
use post_dns.Cache.{Ipv4Cache}
use post_dns.Message.{
  Query, ResponseData, address4, domain, address6, unset, ResourceRecord, Message, type_a,
}
use post_dns.Message.Parse.{name_fuel}
use post_dns.Message.Record.{IsRecord, IsData}
use post_dns.Message.Written.{IsMessage, message_bytes}
use post_dns.Message.RoundTrip.{as_received}
use post_dns.Server.{Server}
use post_dns.Server.Receive.{bind_socket_read}
use post_dns.Server.Aliases.{here, alias_records}
use post_dns.Server.Answers.{a_record, a_records, length-a_records}
use post_dns.Server.Send.{feature_bytes}
use post_dns.Server.Received.{as_received-IsMessage}
use post_dns.Server.Collect.{addresses4, name4, aliases}
use post_dns.Server.Forward.{Learns4, learned4}
use post_dns.Server.Cached.{cached4}
use post_dns.Server.Decide.{a_records-IsRecord}
use post_dns.Server.Answered.{reply_of, Answered}
use post_dns.Server.Answer.{bind_socket_read-Answered}
use post_dns.Main.Steps.{here}
use post_dns.Main.Exchange.{Exchanged}

-- The addresses of well-formed records are words, and no more than the records.
addresses4-IsData :
    (value : ResponseData) (r : ResourceRecord) (rs : List ResourceRecord)
    → r.response_data ≡ value
    → IsData r.type value
    → All (λ a. a < 2 ^ 32) (addresses4 rs)
    → length (addresses4 rs) ≤ length rs
    → All (λ a. a < 2 ^ 32) (addresses4 (r ∷ rs)) × (length (addresses4 (r ∷ rs)) ≤ length (r ∷ rs))
unfolding addresses4
addresses4-IsData (address4 a) r rs e h hs n = rw e ((h.1, hs), omega arith)
addresses4-IsData (domain d) r rs e h hs n = rw e (hs, omega arith)
addresses4-IsData (address6 a) r rs e h hs n = rw e (hs, omega arith)
addresses4-IsData unset r rs e h hs n = absurd h

addresses4-IsRecord :
    (rs : List ResourceRecord)
    → All IsRecord rs
    → All (λ a. a < 2 ^ 32) (addresses4 rs) × (length (addresses4 rs) ≤ length rs)
addresses4-IsRecord [] h = unfold addresses4 in (tt, omega arith)
addresses4-IsRecord (r ∷ rs) (h, hs) =
    let (small, few) = addresses4-IsRecord rs hs in
    addresses4-IsData r.response_data r rs refl h.value small few

learned :
    (now : ℕ) (o : Option Str) (d : Str) (node : List ℕ) (t t' : HashTable Ipv4Cache)
    → o ≡ some d
    → view t d ≡ none
    → Learns4 now o node t t'
    → view t' d ≡ some (learned4 now node)
learned now none d node t t' e absent l = absurd (cc)
learned now (some x) d node t t' e absent l =
    (let same_name : x ≡ d = cc in l d ∙ rw (same_name, string_equal_refl d, absent) refl)

module _ {Addr : Type 0} where
  -- After such an exchange, whose answer had IPv4 addresses, the first one not 0 and the last one
  -- under the name of the question, which had no IPv4 entry before and has no alias afterwards: when
  -- a client asks the same question for IPv4 addresses in a well-formed message, with nobody waiting
  -- under the same question and identifier before the exchange and the table of clients below its
  -- limit, with fuel and room in the block, the callback returns and sends that client one reply
  -- with RCODE 0 that holds exactly these addresses, in order, in A records of the name with a TTL
  -- of 120, leaves the table of clients reading as before, and changes no cache but for the mark
  -- `manual` of IPv4 entries.
  pub bind_socket_read-Exchanged :
      (s s' : Server Addr) (now : ℕ) (m r : Message) (q : Query) (address : Addr)
      → Exchanged now m r q address s s'
      → IsMessage r q
      → view s.ipv4 q.name ≡ none
      → q.type ≡ type_a
      → name4 none (as_received r).answers ≡ some q.name
      → aliases now q.name (as_received r).answers (view s.cname q.name) ≡ none
      → (a : ℕ) → head? (addresses4 (as_received r).answers) ≡ some a
      → a ≢ 0
      → (m₂ : Message) (address₂ : Addr) → IsMessage m₂ q
      → view s.clients (feature_bytes m₂ q) ≡ none
      → s'.clients.count < s'.clients.threshold
      → (fuel : ℕ) (block rest : List ℕ) → name_fuel ≤ fuel
      → length (
          message_bytes
            (reply_of m₂ q 0 (map (a_record q.name) (addresses4 (as_received r).answers)))
            q)
        ≤ length block
      → Returns
          (bind_socket_read fuel block
            (length (message_bytes m₂ q))
            (message_bytes m₂ q ++ rest)
            address₂
            s')
          (Answered s'
            (message_bytes
              (reply_of m₂ q 0 (map (a_record q.name) (addresses4 (as_received r).answers)))
              q)
            address₂)
  unfolding alias_records
  bind_socket_read-Exchanged s s' now m r q address x hr absent t named unaliased a first
        some_address m₂ address₂ h₂ free roomy fuel block rest enough room =
      let hr' = as_received-IsMessage r q hr in
      let rs = (as_received r).answers in
      let node = addresses4 rs in
      let (small, few) = addresses4-IsRecord rs hr'.answers in
      let held = learned now (name4 none rs) q.name node s.ipv4 s'.ipv4 named absent x.ipv4 in
      bind_socket_read-Answered s' m₂ q address₂ 0 (a_records q.name node) h₂
        (cached4 q.name (here q.name) (learned4 now node) a t (x.cname q.name ∙ unaliased) held
          first some_address refl)
        (a_records-IsRecord q.name node hr.query.name small)
        (omega (arith, length-a_records q.name node, few, hr'.counted, hr'.header.answer_count))
        x.valid.clients x.valid.ipv4 x.valid.ipv6.placed x.valid.cname.placed
        (x.same_clients (feature_bytes m₂ q) ∙ free) roomy fuel block rest enough
        (omega (arith, enough)) room
