-- ===== src/Server/Circle.antt =====
-- socket.c: `bind_socket_read` on a name whose aliases lead in a circle.
use post_dns.Base.{
  ℕ, suc, ◌≤◌, ◌<◌, ◌≡◌, ◌⊎◌, inl, inr, ap, ◌∙◌, arith, List, ◌++◌, length, length-append, Run,
  out_of_fuel, ◌>>=◌, bind_ok,
}
use post_dns.Text.{Str}
use post_dns.HashTable.Invariant.{IsPlaced, IsValid}
use post_dns.HashTable.Put.{hash_table_put_lem}
use post_dns.Message.{Query, Message, type_a, type_aaaa}
use post_dns.Message.Parse.{name_fuel}
use post_dns.Message.Header.{header_bytes}
use post_dns.Message.Written.{
  IsMessage, message_bytes, length-header_bytes, question_bytes, answer_bytes,
}
use post_dns.Message.RoundTrip.{as_received, buf2message_lem}
use post_dns.Server.{Server}
use post_dns.Server.Lookup.{count_query, count_queries}
use post_dns.Server.Receive.{bind_socket_read}
use post_dns.Server.Aliases.{Leads, into_circle}
use post_dns.Server.Send.{feature_bytes, message2feature_string_lem}
use post_dns.Message.Logged.{message_log_lem}
use post_dns.Server.Received.{as_received-IsMessage}
use post_dns.Server.Answered.{copied}
use post_dns.Server.Ask.{start, bind_socket_read-heard}

stuck {ℓ κ} :
    {A : Type ℓ} {B : Type κ} (m : Run A) (f : A → Run B)
    → m ≡ out_of_fuel
    → (m >>= f) ≡ out_of_fuel
stuck m f e = ap (λ x. x >>= f) e

module _ {Addr : Type 0} where
  count_query-circle :
      (fuel : ℕ) (s : Server Addr) (q : Query) (n k : ℕ) (d : Str)
      → IsPlaced s.cname
      → (q.type ≡ type_a) ⊎ (q.type ≡ type_aaaa)
      → Leads s.cname n q.name d
      → Leads s.cname (suc k) d d
      → count_query fuel s.cname s.ipv6 q (start s) ≡ out_of_fuel
  unfolding count_query
  count_query-circle fuel s q n k d pc (inl t) l round =
      rw t (stuck _ _ (into_circle s.cname pc k d round n q.name l fuel 0))
  count_query-circle fuel s q n k d pc (inr t) l round =
      rw t (stuck _ _ (into_circle s.cname pc k d round n q.name l fuel 0))

  -- A client's well-formed message with one question for IPv4 or IPv6 addresses of a name from which
  -- the stored aliases lead to a domain, and from there back to that domain, on a valid table of
  -- clients and a table of aliases whose names are placed: no fuel of 257 rounds or more is enough
  -- for the callback, so that the C code never leaves it.
  pub bind_socket_read_circle :
      (s : Server Addr) (m : Message) (q : Query) (address : Addr) (n k : ℕ) (d : Str)
      → IsMessage m q
      → (q.type ≡ type_a) ⊎ (q.type ≡ type_aaaa)
      → IsValid s.clients
      → IsPlaced s.cname
      → Leads s.cname n q.name d
      → Leads s.cname (suc k) d d
      → (fuel : ℕ) (block rest : List ℕ) → name_fuel ≤ fuel
      → bind_socket_read fuel block
          (length (message_bytes m q))
          (message_bytes m q ++ rest)
          address
          s
        ≡ out_of_fuel
  unfolding count_queries
  bind_socket_read_circle s m q address n k d h t valid pc l round fuel block rest enough =
      let size = length (message_bytes m q) in
      let m' = as_received m in
      let h' = as_received-IsMessage m q h in
      let long : 0 < size = omega (
        arith,
        length-header_bytes m,
        length-append (header_bytes m ++ question_bytes q) (answer_bytes m.answers),
        length-append (header_bytes m) (question_bytes q),
      ) in
      let (clients, stored, put) = hash_table_put_lem s.clients (feature_bytes m q) address valid in
      let (copy, copies, same_reply) = copied m' q h'.one h'.asked in
      let counted : count_queries fuel s.cname s.ipv6 m'.queries 0 m'.query_count (start s)
          ≡ out_of_fuel =
        rw (h.one, h.asked) (stuck _ _ (count_query-circle fuel s q n k d pc t l round)) in
      bind_socket_read-heard fuel block size (message_bytes m q ++ rest) address s long
      ∙ bind_ok _ _ (buf2message_lem m q fuel rest h enough) (
          bind_ok _ _ (message_log_lem m' q h') (
            bind_ok _ _ (message2feature_string_lem m' q h'.one h'.asked)
              (bind_ok _ _ stored (bind_ok _ _ copies (stuck _ _ counted)))))
