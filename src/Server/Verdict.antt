-- ===== src/Server/Verdict.antt =====
-- socket.c: `bind_socket_read` on one question, whatever the caches hold.
use post_dns.Base.{
  ℕ, ◌≤◌, ◌<◌, ◌^◌, ◌≡◌, ◌≢◌, refl, ap, ◌∙◌, List, [], ◌∷◌, ◌++◌, Option, none, some, Bool-cases,
  inl, inr, if◌then◌else◌, length, All, Returns,
}
use post_dns.Text.{Str}
use post_dns.Text.Equal.{string_equal_iff}
use post_dns.HashTable.Chain.{same}
use post_dns.HashTable.Invariant.{view, IsPlaced, IsValid}
use post_dns.Message.{Query, ResourceRecord, Message, type_a, type_cname, type_aaaa}
use post_dns.Message.Parse.{name_fuel}
use post_dns.Message.Record.{IsRecord}
use post_dns.Message.Written.{IsMessage, message_bytes}
use post_dns.Message.RoundTrip.{as_received}
use post_dns.Server.{Server, Datagram, to_client, to_upstream, trimmed}
use post_dns.Server.Receive.{bind_socket_read}
use post_dns.Server.Answers.{SameNodes, nodes}
use post_dns.Server.Send.{feature_bytes}
use post_dns.Server.Cached.{IsCached, IsBanned}
use post_dns.Server.Ask.{IsMissing, bind_socket_read-Asks}
use post_dns.Server.Answered.{reply_of, Answered}
use post_dns.Server.Answer.{
  bind_socket_read-Answered, bind_socket_read_refuses, bind_socket_read_empty,
}

module _ {Addr : Type 0} where
  -- What is to be done with a question, after `n` aliases.
  pub data Verdict (s : Server Addr) (q : Query) (n : ℕ) : Type 0 where
    asks : IsMissing s q n → Verdict s q n
    answers :
        (rs : List ResourceRecord)
        → IsCached s q n rs
        → All IsRecord rs
        → length rs < 2 ^ 16
        → Verdict s q n
    refuses : IsBanned s q n → Verdict s q n
    empty : q.type ≢ type_a → q.type ≢ type_cname → q.type ≢ type_aaaa → Verdict s q n

  -- The bytes that go out, and whether they go to the client.
  unfoldable pub payload : {s : Server Addr} {q : Query} {n : ℕ} → Message → Verdict s q n → List ℕ
  payload {q = q} m (asks _) = message_bytes (trimmed (as_received m)) q
  payload {q = q} m (answers rs _ _ _) = message_bytes (reply_of m q 0 rs) q
  payload {q = q} m (refuses _) = message_bytes (reply_of m q 3 []) q
  payload {q = q} m (empty _ _ _) = message_bytes (reply_of m q 0 []) q

  unfoldable pub datagram :
      {s : Server Addr} {q : Query} {n : ℕ} → Message → Addr → Verdict s q n → Datagram Addr
  unfolding payload
  datagram {s = s} {q = q} {n = n} m address (asks x) =
      to_upstream (payload {s = s} {q = q} {n = n} m (asks x))
  datagram {s = s} {q = q} {n = n} m address (answers rs x y z) =
      to_client address (payload {s = s} {q = q} {n = n} m (answers rs x y z))
  datagram {s = s} {q = q} {n = n} m address (refuses x) =
      to_client address (payload {s = s} {q = q} {n = n} m (refuses x))
  datagram {s = s} {q = q} {n = n} m address (empty x y z) =
      to_client address (payload {s = s} {q = q} {n = n} m (empty x y z))

  -- Who waits under the question and the identifier afterwards.
  unfoldable pub waiting :
      {s : Server Addr} {q : Query} {n : ℕ} → Addr → Verdict s q n → Option Addr
  waiting address (asks _) = some address
  waiting address _ = none

  pub record Executes {s : Server Addr} {q : Query} {n : ℕ} (m : Message) (address : Addr)
      (v : Verdict s q n) (s' : Server Addr) : Type 0 where
    pub sends : s'.sent ≡ s.sent ++ datagram m address v ∷ []
    pub clients_valid : IsValid s'.clients
    pub clients :
        (f : Str)
        → view s'.clients f
          ≡ (if same (feature_bytes m q) f then waiting address v else view s.clients f)
    pub same_ipv4 : SameNodes s.ipv4 s'.ipv4
    pub same_ipv6 : s'.ipv6 ≡ s.ipv6
    pub same_cname : s'.cname ≡ s.cname

  absent_here :
      (s : Server Addr) (k f : Str)
      → view s.clients k ≡ none
      → view s.clients f ≡ (if same k f then none else view s.clients f)
  absent_here s k f absent = elim (Bool-cases (same k f)) [
    | inl z ↦ let k_is_f : k ≡ f = (string_equal_iff k f).0 z in rw z (rw (← k_is_f) absent)
    | inr z ↦ rw z refl
  ]

  module _ (s : Server Addr) (m : Message) (q : Query) (address : Addr) (n : ℕ) where
    Answered-Executes :
        {s' : Server Addr} (v : Verdict s q n)
        → view s.clients (feature_bytes m q) ≡ none
        → datagram m address v ≡ to_client address (payload m v)
        → waiting address v ≡ none
        → Answered s (payload m v) address s'
        → Executes m address v s'
    Answered-Executes v absent to nobody a = record {
      sends = a.replied ∙ rw to refl;
      clients_valid = a.clients_valid;
      clients = λ f. a.same_clients f ∙ rw nobody (absent_here s (feature_bytes m q) f absent);
      same_ipv4 = a.same_ipv4;
      same_ipv6 = a.same_ipv6;
      same_cname = a.same_cname;
    }

    pub bind_socket_read-Verdict :
        IsMessage m q
        → IsValid s.clients
        → IsValid s.ipv4
        → IsPlaced s.ipv6
        → IsPlaced s.cname
        → view s.clients (feature_bytes m q) ≡ none
        → s.clients.count < s.clients.threshold
        → (v : Verdict s q n) (fuel : ℕ) (block rest : List ℕ) → name_fuel ≤ fuel
        → n < fuel
        → length (payload m v) ≤ length block
        → Returns
            (bind_socket_read fuel block
              (length (message_bytes m q))
              (message_bytes m q ++ rest)
              address
              s)
            (Executes m address v)
    unfolding payload datagram waiting
    bind_socket_read-Verdict h valid p4 p6 pc absent roomy (asks x) fuel block rest enough far
          room =
        let (s', run, a) =
          bind_socket_read-Asks s m q address h valid p4.placed p6 pc n x fuel block rest enough far
            room in
        (
          s',
          run,
          record {
            sends = a.asked;
            clients_valid = a.clients_valid;
            clients = a.waits;
            same_ipv4 = λ f. ap (λ t. nodes (view t f)) a.same_ipv4;
            same_ipv6 = a.same_ipv6;
            same_cname = a.same_cname;
          },
        )
    bind_socket_read-Verdict h valid p4 p6 pc absent roomy (answers rs x good few) fuel block rest
          enough far room =
        let (s', run, a) =
          bind_socket_read-Answered s m q address n rs h x good few valid p4 p6 pc absent roomy fuel
            block rest enough far room in
        (s', run, Answered-Executes (answers rs x good few) absent refl refl a)
    bind_socket_read-Verdict h valid p4 p6 pc absent roomy (refuses x) fuel block rest enough far
          room =
        let (s', run, a) =
          bind_socket_read_refuses s m q address n h x valid p4 p6 pc absent roomy fuel block rest
            enough far room in
        (s', run, Answered-Executes (refuses x) absent refl refl a)
    bind_socket_read-Verdict h valid p4 p6 pc absent roomy (empty x y z) fuel block rest enough far
          room =
        let (s', run, a) =
          bind_socket_read_empty s m q address h x y z valid p4 absent roomy fuel block rest enough
            room in
        (s', run, Answered-Executes (empty x y z) absent refl refl a)
