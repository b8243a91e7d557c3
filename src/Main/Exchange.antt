-- ===== src/Main/Exchange.antt =====
-- socket.c: a question that goes to the upstream server, and its answer.
use post_dns.Base.{
  ℕ, ◌≤◌, ◌<◌, ◌≡◌, refl, ap, ◌∙◌, List, [], ◌∷◌, ◌++◌, append_assoc, none, some, Bool-cases, inl,
  inr, length,
}
use mathlib.Core.Path.{subst}
use post_dns.Text.{Str}
use post_dns.Text.Equal.{string_equal_iff, string_equal_refl}
use post_dns.Words.{bytes16}
use post_dns.HashTable.Chain.{same}
use post_dns.HashTable.Invariant.{view}
use post_dns.Message.{Query, Message}
use post_dns.Message.Parse.{name_fuel}
use post_dns.Message.Written.{IsMessage, message_bytes}
use post_dns.Message.RoundTrip.{as_received}
use post_dns.Server.{Server, to_client, to_upstream, trimmed}
use post_dns.Server.Aliases.{here}
use post_dns.Server.Send.{feature_bytes}
use post_dns.Server.Collect.{addresses4, addresses6, name4, name6, aliases}
use post_dns.Server.Ask.{IsMissing, bind_socket_read-Asks}
use post_dns.Server.Forward.{AreValid, Learns4, Learns6, query_socket_read-Forwards}
use post_dns.Main.Steps.{Event, from_client, from_upstream, handle, Reaches, here, next}

feature-same : (m r : Message) (q : Query) → r.id ≡ m.id → feature_bytes r q ≡ feature_bytes m q
feature-same m r q e =
    ap (λ (i : ℕ). (q.name ++ bytes16 q.class ++ bytes16 q.type ++ []) ++ bytes16 i) e

module _ {Addr : Type 0} where
  abbrev pub question_event : Message → Query → Addr → List ℕ → List ℕ → Event Addr
  question_event m q address block rest =
      from_client address (message_bytes m q ++ rest) (length (message_bytes m q)) block

  abbrev pub answer_event : Message → Query → ℕ → List ℕ → List ℕ → Event Addr
  answer_event r q now block rest =
      from_upstream (message_bytes r q ++ rest) (length (message_bytes r q)) now block

  -- What a question and its answer leave.
  pub record Exchanged (now : ℕ) (m r : Message) (q : Query) (address : Addr) (s s' : Server Addr)
      : Type 0 where
    pub valid : AreValid s'
    pub same_clients : (f : Str) → view s'.clients f ≡ view s.clients f
    pub ipv4 :
        Learns4 now
          (name4 none (as_received r).answers)
          (addresses4 (as_received r).answers)
          s.ipv4
          s'.ipv4
    pub ipv6 :
        Learns6 now
          (name6 none (as_received r).answers)
          (addresses6 (as_received r).answers)
          s.ipv6
          s'.ipv6
    pub cname : (d : Str) → view s'.cname d ≡ aliases now d (as_received r).answers (view s.cname d)
    pub sent :
        s'.sent
        ≡ s.sent
          ++ to_upstream (message_bytes (trimmed (as_received m)) q)
            ∷ to_client address (message_bytes (trimmed (as_received r)) q)
            ∷ []

  -- A question and its answer, as two steps of the event loop. From valid tables, a client's
  -- well-formed message with one question, of a type that is handled and for which, behind `n`
  -- aliases, the caches have nothing, where nobody waits under the same question and identifier and
  -- the table of clients is below its limit, and then a well-formed message of the upstream server
  -- with the same question and identifier, with 257 rounds of fuel or more, more than `n`, and room
  -- in both blocks: both callbacks return and leave valid tables; the question was sent to the
  -- upstream server and the answer to the client, and nothing else; the table of clients reads as
  -- before; the IPv4 and the IPv6 addresses of the answer are stored under the name of the last
  -- record of their kind, where no manual IPv4 entry stands, and each alias under its name.
  pub Reaches-Exchanged :
      (s : Server Addr) (m r : Message) (q : Query) (address : Addr)
      → IsMessage m q
      → IsMessage r q
      → r.id ≡ m.id
      → AreValid s
      → view s.clients (feature_bytes m q) ≡ none
      → s.clients.count < s.clients.threshold
      → (n : ℕ) → IsMissing s q n
      → (fuel now : ℕ) (block rest block' rest' : List ℕ) → name_fuel ≤ fuel
      → n < fuel
      → length (message_bytes (trimmed (as_received m)) q) ≤ length block
      → length (message_bytes (trimmed (as_received r)) q) ≤ length block'
      → (s' : Server Addr) × Reaches fuel s
          (question_event m q address block rest ∷ answer_event r q now block' rest' ∷ [])
          s'
        × Exchanged now m r q address s s'
  unfolding handle
  Reaches-Exchanged s m r q address hm hr same_id valid absent roomy n missing fuel now block rest
        block' rest' enough far room room' =
      let k = feature_bytes m q in
      let same_key : feature_bytes r q ≡ k = feature-same m r q same_id in
      let (s₁, run₁, a) =
        bind_socket_read-Asks s m q address hm valid.clients valid.ipv4.placed valid.ipv6.placed
          valid.cname.placed n missing fuel block rest enough far room in
      let valid₁ : AreValid s₁ = record {
        clients = a.clients_valid;
        ipv4 = rw a.same_ipv4 valid.ipv4;
        ipv6 = rw a.same_ipv6 valid.ipv6;
        cname = rw a.same_cname valid.cname;
      } in
      let waits : view s₁.clients k ≡ some address = a.waits k ∙ rw (string_equal_refl k) refl in
      let safe = a.removable absent roomy in
      let (s₂, run₂, f) =
        query_socket_read-Forwards s₁ r q address hr valid₁ (rw same_key waits) (rw same_key safe)
          fuel now block' rest' enough room' in
      (
        s₂,
        next s s₁ s₂ (question_event m q address block rest)
            (answer_event r q now block' rest' ∷ []) run₁
            (next s₁ s₂ s₂ (answer_event r q now block' rest') [] run₂ (here s₂)),
        record {
          valid = f.valid;
          same_clients = λ g. elim (Bool-cases (same k g)) [
            | inl z ↦
                let k_is_g : k ≡ g = (string_equal_iff k g).0 z in
                f.forgotten g ∙ rw (same_key, z, ← k_is_g, absent) refl
            | inr z ↦ f.forgotten g ∙ rw (same_key, z, a.waits g, z) refl
          ];
          ipv4 =
              subst
                (λ t.
                  Learns4 now (name4 none (as_received r).answers)
                    (addresses4 (as_received r).answers) t s₂.ipv4)
                a.same_ipv4 f.ipv4;
          ipv6 =
              subst
                (λ t.
                  Learns6 now (name6 none (as_received r).answers)
                    (addresses6 (as_received r).answers) t s₂.ipv6)
                a.same_ipv6 f.ipv6;
          cname =
              λ d. f.cname d ∙ ap (aliases now d (as_received r).answers) (rw a.same_cname refl);
          sent =
              f.sent
              ∙ rw a.asked (
                  append_assoc s.sent (to_upstream (message_bytes (trimmed (as_received m)) q) ∷ [])
                    (to_client address (message_bytes (trimmed (as_received r)) q) ∷ []));
        },
      )
