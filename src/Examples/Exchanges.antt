-- ===== src/Examples/Exchanges.antt =====
-- Tests of exchanges with the upstream server.
use post_dns.Base.{
  Bool-cases, inl, inr, ℕ, ◌≤◌, ◌<◌, ◌≡◌, refl, sym, ◌∙◌, arith, List, [], ◌∷◌, ◌++◌, some, none,
  length, replicate, ok, Returns,
}
use mathlib.Core.List.{map}
use post_dns.Text.{Str, string_split, string_dup}
use post_dns.Text.Murmur.{string_hash_code}
use post_dns.HashTable.{index, hash_table_new, hash_table_put, replace, add_node, grow}
use post_dns.HashTable.Chain.{same}
use post_dns.HashTable.Invariant.{view}
use post_dns.HashTable.Put.{Stores, hash_table_new_lem, hash_table_put_lem}
use post_dns.Cache.{Ipv4Cache}
use post_dns.Message.{Query, ResourceRecord, Message, address4}
use post_dns.Message.Labels.{wire}
use post_dns.Message.Header.{header_bytes}
use post_dns.Message.Record.{record_bytes}
use post_dns.Message.Written.{IsMessage, message_bytes, answer_bytes}
use post_dns.Message.RoundTrip.{as_received}
use post_dns.Server.{Server, to_client, to_upstream, trimmed}
use post_dns.Server.Receive.{bind_socket_read}
use post_dns.Server.Send.{feature_bytes}
use post_dns.Server.Aliases.{here, alias_records}
use post_dns.Server.Cached.{cached4, cached_alias, cached6}
use post_dns.Server.Verdict.{Verdict, asks, answers, refuses, empty, payload, Executes}
use post_dns.Server.Decide.{AreClean, verdict, bind_socket_read-verdict}
use post_dns.Server.Collect.{addresses4, addresses6, name4, name6, aliases}
use post_dns.Server.Ask.{no_address4}
use post_dns.Server.Forward.{AreValid, learned4}
use post_dns.Server.Answers.{a_record}
use post_dns.Text.{string_dup}
use post_dns.Server.Answered.{reply_of, Answered}
use post_dns.Server.Answer.{bind_socket_read_empty}
use post_dns.Main.{start}
use post_dns.Main.Steps.{Reaches}
use post_dns.Main.Exchange.{question_event, answer_event, Exchanged, Reaches-Exchanged}
use post_dns.Main.Again.{bind_socket_read-Exchanged}
use post_dns.Examples.{
  name_a, name_a-IsName, one, one-IsValid, empty-IsValid, plain, request, request-IsHeader,
  question_a, question-IsQuery, request-IsMessage,
}

abbrev block : List ℕ
block = replicate 128 0xcc

abbrev client : ℕ
client = 42

abbrev beginning : Server ℕ
beginning = start

-- The answer to the question: one address.
abbrev address_a : ResourceRecord
address_a = record {
  name = name_a;
  type = 1;
  class = 1;
  ttl = 60;
  response_data_length = 4;
  response_data = address4 7;
}

abbrev reply : Message
reply = record request {
  flags = record plain { qr = 1; ra = 1 };
  answer_count = 1;
  answers = address_a ∷ [];
}

reply-IsMessage : IsMessage reply question_a
reply-IsMessage = record {
  header = record {
    flags = record {
      qr = omega arith;
      opcode = omega arith;
      aa = omega arith;
      tc = omega arith;
      rd = omega arith;
      ra = omega arith;
      z = omega arith;
      rcode = omega arith;
    };
    id = omega arith;
    query_count = omega arith;
    answer_count = omega arith;
    authority_count = omega arith;
    additional_count = omega arith;
  };
  one = refl;
  asked = refl;
  query = question-IsQuery;
  answers = (
    record {
      name = name_a-IsName;
      class = omega arith;
      ttl = omega arith;
      value = (refl, omega arith);
      len = refl;
    },
    tt,
  );
  counted = refl;
}

beginning-AreValid : AreValid beginning
unfolding start
beginning-AreValid = record {
  clients = empty-IsValid;
  ipv4 = empty-IsValid;
  ipv6 = empty-IsValid;
  cname = empty-IsValid;
}

nobody_waits : view beginning.clients (feature_bytes request question_a) ≡ none
unfolding start
nobody_waits = hash_table_new_lem.1 (feature_bytes request question_a)

few_clients : beginning.clients.count < beginning.clients.threshold
unfolding start hash_table_new
few_clients = omega arith

no_alias : view beginning.cname name_a ≡ none
unfolding start
no_alias = hash_table_new_lem.1 name_a

no_entry : view beginning.ipv4 name_a ≡ none
unfolding start
no_entry = hash_table_new_lem.1 name_a

request_room : length (message_bytes (trimmed (as_received request)) question_a) ≤ length block
unfolding header_bytes wire string_split answer_bytes record_bytes
request_room = omega arith

reply_room : length (message_bytes (trimmed (as_received reply)) question_a) ≤ length block
unfolding header_bytes wire string_split answer_bytes record_bytes
reply_room = omega arith

Reaches-Exchanged_example :
    (s' : Server ℕ) × Reaches 300 beginning
      (question_event request question_a client block (7 ∷ [])
        ∷ answer_event reply question_a 1000 block []
        ∷ [])
      s'
    × Exchanged 1000 request reply question_a client beginning s'
Reaches-Exchanged_example =
    Reaches-Exchanged beginning request reply question_a client request-IsMessage reply-IsMessage
      refl beginning-AreValid nobody_waits few_clients 0
      (no_address4 name_a (here name_a) refl no_alias no_entry) 300 1000 block (7 ∷ []) block []
      (omega arith) (omega arith) request_room reply_room

-- The caches after the exchange.
abbrev learning : Server ℕ
learning = record beginning {
  ipv4 = one (learned4 1000 (7 ∷ []));
  sent =
      to_upstream (message_bytes (trimmed (as_received request)) question_a)
      ∷ to_client client (message_bytes (trimmed (as_received reply)) question_a)
      ∷ [];
}

one-Stores : (c : Ipv4Cache) → Stores hash_table_new name_a c (one c)
unfolding hash_table_put hash_table_new index string_hash_code add_node replace grow
one-Stores c =
    let put : hash_table_put hash_table_new (some name_a) (some c) ≡ ok (one c) = refl in
    let (t, run, (valid, stores)) = hash_table_put_lem hash_table_new name_a c empty-IsValid in
    let same_table : t ≡ one c = (let e = sym run ∙ put in cc) in rw (← same_table) stores

learning-Exchanged : Exchanged 1000 request reply question_a client beginning learning
unfolding start addresses4 addresses6 name4 name6 aliases
learning-Exchanged = record {
  valid = record {
    clients = empty-IsValid;
    ipv4 = one-IsValid (learned4 1000 (7 ∷ []));
    ipv6 = empty-IsValid;
    cname = empty-IsValid;
  };
  same_clients = λ f. refl;
  ipv4 = rw (hash_table_new_lem.1 name_a) (one-Stores (learned4 1000 (7 ∷ [])));
  ipv6 = refl;
  cname = λ d. refl;
  sent = refl;
}

again_room :
    length (
      message_bytes
        (reply_of request question_a 0 (map (a_record name_a) (addresses4 reply.answers)))
        question_a)
    ≤ length block
unfolding header_bytes wire string_split answer_bytes record_bytes addresses4 string_dup
again_room = omega arith

named : name4 none reply.answers ≡ some name_a
unfolding name4
named = refl

unaliased : aliases 1000 name_a reply.answers (view beginning.cname name_a) ≡ none
unfolding aliases
unaliased = no_alias

bind_socket_read-Exchanged_example :
    Returns
      (bind_socket_read 300 block
        (length (message_bytes request question_a))
        (message_bytes request question_a ++ 7 ∷ [])
        client
        learning)
      (Answered learning
        (message_bytes
          (reply_of request question_a 0 (map (a_record name_a) (addresses4 reply.answers)))
          question_a)
        client)
unfolding addresses4
bind_socket_read-Exchanged_example =
    bind_socket_read-Exchanged beginning learning 1000 request reply question_a client
      learning-Exchanged reply-IsMessage no_entry refl named unaliased 7 refl
      (λ e. omega (arith, e)) request client request-IsMessage nobody_waits few_clients 300 block
      (7 ∷ []) (omega arith) again_room

-- A question of type 15.
abbrev question_mx : Query
question_mx = record { name = name_a; type = 15; class = 1 }

abbrev request_mx : Message
request_mx = record request { queries = question_mx ∷ [] }

request_mx-IsMessage : IsMessage request_mx question_mx
request_mx-IsMessage = record {
  header = record {
    flags = request-IsHeader.flags;
    id = omega arith;
    query_count = omega arith;
    answer_count = omega arith;
    authority_count = omega arith;
    additional_count = omega arith;
  };
  one = refl;
  asked = refl;
  query = record { name = name_a-IsName; type = omega arith; class = omega arith };
  answers = tt;
  counted = refl;
}

nobody_waits_mx : view beginning.clients (feature_bytes request_mx question_mx) ≡ none
unfolding start
nobody_waits_mx = hash_table_new_lem.1 (feature_bytes request_mx question_mx)

empty_room :
    length (message_bytes (reply_of request_mx question_mx 0 []) question_mx) ≤ length block
unfolding header_bytes wire string_split answer_bytes record_bytes
empty_room = omega arith

bind_socket_read_empty_example :
    Returns
      (bind_socket_read 300 block
        (length (message_bytes request_mx question_mx))
        (message_bytes request_mx question_mx ++ 7 ∷ [])
        client
        beginning)
      (Answered beginning (message_bytes (reply_of request_mx question_mx 0 []) question_mx) client)
bind_socket_read_empty_example =
    bind_socket_read_empty beginning request_mx question_mx client request_mx-IsMessage
      (λ e. omega (arith, e)) (λ e. omega (arith, e)) (λ e. omega (arith, e))
      beginning-AreValid.clients beginning-AreValid.ipv4 nobody_waits_mx few_clients 300 block
      (7 ∷ []) (omega arith) empty_room

-- What a table of one entry holds.
one_holds : (c c' : Ipv4Cache) (d : Str) → view (one c) d ≡ some c' → c ≡ c'
one_holds c c' d e = elim (Bool-cases (same name_a d)) [
  | inl z ↦ let same_entry : some c' ≡ some c = sym e ∙ one-Stores c d ∙ rw z refl in cc
  | inr z ↦
      absurd
        (let gone : some c' ≡ none = sym e ∙ one-Stores c d ∙ rw z (hash_table_new_lem.1 d) in cc)
]

learning-AreClean : AreClean learning 0
unfolding start
learning-AreClean = record {
  named = λ d c e. absurd (let gone = sym e ∙ hash_table_new_lem.1 d in cc);
  addressed = λ d c e. rw (← one_holds (learned4 1000 (7 ∷ [])) c d e) (7, refl);
  words = λ d c e. rw (← one_holds (learned4 1000 (7 ∷ [])) c d e) (omega arith, tt);
  few4 = λ d c e. rw (← one_holds (learned4 1000 (7 ∷ [])) c d e) (omega arith);
  blocks = λ d c e. absurd (let gone = sym e ∙ hash_table_new_lem.1 d in cc);
  few6 = λ d c e. absurd (let gone = sym e ∙ hash_table_new_lem.1 d in cc);
  few = omega arith;
}

refusal_room :
    (code : ℕ)
    → length (message_bytes (reply_of request question_a code []) question_a) ≤ length block
unfolding header_bytes wire string_split answer_bytes record_bytes
refusal_room code = omega arith

payload_room : (v : Verdict learning question_a 0) → length (payload request v) ≤ length block
unfolding payload alias_records string_dup
payload_room (asks _) = request_room
payload_room (refuses _) = refusal_room 3
payload_room (empty _ _ _) = refusal_room 0
payload_room (answers rs (cached4 d (here _) c a t end held first some_address all) _ _) =
    rw (all, ← one_holds (learned4 1000 (7 ∷ [])) c name_a held) (unfold addresses4 in again_room)
payload_room (answers rs (cached_alias d l c t end held all) _ _) = absurd (omega (arith, t))
payload_room (answers rs (cached6 d l c t end held all) _ _) = absurd (omega (arith, t))

abbrev decided : Verdict learning question_a 0
decided =
    verdict learning question_a 0 name_a learning-AreClean (here name_a) no_alias
      request-IsMessage.query.name

bind_socket_read-verdict_example :
    Returns
      (bind_socket_read 300 block
        (length (message_bytes request question_a))
        (message_bytes request question_a ++ 7 ∷ [])
        client
        learning)
      (Executes request client decided)
bind_socket_read-verdict_example =
    bind_socket_read-verdict learning request question_a client 0 name_a request-IsMessage
      learning-AreClean (here name_a) no_alias learning-Exchanged.valid.clients
      learning-Exchanged.valid.ipv4 learning-Exchanged.valid.ipv6.placed
      learning-Exchanged.valid.cname.placed nobody_waits few_clients 300 block (7 ∷ [])
      (omega arith) (omega arith) (payload_room decided)
