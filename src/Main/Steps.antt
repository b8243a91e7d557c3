-- ===== src/Main/Steps.antt =====
-- main.c and socket.c: runs of the event loop, as steps of the three callbacks. Each event has the
-- datagram, the length that libuv reports, the time, and what `malloc` leaves in the block of a message
-- that is built.
use post_dns.Base.{◌%◌, ◌^◌, ◌≤◌, length, ℕ, suc, ◌≡◌, ◌⊎◌, List, [], ◌∷◌, take, Run, ok}
use post_dns.Text.{Str}
use post_dns.Message.{Message}
use post_dns.Message.Parse.{buf2message}
use post_dns.Message.Build.{message2buf, message2feature_string, feature_queries}
use post_dns.Server.{Server, Datagram, to_client, to_upstream, trimmed}
use post_dns.Server.Receive.{bind_socket_read, query_socket_read}
use post_dns.Main.{clear_callback}

pub data Event (Addr : Type 0) : Type 0 where
  from_client : Addr → List ℕ → ℕ → List ℕ → Event Addr
  from_upstream : List ℕ → ℕ → ℕ → List ℕ → Event Addr
  timer : ℕ → Event Addr

module _ {Addr : Type 0} where
  unfoldable pub handle : ℕ → Event Addr → Server Addr → Run (Server Addr)
  handle fuel (from_client address base n block) s = bind_socket_read fuel block n base address s
  handle fuel (from_upstream base n now block) s = query_socket_read fuel block now n base s
  handle fuel (timer now) s = clear_callback now s

  -- The events were handled one after the other, and each callback returned.
  pub data Reaches (fuel : ℕ) : Server Addr → List (Event Addr) → Server Addr → Type 0 where
    here : (s : Server Addr) → Reaches fuel s [] s
    next :
        (s t u : Server Addr) (e : Event Addr) (es : List (Event Addr))
        → handle fuel e s ≡ ok t
        → Reaches fuel t es u
        → Reaches fuel s (e ∷ es) u

  -- How many datagrams came in.
  unfoldable pub received : List (Event Addr) → ℕ
  received [] = 0
  received (from_client address base n block ∷ es) = suc (received es)
  received (from_upstream base n now block ∷ es) = suc (received es)
  received (timer now ∷ es) = received es

  -- The event is a datagram from a client that holds the message.
  abbrev pub Holds : ℕ → Event Addr → Addr → Message → Type 0
  Holds fuel (from_client a base n block) address m =
      (a ≡ address) × (buf2message fuel base n ≡ ok m)
  Holds fuel (from_upstream base n now block) address m = ⊥
  Holds fuel (timer now) address m = ⊥

  -- One of the events does.
  abbrev pub Came : ℕ → List (Event Addr) → Addr → Message → Type 0
  Came fuel [] address m = ⊥
  Came fuel (e ∷ es) address m = Holds fuel e address m ⊎ Came fuel es address m

-- The bytes are what `message2buf` makes of the message, and lie inside its block.
abbrev pub IsBuilt : Message → List ℕ → Type 0
IsBuilt m bytes =
    (block : List ℕ) × (len : ℕ) × (buf : List ℕ) × (message2buf block (trimmed m) ≡ ok (len, buf))
    × (len ≤ length buf)
    × (bytes ≡ take len buf)

-- Two messages have the same identifier, and the same bytes of their questions: the name, the class and
-- the type of each question, one behind the other.
abbrev pub SameFeature : Message → Message → Type 0
SameFeature m m' =
    (m.id % 2 ^ 16 ≡ m'.id % 2 ^ 16)
    × (questions : Str) × (feature_queries m.query_count m.queries ≡ ok questions)
    × (feature_queries m'.query_count m'.queries ≡ ok questions)

module _ {Addr : Type 0} (Asked : Addr → Message → Type 0) where
  -- What goes to a client has the identifier and the questions' bytes of a message of that client's, and
  -- what goes to the upstream server is a client's message.
  abbrev pub IsProper : Datagram Addr → Type 0
  IsProper (to_client address bytes) =
      (m : Message) × (m' : Message) × Asked address m × SameFeature m m' × IsBuilt m' bytes
  IsProper (to_upstream bytes) =
      (address : Addr) × (m : Message) × Asked address m × IsBuilt m bytes

  -- The key of an entry of the clients' table is of a message of that client's.
  abbrev pub IsWaiting : Str → Addr → Type 0
  IsWaiting k address = (m : Message) × Asked address m × (message2feature_string m ≡ ok k)
