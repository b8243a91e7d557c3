-- ===== src/Main.antt =====
-- main.c: the state that the event loop starts with, and the timer's callback.
-- The order of the callbacks is libuv's; each runs to its end.
pub mod Startup
pub mod Timer
pub mod Steps
pub mod Feature
pub mod Sends
pub mod Replies
pub mod Bans
pub mod Unmarked
pub mod Pinned
pub mod Exchange
pub mod Again
use post_dns.Base.{
  Option, some, List, ℕ, [], ◌≡◌, none, Bool, true, false, ◌==◌, if◌then◌else◌, Run, ok, ◌>>=◌,
  ◌>>◌,
}
use post_dns.Text.{Str}
use post_dns.HashTable.{hash_table_new, hash_table_free}
use post_dns.HashTable.Invariant.{view}
use post_dns.HashTable.Put.{hash_table_new_lem}
use post_dns.Cache.{
  Ipv4Cache, Ipv6Cache, CnameCache, ipv4_cache_clear, ipv6_cache_clear, cname_cache_clear,
  ipv4_cache_free, ipv6_cache_free, cname_cache_free,
}
use post_dns.Server.{Server}
use post_dns.Server.Forward.{AreValid}

abbrev pub sigint : ℕ
sigint = 2

-- The entries of each table that are released before the process ends.
pub record Released (Addr : Type 0) : Type 0 where
  pub clients : List (Str × Addr)
  pub ipv4 : List (Str × Ipv4Cache)
  pub ipv6 : List (Str × Ipv6Cache)
  pub cname : List (Str × CnameCache)

module _ {Addr : Type 0} where
  -- The tables after `socket_init` and the three `*_cache_init`, before the configuration file is read.
  unfoldable pub start : Server Addr
  start = record {
    clients = hash_table_new;
    ipv4 = hash_table_new;
    ipv6 = hash_table_new;
    cname = hash_table_new;
    sent = [];
  }

  unfoldable pub clear_callback : ℕ → Server Addr → Run (Server Addr)
  clear_callback now s = do
    ipv4 ← ipv4_cache_clear s.ipv4 now
    ipv6 ← ipv6_cache_clear s.ipv6 now
    ok (record s { ipv4 = ipv4; ipv6 = ipv6; cname = cname_cache_clear s.cname })

  -- `socket_free` also stops the two sockets.
  unfoldable pub socket_free : Server Addr → Run (List (Str × Addr))
  socket_free s = hash_table_free s.clients

  -- `none` where the process goes on.
  unfoldable pub sigint_callback : ℕ → Server Addr → Run (Option (Released Addr))
  unfolding socket_free
  sigint_callback signum s =
      if signum == sigint
      then (do
        clients ← socket_free s
        ipv4 ← ipv4_cache_free s.ipv4
        ipv6 ← ipv6_cache_free s.ipv6
        cname ← cname_cache_free s.cname
        ok (some (record { clients = clients; ipv4 = ipv4; ipv6 = ipv6; cname = cname })))
      else ok none

  -- All four tables are valid when the event loop starts, and no client waits.
  pub start-AreValid : AreValid start × ((f : Str) → view (start).clients f ≡ none)
  unfolding start
  start-AreValid = (
    record {
      clients = hash_table_new_lem.0;
      ipv4 = hash_table_new_lem.0;
      ipv6 = hash_table_new_lem.0;
      cname = hash_table_new_lem.0;
    },
    hash_table_new_lem.1,
  )
