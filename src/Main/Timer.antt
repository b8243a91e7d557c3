-- ===== src/Main/Timer.antt =====
-- main.c: the callbacks of the timer and of the signal, on the tables of the running server.
use mathlib.Core.Bool.{not}
use post_dns.HashTable.Rows.{all_entries}
use post_dns.Base.{◌+◌, ltb, ◌&&◌, some, none, ℕ, ◌≡◌, ◌≢◌, refl, ==-eq-false, ok, Returns, bind_ok}
use post_dns.Text.{Str}
use post_dns.HashTable.Invariant.{view}
use post_dns.HashTable.Free.{hash_table_free_lem}
use post_dns.Cache.{
  ipv4_expired, ipv6_expired, ipv4_cache_clear, ipv6_cache_clear, cname_cache_clear,
  ipv4_cache_free, ipv6_cache_free, cname_cache_free,
}
use post_dns.Cache.Clear.{IsShort, fresh, clear_lem}
use post_dns.Server.{Server}
use post_dns.Server.Forward.{AreValid}
use post_dns.Main.{clear_callback, sigint_callback, socket_free, sigint}

module _ {Addr : Type 0} where
  pub record Expires (now : ℕ) (s s' : Server Addr) : Type 0 where
    pub valid : AreValid s'
    pub ipv4 :
        (q : Str)
        → view s'.ipv4 q
          ≡ fresh (λ c. not c.manual && ltb (c.timestamp + c.ttl) now) (view s.ipv4 q)
    pub ipv6 :
        (q : Str) → view s'.ipv6 q ≡ fresh (λ c. ltb (c.timestamp + c.ttl) now) (view s.ipv6 q)
    pub same_cname : s'.cname ≡ s.cname
    pub same_clients : s'.clients ≡ s.clients
    pub same_sent : s'.sent ≡ s.sent

  -- With four valid tables, and two entries at most in each bucket of the two caches of addresses,
  -- the timer's callback returns, with valid tables: gone are exactly the IPv4 entries that are not
  -- manual and the IPv6 entries for which the time is past the sum of timestamp and TTL, and nothing
  -- else has changed.
  pub clear_callback_lem :
      (now : ℕ) (s : Server Addr)
      → AreValid s
      → IsShort s.ipv4
      → IsShort s.ipv6
      → Returns (clear_callback now s) (Expires now s)
  unfolding clear_callback ipv4_cache_clear ipv6_cache_clear cname_cache_clear ipv4_expired
      ipv6_expired
  clear_callback_lem now s valid short4 short6 =
      let (ipv4, run4, (valid4, reads4)) = clear_lem (ipv4_expired now) s.ipv4 valid.ipv4 short4 in
      let (ipv6, run6, (valid6, reads6)) = clear_lem (ipv6_expired now) s.ipv6 valid.ipv6 short6 in
      (
        record s { ipv4 = ipv4; ipv6 = ipv6 },
        bind_ok _ _ run4 (bind_ok _ _ run6 refl),
        record {
          valid = record {
            clients = valid.clients;
            ipv4 = valid4;
            ipv6 = valid6;
            cname = valid.cname;
          };
          ipv4 = reads4;
          ipv6 = reads6;
          same_cname = refl;
          same_clients = refl;
          same_sent = refl;
        },
      )

  -- On four valid tables SIGINT releases the name and the data of every entry of all four, each
  -- once, without reading a node that is freed, and ends the process. Any other signal does nothing.
  pub sigint_callback_lem :
      (s : Server Addr)
      → AreValid s
      → (sigint_callback sigint s
          ≡ ok (
              some (record {
                clients = all_entries s.clients.table;
                ipv4 = all_entries s.ipv4.table;
                ipv6 = all_entries s.ipv6.table;
                cname = all_entries s.cname.table;
              })))
        × ((signum : ℕ) → signum ≢ sigint → sigint_callback signum s ≡ ok none)
  unfolding sigint_callback socket_free ipv4_cache_free ipv6_cache_free cname_cache_free
  sigint_callback_lem s valid = (
    bind_ok _ _ (hash_table_free_lem s.clients valid.clients.placed) (
        bind_ok _ _ (hash_table_free_lem s.ipv4 valid.ipv4.placed) (
          bind_ok _ _ (hash_table_free_lem s.ipv6 valid.ipv6.placed)
            (bind_ok _ _ (hash_table_free_lem s.cname valid.cname.placed) refl))),
    λ signum other. rw (==-eq-false signum sigint other) refl,
  )
