-- ===== src/Server/Agreement.antt =====
-- socket.c: aliases and answers in both loops of `bind_socket_read`, from one table of aliases.
use post_dns.Base.{
  append_assoc, append-nil, sym, ap, ℕ, zero, suc, ◌+◌, ◌≤◌, ◌≡◌, refl, ◌∙◌, arith, List, [], ◌∷◌,
  ◌++◌, Option, none, some, lt→ltb, length, length-append, Run, ok, Returns, >>=-eq-ok, bind_ok,
}
use post_dns.Text.{Str}
use post_dns.HashTable.{HashTable}
use post_dns.Cache.{CnameCache, cname_cache_get}
use post_dns.Message.{ResourceRecord}
use post_dns.Server.{generate_cname_response}
use post_dns.Server.Lookup.{count_aliases}
use post_dns.Server.Reply.{push_answer, push_answers, answer_aliases}

pub push_answer_lem :
    (limit : ℕ) (answers : List ResourceRecord) (r : ResourceRecord)
    → suc (length answers) ≤ limit
    → push_answer limit answers r ≡ ok (answers ++ r ∷ [])
unfolding push_answer
push_answer_lem limit answers r h = rw (lt→ltb (length answers) limit h) refl

pub push_answers-append :
    (limit : ℕ) (rs answers : List ResourceRecord)
    → length answers + length rs ≤ limit
    → push_answers limit answers rs ≡ ok (answers ++ rs)
unfolding push_answers
push_answers-append limit [] answers h = ap ok (sym (append-nil answers))
push_answers-append limit (r ∷ rs) answers h =
    let grown = length-append answers (r ∷ []) in
    bind_ok _ _ (push_answer_lem limit answers r (omega arith)) (
      push_answers-append limit rs (answers ++ r ∷ []) (omega (arith, grown))
      ∙ ap ok (append_assoc answers (r ∷ []) rs))

pub push_answers_lem :
    (limit : ℕ) (rs answers : List ResourceRecord)
    → length answers + length rs ≤ limit
    → Returns
        (push_answers limit answers rs)
        λ answers'. length answers' ≡ length answers + length rs
push_answers_lem limit rs answers h =
    (answers ++ rs, push_answers-append limit rs answers h, length-append answers rs)

-- Both loops follow the same aliases.
abbrev pub Follows : ℕ → HashTable CnameCache → Str → ℕ → ℕ → Str → Type 0
Follows fuel cname d k k' d' =
    (k ≤ k')
    × ((limit : ℕ) (answers : List ResourceRecord)
        → length answers ≡ k
        → k' ≤ limit
        → Returns (answer_aliases fuel cname limit d answers)
            λ (e, answers'). (e ≡ d') × (length answers' ≡ k'))

-- What the first loop does with what the cache holds for a domain.
abbrev alias_step : ℕ → HashTable CnameCache → Str → ℕ → Option CnameCache → Run (ℕ × Str)
alias_step fuel cname d k none = ok (k, d)
alias_step fuel cname d k (some c) = count_aliases fuel cname c.name (k + 1)

follow :
    (fuel : ℕ) (cname : HashTable CnameCache) (d : Str) (k : ℕ) {k' : ℕ} {d' : Str}
    (found : Option CnameCache)
    → cname_cache_get cname d ≡ ok found
    → ((d₁ : Str)
        → count_aliases fuel cname d₁ (k + 1) ≡ ok (k', d')
        → Follows fuel cname d₁ (k + 1) k' d')
    → alias_step fuel cname d k found ≡ ok (k', d')
    → Follows (suc fuel) cname d k k' d'
unfolding answer_aliases
follow fuel cname d k {k' = k'} {d' = d'} none run rest h =
    let e₁ : k ≡ k' = cc in
    let e₂ : d ≡ d' = cc in
    (omega arith, λ limit answers size room. ((d, answers), bind_ok _ _ run refl, (e₂, size ∙ e₁)))
follow fuel cname d k (some c) run rest h =
    let (grows, writes) = rest c.name h in
    (
      omega arith,
      λ limit answers size room.
          let r = generate_cname_response d c.name in
          let grown = length-append answers (r ∷ []) in
          let (result, run', same) = writes limit (answers ++ r ∷ []) (omega (arith, grown)) room in
          (
            result,
            bind_ok _ _ run (bind_ok _ _ (push_answer_lem limit answers r (omega arith)) run'),
            same,
          ),
    )

pub count_aliases-Follows :
    (fuel : ℕ) (cname : HashTable CnameCache) (d : Str) (k : ℕ) {k' : ℕ} {d' : Str}
    → count_aliases fuel cname d k ≡ ok (k', d')
    → Follows fuel cname d k k' d'
unfolding count_aliases
count_aliases-Follows zero cname d k h = absurd (cc)
count_aliases-Follows (suc fuel) cname d k h =
    let (found, run, h') = >>=-eq-ok (cname_cache_get cname d) (alias_step fuel cname d k) (h) in
    follow fuel cname d k found run (λ d₁ h₁. count_aliases-Follows fuel cname d₁ (k + 1) h₁) h'
