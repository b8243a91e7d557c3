-- ===== src/Message/Log.antt =====
-- message.c and utils.c: what `message_log` prints, read back.
use post_dns.Base.{
  ℕ, ◌+◌, ◌-◌, ◌/◌, ◌%◌, ◌^◌, ◌<◌, ◌≡◌, ◌≢◌, refl, ap, ◌∙◌, arith, List, [], ◌∷◌, ◌++◌, Bool, true,
  false, ltb, ◌==◌, ◌&&◌, if◌then◌else◌, length, All, All-append, Returns,
}
use mathlib.Core.List.{map, map-append}
use post_dns.Text.{Str, c_string, string_print}
use post_dns.Address.{
  decimal, inet4address2string, hex_digit, hex_byte, inet6_loop, inet6address2string,
}
use post_dns.Address.Dotted.{dotted_value, inet4address2string-dotted_value}
use post_dns.Address.Colon.{
  has_colon, inet4address2string_has_no_colon, inet6address2string-has_colon,
}
use post_dns.Address.Hex.{hex_value, without_colons, inet6address2string-hex_value}
use post_dns.Message.{
  Query, ResponseData, address4, domain, address6, unset, ResourceRecord, Message,
}
use post_dns.Message.Release.{LogLine, query_line, address_line, domain_line, printed, message_log}
use post_dns.Message.Labels.{IsName, c_string_lem}
use post_dns.Message.Name.{IsName-no_nul}
use post_dns.Message.Record.{IsRecord, IsData}
use post_dns.Message.Written.{IsMessage}
use post_dns.Message.Readable.{value_line, answer_lines}
use post_dns.Message.Logged.{message_log_lem}

-- A text without NUL.
abbrev IsText : Str → Type 0
IsText s = All (λ c. c ≢ 0) s

c_string-terminated : (s : Str) → IsText s → c_string (s ++ 0 ∷ []) ≡ s
unfolding c_string
c_string-terminated [] h = refl
c_string-terminated (c ∷ s) h = ground (arith, c_string-terminated s)

printed_lem : (s : Str) → IsText s → printed s ≡ s
unfolding string_print
printed_lem s h =
    let one : length s + 1 - length s ≡ 1 = omega arith in
    rw (c_string_lem s h, one) (c_string-terminated s h)

if-IsText : (b : Bool) (s s' : Str) → IsText s → IsText s' → IsText (if b then s else s')
if-IsText true s s' h h' = h
if-IsText false s s' h h' = h'

digit_is_not_0 : (n : ℕ) → n + b'0' ≢ 0
digit_is_not_0 n e = omega (arith, e)

decimal-IsText : (n : ℕ) → IsText (decimal n)
unfolding decimal
decimal-IsText n =
    if-IsText (ltb n 10) _ _ (digit_is_not_0 n, tt)
      (if-IsText (ltb n 100) _ _ (digit_is_not_0 (n / 10), (digit_is_not_0 (n % 10), tt))
        (digit_is_not_0 (n / 100), (digit_is_not_0 (n / 10 % 10), (digit_is_not_0 (n % 10), tt))))

group-IsText : (n : ℕ) (s : Str) → IsText s → IsText (decimal n ++ (b'.' ∷ s))
group-IsText n s h =
    All-append (λ c. c ≢ 0) (decimal n) (b'.' ∷ s) (decimal-IsText n) ((λ e. omega (arith, e)), h)

inet4address2string-IsText : (a : ℕ) → IsText (inet4address2string a)
unfolding inet4address2string
inet4address2string-IsText a = group-IsText (a / 2 ^ 24 % 256) _ (
    group-IsText (a / 2 ^ 16 % 256) _ (group-IsText (a / 2 ^ 8 % 256) _ (decimal-IsText (a % 256))))

hex_digit_is_not_0 : (n : ℕ) → hex_digit n ≢ 0
unfolding hex_digit
hex_digit_is_not_0 n e = ground arith

inet6_loop-IsText : (i : ℕ) (bs : List ℕ) → IsText (inet6_loop i bs)
unfolding inet6_loop hex_byte
inet6_loop-IsText i [] = tt
inet6_loop-IsText i (b ∷ bs) = (
  hex_digit_is_not_0 (b / 16),
  (
    hex_digit_is_not_0 (b % 16),
    All-append (λ c. c ≢ 0) (if ltb i 15 && i % 2 == 1 then b':' ∷ [] else [])
        (inet6_loop (i + 1) bs)
        (if-IsText (ltb i 15 && i % 2 == 1) _ _ ((λ e. omega (arith, e)), tt) tt)
        (inet6_loop-IsText (i + 1) bs),
  ),
)

inet6address2string-IsText : (bs : List ℕ) → IsText (inet6address2string bs)
unfolding inet6address2string
inet6address2string-IsText bs = inet6_loop-IsText 0 bs

-- The name and the value that a line is about. A text with a colon is of an IPv6 address.
unfoldable pub shown : LogLine → Str × ResponseData
unfolding dotted_value hex_value without_colons has_colon
shown (query_line name) = (name, unset)
shown (address_line name text) = (
  name,
  if has_colon text
      then address6 (hex_value (without_colons text))
      else address4 (dotted_value (0, 0) text),
)
shown (domain_line name text) = (name, domain text)

-- The bytes of an IPv6 address are bytes.
abbrev pub HasBytes : ResponseData → Type 0
HasBytes (address6 bs) = All (λ b. b < 256) bs
HasBytes _ = Unit

value_line-shown :
    (name : Str) (type : ℕ) (value : ResponseData)
    → IsName name
    → IsData type value
    → HasBytes value
    → map shown (value_line name value) ≡ (name, value) ∷ []
unfolding shown
value_line-shown name type (address4 a) n (_, small) _ =
    rw
      (
        printed_lem name (IsName-no_nul name n),
        printed_lem (inet4address2string a) (inet4address2string-IsText a),
        inet4address2string_has_no_colon a,
        (inet4address2string-dotted_value a small).0,
      )
      refl
value_line-shown name type (domain s) n (_, h) _ =
    rw (printed_lem name (IsName-no_nul name n), printed_lem s (IsName-no_nul s h)) refl
value_line-shown name type (address6 bs) n (_, size) bytes =
    rw
      (
        printed_lem name (IsName-no_nul name n),
        printed_lem (inet6address2string bs) (inet6address2string-IsText bs),
        inet6address2string-has_colon bs size,
        (inet6address2string-hex_value bs size bytes).0,
      )
      refl
value_line-shown name type unset n h _ = absurd h

answer_lines-shown :
    (rs : List ResourceRecord)
    → All IsRecord rs
    → All (λ r. HasBytes r.response_data) rs
    → map shown (answer_lines rs) ≡ map (λ r. (r.name, r.response_data)) rs
unfolding answer_lines
answer_lines-shown [] h bytes = refl
answer_lines-shown (r ∷ rs) (h, hs) (b, bs) =
    map-append shown (value_line r.name r.response_data) (answer_lines rs)
    ∙ rw (value_line-shown r.name r.type r.response_data h.name h.value b)
        (ap (λ s. (r.name, r.response_data) ∷ s) (answer_lines-shown rs hs bs))

-- `message_log` of a well-formed message with one question, whose IPv6 addresses consist of bytes,
-- reads nothing that it must not, and what it hands to `log_debug` tells the message: read back, the
-- lines are the name of the question and then the name and the value of every record, in order.
-- Lines about A and AAAA records have the same text, and the address tells which it is: with a colon
-- in it, it is read as hexadecimal digits, else as a dotted decimal.
pub message_log-shown :
    (m : Message) (q : Query)
    → IsMessage m q
    → All (λ r. HasBytes r.response_data) m.answers
    → Returns
        (message_log m)
        λ lines. map shown lines ≡ (q.name, unset) ∷ map (λ r. (r.name, r.response_data)) m.answers
unfolding shown
message_log-shown m q h bytes = (
  query_line (printed q.name) ∷ answer_lines m.answers,
  message_log_lem m q h,
  rw (printed_lem q.name (IsName-no_nul q.name h.query.name))
      (ap (λ s. (q.name, unset) ∷ s) (answer_lines-shown m.answers h.answers bytes)),
)
