-- ===== src/Examples.antt =====
-- Concrete data for the tests: names, tables and messages.
pub mod Tables
pub mod Messages
pub mod Serving
pub mod Running
pub mod Exchanges
use post_dns.Base.{
  ℕ, List, [], ◌∷◌, Option, some, none, Run, ok, ◌≡◌, refl, ◌∙◌, sym, ap, arith, All,
}
use post_dns.Text.{Str, string_split}
use post_dns.Text.Murmur.{string_hash_code}
use post_dns.HashTable.{
  HashNode, null, cell, HashTable, empty_node, index, hash_table_new, add_node, replace, grow,
  hash_table_put,
}
use post_dns.HashTable.Invariant.{view, IsValid}
use post_dns.HashTable.Put.{hash_table_new_lem, hash_table_put_lem}
use post_dns.Message.{
  Flags, Query, ResponseData, address4, domain, ResourceRecord, Message, type_a, type_cname,
}
use post_dns.Message.Labels.{IsName}
use post_dns.Message.Header.{IsHeader}
use post_dns.Message.Record.{IsRecord}
use post_dns.Message.Written.{IsQuery, IsMessage}

-- These three fall into the same bucket of a table of eight.
abbrev pub name_a : Str
name_a = b'a' ∷ []

abbrev pub name_d : Str
name_d = b'd' ∷ []

abbrev pub name_g : Str
name_g = b'g' ∷ []

abbrev pub name_b : Str
name_b = b'b' ∷ []

-- A table of eight buckets with this one at index 4.
abbrev pub bucket_four : {V : Type 0} → HashNode V → ℕ → HashTable V
bucket_four node count = record {
  table =
      empty_node ∷ empty_node ∷ empty_node ∷ empty_node ∷ node ∷ empty_node ∷ empty_node
      ∷ empty_node ∷ [];
  count = count;
  capacity = 8;
  threshold = 6;
}

abbrev pub one : {V : Type 0} → V → HashTable V
one v = bucket_four (cell (some (name_a, v)) null) 1

abbrev pub two : {V : Type 0} → V → HashTable V
two v = bucket_four (cell (some (name_a, v)) (cell (some (name_d, v)) null)) 2

abbrev pub three : {V : Type 0} → V → HashTable V
three v =
    bucket_four (cell (some (name_a, v)) (cell (some (name_d, v)) (cell (some (name_g, v)) null))) 3

module _ {V : Type 0} where
  pub put-IsValid :
      (t t' : HashTable V) (k : Str) (v : V)
      → IsValid t
      → hash_table_put t (some k) (some v) ≡ ok t'
      → IsValid t'
  put-IsValid t t' k v valid h =
      let (t₁, run, (valid₁, stores)) = hash_table_put_lem t k v valid in
      let same : t₁ ≡ t' = (let e = sym run ∙ h in cc) in rw (← same) valid₁

  pub empty-IsValid : IsValid (hash_table_new {V = V})
  empty-IsValid = hash_table_new_lem.0

  pub one-IsValid : (v : V) → IsValid (one v)
  unfolding hash_table_put hash_table_new index string_hash_code add_node replace grow
  one-IsValid v = put-IsValid hash_table_new (one v) name_a v empty-IsValid refl

  pub two-IsValid : (v : V) → IsValid (two v)
  unfolding hash_table_put index string_hash_code add_node replace grow
  two-IsValid v = put-IsValid (one v) (two v) name_d v (one-IsValid v) refl

  pub three-IsValid : (v : V) → IsValid (three v)
  unfolding hash_table_put index string_hash_code add_node replace grow
  three-IsValid v = put-IsValid (two v) (three v) name_g v (two-IsValid v) refl

abbrev pub plain : Flags
plain = record { qr = 0; opcode = 0; aa = 0; tc = 0; rd = 1; ra = 0; z = 0; rcode = 0 }

abbrev pub question_a : Query
question_a = record { name = name_a; type = 1; class = 1 }

abbrev pub request : Message
request = record {
  id = 0x1234;
  flags = plain;
  query_count = 1;
  answer_count = 0;
  authority_count = 0;
  additional_count = 0;
  queries = question_a ∷ [];
  answers = [];
  authorities = [];
  additional = [];
}

abbrev pub alias_record : ResourceRecord
alias_record = record {
  name = name_a;
  type = 5;
  class = 1;
  ttl = 60;
  response_data_length = 3;
  response_data = domain name_b;
}

abbrev pub address_record : ResourceRecord
address_record = record {
  name = name_b;
  type = 1;
  class = 1;
  ttl = 60;
  response_data_length = 4;
  response_data = address4 0x0102_0304;
}

-- The answer: an alias, and the address of the other name.
abbrev pub response : Message
response = record request {
  flags = record plain { qr = 1; ra = 1 };
  answer_count = 2;
  answers = alias_record ∷ address_record ∷ [];
}

letter-IsName : (c : ℕ) → string_split (c ∷ []) b'.' ≡ (c ∷ []) ∷ [] → (c ≡ 0 → ⊥) → IsName (c ∷ [])
letter-IsName c e h = record {
  labels = rw e (((omega arith, omega arith, (h, tt)), tt));
  short = omega arith;
}

pub name_a-IsName : IsName name_a
unfolding string_split
name_a-IsName = letter-IsName b'a' refl (λ e. omega (arith, e))

pub name_b-IsName : IsName name_b
unfolding string_split
name_b-IsName = letter-IsName b'b' refl (λ e. omega (arith, e))

pub alias-IsRecord : IsRecord alias_record
alias-IsRecord = record {
  name = name_a-IsName;
  class = omega arith;
  ttl = omega arith;
  value = (refl, name_b-IsName);
  len = tt;
}

pub address-IsRecord : IsRecord address_record
address-IsRecord = record {
  name = name_b-IsName;
  class = omega arith;
  ttl = omega arith;
  value = (refl, omega arith);
  len = refl;
}

pub request-IsHeader : IsHeader request
request-IsHeader = record {
  flags = record {
    qr = omega arith;
    opcode = omega arith;
    aa = omega arith;
    tc = omega arith;
    rd = omega arith;
    ra = omega arith;
    z = omega arith;
    rcode = omega arith;
  };
  id = omega arith;
  query_count = omega arith;
  answer_count = omega arith;
  authority_count = omega arith;
  additional_count = omega arith;
}

pub response-IsHeader : IsHeader response
response-IsHeader = record {
  flags = record {
    qr = omega arith;
    opcode = omega arith;
    aa = omega arith;
    tc = omega arith;
    rd = omega arith;
    ra = omega arith;
    z = omega arith;
    rcode = omega arith;
  };
  id = omega arith;
  query_count = omega arith;
  answer_count = omega arith;
  authority_count = omega arith;
  additional_count = omega arith;
}

pub question-IsQuery : IsQuery question_a
question-IsQuery = record { name = name_a-IsName; type = omega arith; class = omega arith }

pub request-IsMessage : IsMessage request question_a
request-IsMessage = record {
  header = request-IsHeader;
  one = refl;
  asked = refl;
  query = question-IsQuery;
  answers = tt;
  counted = refl;
}

pub response-IsMessage : IsMessage response question_a
response-IsMessage = record {
  header = response-IsHeader;
  one = refl;
  asked = refl;
  query = question-IsQuery;
  answers = (alias-IsRecord, (address-IsRecord, tt));
  counted = refl;
}
