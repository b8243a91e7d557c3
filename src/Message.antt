-- ===== src/Message.antt =====
-- message.h and resource_record.h: the DNS message as a C structure.
-- Every integer field is its bit pattern; a `char` flag holds a small number. An array that no code
-- has allocated is the empty list, so that an access to it is out of bounds.
pub mod Parse
pub mod Build
pub mod Header
pub mod Release
pub mod Readable
pub mod Logged
pub mod Bounds
pub mod Compressed
pub mod Answers
pub mod Parsed
pub mod Log
pub mod Blocks
pub mod Labels
pub mod Name
pub mod Record
pub mod Rdata
pub mod Reading
pub mod Written
pub mod Questions
pub mod Other
pub mod RoundTrip
pub mod Question
use post_dns.Base.{ℕ, List}
use post_dns.Text.{Str}

pub record Flags : Type 0 where
  pub qr : ℕ
  pub opcode : ℕ
  pub aa : ℕ
  pub tc : ℕ
  pub rd : ℕ
  pub ra : ℕ
  pub z : ℕ
  pub rcode : ℕ

pub record Query : Type 0 where
  pub name : Str
  pub type : ℕ
  pub class : ℕ

-- What `response_data` points to. Nothing is allocated for a type that is not handled.
pub data ResponseData : Type 0 where
  address4 : ℕ → ResponseData
  domain : Str → ResponseData
  address6 : List ℕ → ResponseData
  unset : ResponseData

pub record ResourceRecord : Type 0 where
  pub name : Str
  pub type : ℕ
  pub class : ℕ
  pub ttl : ℕ
  pub response_data_length : ℕ
  pub response_data : ResponseData

pub record Message : Type 0 where
  pub id : ℕ
  pub flags : Flags
  pub query_count : ℕ
  pub answer_count : ℕ
  pub authority_count : ℕ
  pub additional_count : ℕ
  pub queries : List Query
  pub answers : List ResourceRecord
  pub authorities : List ResourceRecord
  pub additional : List ResourceRecord

-- `enum RR_TYPE`
pub data RrType : Type 0 where
  header question answer authority additional_rr : RrType

-- The record types that the program handles.
abbrev pub type_a : ℕ
type_a = 1

abbrev pub type_cname : ℕ
type_cname = 5

abbrev pub type_aaaa : ℕ
type_aaaa = 28
