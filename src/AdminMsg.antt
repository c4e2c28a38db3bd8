-- ===== src/AdminMsg.antt =====
-- The messages of qdcadm/AdminMsg.proto as qdcadm/AdminMsg.pb.h declares them, and the interface by
-- which the rest of qdcadm parses and serializes them. A `string` field is its bytes, an enum field
-- the `int` that it holds, a double its 64 bits, a pointer to a message that may be NULL an
-- `Option`. `unknown` is what `_internal_metadata_` keeps, on the wire.
pub mod Wire
pub mod Parsing
pub mod Steps
pub mod RoundTrip
use o2k.Prelude.{ℕ, ℤ, pos, List, [], Option, none, some}

pub record MsgHeader : Type 0 where
  pub msg_type : ℤ
  pub unknown : List ℕ

pub record MsgHeaderWrap : Type 0 where
  pub msg_header : Option MsgHeader
  pub unknown : List ℕ

pub record PairIntDbl : Type 0 where
  pub key : ℤ
  pub val : ℕ
  pub unknown : List ℕ

pub record PairStrStr : Type 0 where
  pub key : List ℕ
  pub val : List ℕ
  pub unknown : List ℕ

pub record MsgResult : Type 0 where
  pub msg_header : Option MsgHeader
  pub rc : List ℕ
  pub msg : List ℕ
  pub rt_pairs : List PairStrStr
  pub unknown : List ℕ

pub record MsgCmd : Type 0 where
  pub msg_header : Option MsgHeader
  pub cmd : List ℕ
  pub params : List PairStrStr
  pub unknown : List ℕ

pub record MsgMetrics : Type 0 where
  pub msg_header : Option MsgHeader
  pub trans_commit_total : ℕ
  pub trans_begin_proc : List PairIntDbl
  pub unknown : List ℕ

-- The values of `MsgType`: Result, Command, Metrics.
abbrev pub type_result : ℤ
type_result = pos 0

abbrev pub type_command : ℤ
type_command = pos 1

abbrev pub type_metrics : ℤ
type_metrics = pos 2

-- The messages as their constructors leave them.
abbrev pub default_header : MsgHeader
default_header = record { msg_type = pos 0; unknown = [] }

abbrev pub default_wrap : MsgHeaderWrap
default_wrap = record { msg_header = none; unknown = [] }

abbrev pub default_pair : PairStrStr
default_pair = record { key = []; val = []; unknown = [] }

abbrev pub default_result : MsgResult
default_result = record { msg_header = none; rc = []; msg = []; rt_pairs = []; unknown = [] }

abbrev pub default_cmd : MsgCmd
default_cmd = record { msg_header = none; cmd = []; params = []; unknown = [] }

-- `msg_header()`: the default instance stands for a header that is not there.
abbrev pub header_or_default : Option MsgHeader → MsgHeader
header_or_default none = default_header
header_or_default (some h) = h

-- `ParseFromString` and `ParseFromArray` (`none` where they return false) and `SerializeToString`.
pub record Codec : Type 0 where
  pub parse_wrap : List ℕ → Option MsgHeaderWrap
  pub parse_cmd : List ℕ → Option MsgCmd
  pub parse_result : List ℕ → Option MsgResult
  pub parse_metrics : List ℕ → Option MsgMetrics
  pub serialize_cmd : MsgCmd → Option (List ℕ)
  pub serialize_result : MsgResult → Option (List ℕ)
