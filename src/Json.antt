-- ===== src/Json.antt =====
-- `serde_json::Value`, and the canonical JSON and record ids of src/ident.rs.
pub mod Strings
pub mod Canonical
pub mod Floats
pub mod KeyOrder
pub mod RecordId
pub mod OneLine
use tally_vcs.Prelude.{ℕ, Bool}
use tally_vcs.Prelude.Bytes.{Bytes}

-- `serde_json::Number`: an integer in the range of `u64`, a negative one in that of `i64`, or a
-- float, whose value no code here reads. `negative n` is -(n + 1).
pub data Number : Type 0 where
  natural : ℕ → Number
  negative : ℕ → Number
  float : Number

mutual
  pub data Value : Type 0 where
    null : Value
    bool : Bool → Value
    number : Number → Value
    string : Bytes → Value
    array : Values → Value
    object : Members → Value

  pub data Values : Type 0 where
    end : Values
    item : Value → Values → Values

  -- The entries of a `serde_json::Map`, in the order in which it hands them out.
  pub data Members : Type 0 where
    stop : Members
    member : Bytes → Value → Members → Members
