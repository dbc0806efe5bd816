-- ===== src/Store/Args.antt =====
-- Tool arguments: the JSON values that the API hands to the core, and that the audit table keeps.
use agentic_bank.Common.{String, Bool, Option, none, some, Number, if◌then◌else◌, ◌===◌, string_eq}

mutual
  pub data Json : Type 0 where
    null : Json
    bool : Bool → Json
    num : Number → Json
    str : String → Json
    arr : Items → Json
    obj : Fields → Json

  pub data Items : Type 0 where
    nil : Items
    cons : Json → Items → Items

  pub data Fields : Type 0 where
    end : Fields
    field : String → Json → Fields → Fields

-- `args[key]`; a missing key is `none`.
unfoldable pub get_field : String → Fields → Option Json
get_field k end = none
get_field k (field j v fs) = if j === k then some v else get_field k fs

-- `{ ...args, [key]: value }`: the value of a key that is there is replaced in place.
unfoldable pub set_field : String → Json → Fields → Fields
set_field k v end = field k v end
set_field k v (field j w fs) = if j === k then field j v fs else field j w (set_field k v fs)
