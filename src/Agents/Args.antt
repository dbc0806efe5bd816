-- ===== src/Agents/Args.antt =====
-- packages/core/src/agents.ts: how the tools read their arguments.
use agentic_bank.Common.{
  Bool, true, false, ◌&&◌, Option, none, some, String, pos, ◌===◌, string_eq, option_eq, trim,
  Number, int, non_int, same_number, show_number,
}
use Prim.Native.String.{◌++◌ as ◌<>◌}
use agentic_bank.Store.Args.{
  Json, Items, Fields, null, bool, num, str, arr, obj, nil, cons, end, get_field,
}
use agentic_bank.Store.Types.{action_eq}

-- `String(value)`: the elements of an array are joined by commas, `null` among them being empty.
unfoldable mutual
  pub text_of : Json → String
  text_of null = "null"
  text_of (bool true) = "true"
  text_of (bool false) = "false"
  text_of (num n) = show_number n
  text_of (str s) = s
  text_of (arr xs) = join xs
  text_of (obj fs) = "[object Object]"

  pub element_text : Json → String
  element_text null = ""
  element_text (bool true) = "true"
  element_text (bool false) = "false"
  element_text (num n) = show_number n
  element_text (str s) = s
  element_text (arr xs) = join xs
  element_text (obj fs) = "[object Object]"

  pub join : Items → String
  join nil = ""
  join (cons x nil) = element_text x
  join (cons x (cons y ys)) = element_text x <> "," <> join (cons y ys)

-- `String(args[key] ?? otherwise)`
unfoldable pub text_field : String → String → Fields → String
text_field key otherwise args = text_or (get_field key args)
  where
    text_or : Option Json → String
    text_or none = otherwise
    text_or (some null) = otherwise
    text_or (some v) = text_of v

-- `Number(args[key])`
unfoldable pub number_field : (String → Number) → String → Fields → Number
number_field number_of key args = number_or (get_field key args)
  where
    number_or : Option Json → Number
    number_or none = non_int "NaN"
    number_or (some null) = int (pos 0)
    number_or (some (bool true)) = int (pos 1)
    number_or (some (bool false)) = int (pos 0)
    number_or (some (num n)) = n
    number_or (some v) = number_of (text_of v)

unfoldable pub args_record : Json → Fields
args_record (obj fs) = fs
args_record _ = end

abbrev is_text : String → Option Json → Bool
is_text s (some (str t)) = t === s
is_text s _ = false

-- `sameTransferBody` of the stored arguments.
unfoldable pub same_args_body : (String → Number) → Json → String → String → Number → Bool
same_args_body number_of args from to amount =
    let rec = args_record args in
    is_text from (get_field "from_account_id" rec)
    && is_text to (get_field "to_account_id" rec)
    && same_number (number_field number_of "amount" rec) amount

abbrev trimmed_text : Option Json → String
trimmed_text (some (str s)) = trim s
trimmed_text _ = ""

unfoldable pub idempotency_of : Fields → String
idempotency_of args = trimmed_text (get_field "idempotency_key" args)
