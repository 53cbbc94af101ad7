-- ===== src/Filter.antt =====
-- Package filter: the environments of the filter expressions (filter/env.go), and what the code takes
-- from the expression library and from mapstructure, neither of which is part of the repository.
pub mod TagUpdates
use lightspeed_chat.Base.{ℤ, Text, Bool, Option, List}
use lightspeed_chat.Types.{Tags}

pub record FilterUser : Type 0 where
  pub id : Text
  pub nick : Text
  pub language : Text
  pub tags : Option Tags
  pub last_online : ℤ

pub record FilterRoom : Type 0 where
  pub id : Text
  pub owner : FilterUser
  pub tags : Option Tags

pub record FilterSource : Type 0 where
  pub user : FilterUser
  pub plugin_name : Text

pub record FilterClient : Type 0 where
  pub client_language : Text

pub record FilterTarget : Type 0 where
  pub user : FilterUser
  pub client : FilterClient

-- The functions that an expression may call.
pub record Helpers (Float : Type 0) : Type 0 where
  pub as_int : Text → ℤ
  pub as_float : Text → Float
  pub as_string_slice : Text → List Text
  pub as_int_slice : Text → List ℤ
  pub as_float_slice : Text → List Float

pub record Env (Float : Type 0) : Type 0 where
  pub room : FilterRoom
  pub source : FilterSource
  pub target : FilterTarget
  pub created : ℤ
  pub language : Text
  pub name : Text
  pub tags : Option Tags
  pub helpers : Helpers Float

pub record TagsEnv (Float : Type 0) : Type 0 where
  pub tags : Tags
  pub helpers : Helpers Float

-- `expr.Compile` with the environment's type, `expr.Run` and `expr.Eval`, `none` standing for an
-- error; the type assertion to bool and the three weak decodings of a result; and floating point
-- numbers with `strconv.ParseFloat` (its value, 0 or an infinity on error) and `FormatFloat`.
pub record ExprLib : Type 1 where
  pub Float : Type 0
  pub Value : Type 0
  pub Program : Type 0
  pub compile : Text → Option Program
  pub run : Program → Env Float → Option Value
  pub eval : Text → TagsEnv Float → Option Value
  pub as_bool : Value → Option Bool
  pub decode_string : Value → Option Text
  pub decode_int : Value → Option ℤ
  pub decode_float : Value → Option Float
  pub parse_float : Text → Float
  pub format_float : Float → Text
