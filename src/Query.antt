-- ===== src/Query.antt =====
-- src/Query.cc and .h: the rows of a table pass through a query, which filters, sorts, counts and cuts
-- them. Here: the state of a query. `Headers`, `FilterHeaders` and `Parse` read it from a request, and
-- `Paging` is what becomes of the rows.
use naemon_livestatus.Prelude.{
  ℕ, Bool, true, false, List, [], ◌∷◌, ◌++◌, Option, none, some, ℤ, pos, negsuc,
}
use naemon_livestatus.Text.{Bytes, codes}
use naemon_livestatus.Output.{OutputBuffer, set_error}
use naemon_livestatus.Output.ResponseCode
use naemon_livestatus.Print.{OutputFormat, csv}
use naemon_livestatus.Filter.{Op, Filter, Filters, nil}
pub mod Headers
pub mod FilterHeaders
pub mod StatsHeaders
pub mod Parse
pub mod Valid
pub mod Steps
pub mod Request
pub mod Answered
pub mod Localtime
pub mod Operators
pub mod Paging
pub mod Run
pub mod Wait

-- `Column::createFilter`: no filter, one with an error, or one
pub data Created (Row : Type 0) : Type 0 where
  no_filter : Created Row
  failed : ℕ → Bytes → Created Row
  created : Filter Row → Created Row

-- what a query uses of a column: the operator comes with its negation
pub record TableColumn (Row : Type 0) : Type 0 where
  pub name : Bytes
  pub create_filter : Op → Bool → Bytes → Created Row

-- what a query uses of a table; objects of the core are numbered. `dummy_column` is a new `EmptyColumn`.
pub record Table (Row : Type 0) : Type 0 where
  pub name : Bytes
  pub column : Bytes → Option (TableColumn Row)
  pub dummy_column : Bytes → TableColumn Row
  pub find_object : Bytes → Option ℕ

-- what a query asks of the core: `find_contact` and `time(0)`
pub record Core : Type 0 where
  pub find_contact : Bytes → Option ℕ
  pub now : ℤ

-- `_auth_user`; `unknown_user` is `UNKNOWN_AUTH_USER`
pub data AuthUser : Type 0 where
  no_user unknown_user : AuthUser
  user : ℕ → AuthUser

pub data StatsOperation : Type 0 where
  stats_count stats_sum stats_min stats_max stats_avg stats_std stats_suminv stats_avginv :
      StatsOperation

-- With `STATS_OP_COUNT` there is a filter, and otherwise a column.
pub data StatsColumn (Row : Type 0) : Type 0 where
  counting : Option (TableColumn Row) → Filter Row → StatsColumn Row
  aggregating : TableColumn Row → StatsOperation → StatsColumn Row

pub record Query (Row : Type 0) : Type 0 where
  pub output : OutputBuffer
  pub table : Option (Table Row)
  pub filter : Filters Row
  pub auth_user : AuthUser
  pub wait_condition : Filters Row
  pub wait_timeout : ℤ
  pub wait_trigger : ℕ
  pub wait_object : Option ℕ
  pub field_separator : Bytes
  pub dataset_separator : Bytes
  pub list_separator : Bytes
  pub host_service_separator : Bytes
  pub show_column_headers : Bool
  pub output_format : OutputFormat
  pub limit : ℤ
  pub time_limit : ℤ
  pub time_limit_timeout : ℤ
  pub offset : ℤ
  pub timezone_offset : ℤ
  pub columns : List (TableColumn Row)
  pub sort_columns : List (TableColumn Row × Bool)
  pub stats_columns : List (StatsColumn Row)

-- `WT_NONE`, as an unsigned number
abbrev pub wt_none : ℕ
wt_none = 0xffff_ffff

-- the constructor, before it reads the headers
abbrev pub new : {Row : Type 0} → OutputBuffer → Option (Table Row) → Query Row
new output table = record {
  output = output;
  table = table;
  filter = nil;
  auth_user = no_user;
  wait_condition = nil;
  wait_timeout = pos 0;
  wait_trigger = wt_none;
  wait_object = none;
  field_separator = codes ";";
  dataset_separator = codes "\n";
  list_separator = codes ",";
  host_service_separator = codes "|";
  show_column_headers = true;
  output_format = csv;
  limit = negsuc 0;
  time_limit = negsuc 0;
  time_limit_timeout = pos 0;
  offset = pos 0;
  timezone_offset = pos 0;
  columns = [];
  sort_columns = [];
  stats_columns = [];
}

-- `_output->setError(RESPONSE_CODE_INVALID_HEADER, ...)`
abbrev pub refuse : {Row : Type 0} → Query Row → Bytes → Query Row
refuse q message = record q { output = set_error q.output ResponseCode.invalid_header message }
