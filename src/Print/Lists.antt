-- ===== src/Print/Lists.antt =====
-- The functions of src/Query.cc that write lists, dictionaries, pairs of host and service, blobs and points of time,
-- and a column that writes a list, of src/HostgroupsColumn.cc.
use naemon_livestatus.Prelude.{
  ℕ, ◌-◌, ◌%◌, ◌^◌, Bool, true, false, not, List, [], ◌∷◌, ◌++◌, Option, some, ◌>>=◌, if◌then◌else◌,
  ℤ, pos, negsuc, ◌+ℤ◌,
}
use naemon_livestatus.Text.{Bytes, decimal}
use naemon_livestatus.Output.{padded}
use naemon_livestatus.Print.{Writer, is_csv, put, put_char, output_string}

-- `outputBeginList`, `outputBeginSublist`
unfoldable pub output_begin_list : Writer → Writer
output_begin_list w = if not (is_csv w.output_format) then put_char w b'[' else w

-- `outputListSeparator`, `outputDictSeparator`
unfoldable pub output_list_separator : Writer → Writer
output_list_separator w = if is_csv w.output_format then put w w.list_separator else put_char w b','

-- `outputEndList`, `outputEndSublist`
unfoldable pub output_end_list : Writer → Writer
output_end_list w = if not (is_csv w.output_format) then put_char w b']' else w

unfoldable pub output_sublist_separator : Writer → Writer
output_sublist_separator w =
    if is_csv w.output_format then put w w.host_service_separator else put_char w b','

unfoldable pub output_begin_dict : Writer → Writer
output_begin_dict w = if not (is_csv w.output_format) then put_char w b'{' else w

unfoldable pub output_dict_value_separator : Writer → Writer
output_dict_value_separator w =
    if is_csv w.output_format then put w w.host_service_separator else put_char w b':'

unfoldable pub output_end_dict : Writer → Writer
output_end_dict w = if not (is_csv w.output_format) then put_char w b'}' else w

unfoldable pub output_host_service : Writer → Option Bytes → Option Bytes → Option Writer
output_host_service w host service =
    let plain =
      output_string w host >>= (λ w'. output_string (put w' w'.host_service_separator) service) in
    let pair =
      output_string (put_char w b'[') host
      >>= (λ w'. output_string (put_char w' b',') service >>= (λ w''. some (put_char w'' b']'))) in
    if is_csv w.output_format then plain else pair

-- a blob; the string in it is what is in front of its first byte 0, if it has one
unfoldable pub output_blob : Writer → Bytes → Option Bytes → Option Writer
output_blob w bytes string =
    if not (is_csv w.output_format) then output_string w string else some (put w bytes)

-- a number as `%lu` prints it
abbrev unsigned_long : ℤ → ℕ
unsigned_long (pos n) = n % 2 ^ 64
unsigned_long (negsuc n) = 2 ^ 64 - 1 - n % 2 ^ 64

unfoldable pub output_time_val : Writer → ℤ → ℕ → Writer
output_time_val w sec usec =
    put w
      (decimal (unsigned_long (sec +ℤ w.timezone_offset)) ++ b'.' ∷ padded b'0' 6 (decimal usec))

-- the names of a list, `first` as in the code
unfoldable pub names_loop : Bool → List Bytes → Writer → Option Writer
names_loop first [] w = some w
names_loop first (name ∷ names) w =
    output_string (if first then w else output_list_separator w) (some name)
    >>= (λ w'. names_loop false names w')

-- `HostgroupsColumn::output`
unfoldable pub output_names : List Bytes → Writer → Option Writer
output_names names w =
    names_loop true names (output_begin_list w) >>= (λ w'. some (output_end_list w'))
