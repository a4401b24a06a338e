-- ===== src/Tests/Texts.antt =====
-- Texts, the output buffer and the values of a response.
use naemon_livestatus.Prelude.{
  List, ◌≡◌, refl, false, [], ◌∷◌, ◌++◌, some, take, drop, arith, length, pos,
}
use naemon_livestatus.Text.{Bytes, codes, digits_value, lstrip}
use naemon_livestatus.Output
use naemon_livestatus.Output.{
  OutputBuffer, add_buffer, add_char, fixed16_header, write_data, not_ready, wrote,
}
use naemon_livestatus.Output.Capacity.{IsValid, Appended, add_buffer-Appended}
use naemon_livestatus.Output.Header.{fixed16_header_lem}
use naemon_livestatus.Output.Sending.{write_data_partial}
use naemon_livestatus.Print.{Writer, json, utf8}
use naemon_livestatus.Print.Lists.{output_names}
use naemon_livestatus.Print.Names.{read_list, output_names-read_list}

new-IsValid : IsValid Output.new
new-IsValid = record { fits = omega arith; allocated = omega arith }

add_buffer-Appended_example :
    Appended Output.new (codes "hosts") (add_buffer Output.new (codes "hosts"))
add_buffer-Appended_example = add_buffer-Appended Output.new (codes "hosts") new-IsValid

fixed16_header_lem_example :
    (length (fixed16_header 200 1234) ≡ 16)
    × (digits_value 0 (fixed16_header 200 1234) ≡ 200)
    × (digits_value 0 (lstrip (drop 4 (fixed16_header 200 1234))) ≡ 1234)
fixed16_header_lem_example = fixed16_header_lem 200 1234 (omega arith) (omega arith)

write_data_partial_example :
    let sent = (write_data (wrote 1 ∷ wrote 2 ∷ []) (codes "abc") 3).0 in
    (sent ≡ take 1 (codes "abc") ++ take 2 (codes "abc"))
    × (sent ≡ codes "abc" → drop 1 (codes "abc") ≡ take 2 (codes "abc"))
write_data_partial_example = write_data_partial 1 (codes "abc") (omega arith) (omega arith)

abbrev writer : Writer
writer = record {
  output = Output.new;
  output_format = json;
  data_encoding = utf8;
  field_separator = codes ";";
  dataset_separator = codes "\n";
  list_separator = codes ",";
  host_service_separator = codes "|";
  need_ds_separator = false;
  timezone_offset = pos 0;
}

abbrev names : List Bytes
names = codes "a\"b" ∷ codes "web" ∷ []

output_names-read_list_example :
    (o : OutputBuffer) × (text : Bytes) × (output_names names writer
      ≡ some (record writer { output = o }))
    × Appended Output.new text o
    × ((rest : Bytes) → read_list json 4 (text ++ rest) ≡ some (names, rest))
output_names-read_list_example =
    output_names-read_list writer names 4 new-IsValid refl
      (
        (omega arith, (omega arith, (omega arith, tt))),
        ((omega arith, (omega arith, (omega arith, tt))), tt),
      )
      (omega arith) (omega arith, (omega arith, tt))
