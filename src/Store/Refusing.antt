-- ===== src/Store/Refusing.antt =====
-- How src/Store.cc answers a query of a table that does not exist.
use naemon_livestatus.Prelude.{
  true, false, not, List, [], ◌∷◌, ◌++◌, none, some, take, ◌≡◌, refl, ap, ◌∙◌, IsSome, bind-IsSome,
}
use naemon_livestatus.Text.{Bytes, codes}
use naemon_livestatus.Output.{OutputBuffer, reset, set_error, has_error, is_empty}
use naemon_livestatus.Output.ResponseCode
use naemon_livestatus.Input.{InputBuffer}
use naemon_livestatus.Query
use naemon_livestatus.Query.{Query, Core}
use naemon_livestatus.Query.Parse.{parse_lines}
use naemon_livestatus.Query.Answered.{has_bare_stats, lines-IsSome}
use naemon_livestatus.Query.Request.{parse_lines-keeps_error}
use naemon_livestatus.Store.{Store, StoreTable, Surroundings, Served, find_table, named, told}
use naemon_livestatus.Store.Answer.{ask, answer_get_request}
use naemon_livestatus.Store.Locking.{some-Holds, bind-Holds}

-- what is said of a table that does not exist
abbrev pub no_such_table : Bytes → Bytes
no_such_table name =
    take 8190 (codes "Invalid GET request, no such table '" ++ name ++ codes "'") ++ b'\n' ∷ []

module _ {Object Row : Type 0} (core : Core) (tables : List (Bytes × StoreTable Object Row)) where
  -- the response is the error, and no table was asked
  abbrev pub Refused : Store Object → Bytes → Served Object → Type 0
  Refused store name r =
      (r.output.error_message ≡ no_such_table name)
      × (r.output.response_code ≡ ResponseCode.not_found)
      × (r.store ≡ store)

  named_error :
      (output : OutputBuffer) (name : Bytes)
      → is_empty name ≡ false
      → let o = named {Object = Object} {Row = Row} (reset output) name none in
        (o.error_message ≡ no_such_table name) × (o.response_code ≡ ResponseCode.not_found)
  unfolding named reset set_error
  named_error output name h = rw h (refl, refl)

  read-IsSome :
      (w : Surroundings) (store : Store Object) (input : InputBuffer) (output : OutputBuffer)
      (name : Bytes)
      → find_table name tables ≡ none
      → has_bare_stats input.request_lines ≡ false
      → IsSome (answer_get_request core tables w store input output name)
  unfolding answer_get_request ask
  read-IsSome w store input output name missing complete =
      rw (missing, answer_get_request)
        (bind-IsSome (parse_lines core _ input.request_lines) _
          (lines-IsSome core _ input.request_lines complete) (λ q. (_, refl)))

  -- the answer, if the lines can be read
  answered-Refused :
      (w : Surroundings) (store : Store Object) (input : InputBuffer) (output : OutputBuffer)
      (name : Bytes) (r : Served Object)
      → is_empty name ≡ false
      → find_table name tables ≡ none
      → answer_get_request core tables w store input output name ≡ some r
      → Refused store name r
  unfolding answer_get_request ask
  answered-Refused w store input output name r h missing e =
      let o = named {Object = Object} {Row = Row} (reset output) name none in
      let start : Query Row = Query.new o none in
      let (message, code) = named_error output name h in
      let failed : has_error o ≡ true = ap (λ m. not (is_empty m)) message in
      (bind-Holds (Refused store name) (parse_lines core start input.request_lines)
          (λ q. some (told store (record input { request_lines = q.1 }) q.0.output))
          (λ q parsed.
            let (kept_message, kept_code) =
              parse_lines-keeps_error core start input.request_lines q.0 q.1 failed parsed in
            some-Holds (Refused store name)
              (told store (record input { request_lines = q.1 }) q.0.output)
              (kept_message ∙ message, kept_code ∙ code, refl))).holds
        r (rw missing at e)

  -- A query of a table that does not exist is answered, when no StatsOr: or StatsAnd: without a
  -- value is among the lines that are read: with the error that names the table and the code 404,
  -- whatever other headers follow, and the log cache and its lock are as they were.
  pub answer_get_request-Refused :
      (w : Surroundings) (store : Store Object) (input : InputBuffer) (output : OutputBuffer)
      (name : Bytes)
      → is_empty name ≡ false
      → find_table name tables ≡ none
      → has_bare_stats input.request_lines ≡ false
      → (r : Served Object) × (answer_get_request core tables w store input output name ≡ some r)
        × Refused store name r
  answer_get_request-Refused w store input output name h missing complete =
      let (r, answered) = read-IsSome w store input output name missing complete in
      (r, answered, answered-Refused w store input output name r h missing answered)
