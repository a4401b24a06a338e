-- ===== src/Store/Locking.antt =====
-- The lock of the log cache while src/Store.cc answers a request.
use naemon_livestatus.Prelude.{
  Bool, true, false, not, List, Option, none, some, ◌>>=◌, if◌then◌else◌, ◌≡◌, refl, sym, ap, ◌∙◌,
  subst,
}
use mathlib.Core.Option.{some_inj, none-ne-some}
use naemon_livestatus.Text.{Bytes, codes}
use naemon_livestatus.Output.{OutputBuffer, reset, set_error, has_error}
use naemon_livestatus.Output.ResponseCode
use naemon_livestatus.Query.Parse.{parse_lines}
use naemon_livestatus.Query
use mathlib.Core.Option
use naemon_livestatus.Input.{
  InputBuffer, Outcome, request_read, unexpected_end_of_file, should_terminate, line_too_long,
  end_of_file, empty_request, timeout, ReadEvent, read_request, next_line,
}
use naemon_livestatus.Query.{Query, Core}
use naemon_livestatus.Store.{
  Store, StoreTable, Surroundings, Served, lock, unlock, find_table, answer_command_request, Method,
  get, command, logrotate, invalid, method_of, named, told, reading_error,
}
use naemon_livestatus.Store.Answer.{
  ask_table, ask_log, ask_with, ask, answer_get_request, answer_method, answer_outcome,
  answer_request,
}

-- `P` holds of the result, if there is one
pub record Holds {ℓ ℓ'} {A : Type ℓ} (P : A → Type ℓ') (o : Option A) : Type (ℓ ⊔ ℓ') where
  pub holds : (a : A) → o ≡ some a → P a

pub none-Holds {ℓ ℓ'} : {A : Type ℓ} (P : A → Type ℓ') → Holds P none
none-Holds P = record { holds = λ a e. absurd (none-ne-some _ e) }

pub some-Holds {ℓ ℓ'} : {A : Type ℓ} (P : A → Type ℓ') (a : A) → P a → Holds P (some a)
some-Holds P a h = record { holds = λ b e. subst P (some_inj.0 e) h }

pub bind-Holds {ℓ ℓ'} :
    {A B : Type ℓ} (P : B → Type ℓ') (o : Option A) (k : A → Option B)
    → ((a : A) → o ≡ some a → Holds P (k a))
    → Holds P (o >>= k)
bind-Holds P none k h = none-Holds P
bind-Holds P (some a) k h = h a refl

module _ {Object Row : Type 0} (core : Core) (tables : List (Bytes × StoreTable Object Row)) where
  -- a step leaves the lock as `b` says
  abbrev Leaves : Bool → Store Object × OutputBuffer → Type 0
  Leaves b r = r.0.locked ≡ b

  if-Leaves :
      (c b : Bool) (r r' : Store Object × OutputBuffer)
      → Leaves b r
      → Leaves b r'
      → Leaves b (if c then r else r')
  if-Leaves true b r r' h k = h
  if-Leaves false b r r' h k = k

  ask_table-Leaves :
      (t : StoreTable Object Row) (store : Store Object) (q : Query Row)
      → Leaves store.locked (ask_table core tables t store q)
  unfolding ask_table
  ask_table-Leaves t store q = if-Leaves (has_error q.output) store.locked _ _ refl refl

  ask_log-Leaves :
      (w : Surroundings) (t : StoreTable Object Row) (store : Store Object) (q : Query Row)
      → Leaves false (ask_log core tables w t store q)
  unfolding ask_log unlock
  ask_log-Leaves w t store q =
      if-Leaves (not w.alive) false _ _ refl (if-Leaves w.terminating false _ _ refl refl)

  -- asking a table never waits for ever, and leaves the lock free
  abbrev Ends : Option (Store Object × OutputBuffer) → Type 0
  Ends o = (r : Store Object × OutputBuffer) × (o ≡ some r) × Leaves false r

  lock_free :
      (store : Store Object)
      → store.locked ≡ false
      → lock store ≡ some (record store { locked = true })
  unfolding lock
  lock_free store free = ap (λ b. if b then none else some (record store { locked = true })) free

  ask_with-Ends :
      (c : Bool) (w : Surroundings) (t : StoreTable Object Row) (store : Store Object)
      (q : Query Row)
      → store.locked ≡ false
      → Ends (ask_with core tables c w t store q)
  unfolding ask_with
  ask_with-Ends true w t store q free = (
    ask_log core tables w t (record store { locked = true }) q,
    ap (λ o. o >>= (λ locked. some (ask_log core tables w t locked q))) (lock_free store free),
    ask_log-Leaves w t (record store { locked = true }) q,
  )
  ask_with-Ends false w t store q free =
      (ask_table core tables t store q, refl, ask_table-Leaves t store q ∙ free)

  pub ask-Ends :
      (w : Surroundings) (table : Option (StoreTable Object Row)) (store : Store Object)
      (q : Query Row)
      → store.locked ≡ false
      → Ends (ask core tables w table store q)
  unfolding ask
  ask-Ends w none store q free = ((store, q.output), refl, free)
  ask-Ends w (some t) store q free = ask_with-Ends t.has_logcache w t store q free

  abbrev Frees : Served Object → Type 0
  Frees r = r.store.locked ≡ false

  answer_get_request-Frees :
      (w : Surroundings) (store : Store Object) (input : InputBuffer) (output : OutputBuffer)
      (name : Bytes)
      → store.locked ≡ false
      → Holds Frees (answer_get_request core tables w store input output name)
  unfolding answer_get_request
  answer_get_request-Frees w store input output name free =
      let start =
        Query.new (named (reset output) name (find_table name tables))
          (Option.map (λ t. t.table) (find_table name tables)) in
      bind-Holds Frees (parse_lines core start input.request_lines) _ (λ parsed _.
        bind-Holds Frees (ask core tables w (find_table name tables) store parsed.0) _
          (λ answered e.
            let (r, e', left) = ask-Ends w (find_table name tables) store parsed.0 free in
            some-Holds Frees
              (told answered.0 (record input { request_lines = parsed.1 }) answered.1)
              (ap (λ (z : Store Object × OutputBuffer). z.0.locked) (some_inj.0 (sym e ∙ e'))
                ∙ left)))

  answer_method-Frees :
      (w : Surroundings) (store : Store Object) (input : InputBuffer) (output : OutputBuffer)
      (method : Method)
      → store.locked ≡ false
      → Holds Frees (answer_method core tables w store input output method)
  unfolding answer_method
  answer_method-Frees w store input output (get name) free =
      answer_get_request-Frees w store input output name free
  answer_method-Frees w store input output (command text) free =
      bind-Holds Frees (answer_command_request w output text) _ (λ a _.
        some-Holds Frees
          (record (told store input (record a.0 { do_keepalive = true })) { commands = a.1 }) free)
  answer_method-Frees w store input output logrotate free =
      some-Holds Frees (record (told store input output) { rotated = true }) free
  answer_method-Frees w store input output invalid free =
      some-Holds Frees
        (told store input
          (set_error output ResponseCode.invalid_request (codes "Invalid request method")))
        free

  abbrev FreesToo : Bool × Served Object → Type 0
  FreesToo r = Frees r.1

  answer_outcome-Frees :
      (w : Surroundings) (store : Store Object) (input : InputBuffer) (output : OutputBuffer)
      (outcome : Outcome)
      → store.locked ≡ false
      → Holds FreesToo (answer_outcome core tables w store input output outcome)
  unfolding answer_outcome
  answer_outcome-Frees w store input output request_read free =
      bind-Holds FreesToo (next_line input) _ (λ line _.
        bind-Holds FreesToo (answer_method core tables w store line.1 output (method_of line.0)) _
          (λ r e.
            some-Holds FreesToo (r.output.do_keepalive, r)
              ((answer_method-Frees w store line.1 output (method_of line.0) free).holds r e)))
  answer_outcome-Frees w store input output unexpected_end_of_file free =
      some-Holds FreesToo (false, told store input (reading_error unexpected_end_of_file output))
        free
  answer_outcome-Frees w store input output should_terminate free =
      some-Holds FreesToo (false, told store input (reading_error should_terminate output)) free
  answer_outcome-Frees w store input output line_too_long free =
      some-Holds FreesToo (false, told store input (reading_error line_too_long output)) free
  answer_outcome-Frees w store input output end_of_file free =
      some-Holds FreesToo (false, told store input (reading_error end_of_file output)) free
  answer_outcome-Frees w store input output empty_request free =
      some-Holds FreesToo (false, told store input (reading_error empty_request output)) free
  answer_outcome-Frees w store input output timeout free =
      some-Holds FreesToo (false, told store input (reading_error timeout output)) free

  -- Whatever a client sends and whatever becomes of its request, an answer that is given leaves the
  -- lock of the log cache free: when it was free before, answerRequest has released it on every way
  -- out, with the client gone or the core about to stop too.
  pub answer_request-unlocked :
      (w : Surroundings) (store : Store Object) (input : InputBuffer) (output : OutputBuffer)
      (events : List ReadEvent) (socket : Bytes) (kept : Bool) (r : Served Object)
      → store.locked ≡ false
      → answer_request core tables w store input output events socket ≡ some (kept, r)
      → r.store.locked ≡ false
  unfolding answer_request
  answer_request-unlocked w store input output events socket kept r free e =
      (bind-Holds FreesToo (read_request input events socket) _
          (λ a _. answer_outcome-Frees w store a.1 (reset output) a.0 free)).holds
        (kept, r) e
