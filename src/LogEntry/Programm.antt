-- ===== src/LogEntry/Programm.antt =====
-- Messages of the program in src/LogEntry.cc: which of the tests of `handleProgrammEntry` matter.
use naemon_livestatus.Prelude.{
  ℕ, ap, sym, if◌then◌else◌, or_true, ◌≡◌, refl, Bool, true, false, ◌||◌, [], ◌∷◌, none, some,
  Bool-cases, inl, inr, arith,
}
use mathlib.Core.Bool.{true≢false}
use mathlib.Core.Option.{some_inj, none-ne-some}
use Prim.Native.String.{String}
use naemon_livestatus.Text.{Bytes, strip_prefix}
use naemon_livestatus.LogEntry.{LogEntry, core_stopping, class_program, begins, has_word}
use naemon_livestatus.LogEntry.Messages.{handle_programm_entry}

has_word-begins : (w : String) (text : Bytes) → begins w text ≡ true → has_word w text ≡ true
unfolding has_word
has_word-begins w [] h = h
has_word-begins w (c ∷ text) h = rw h refl

has_word-cons :
    (w : String) (c : ℕ) (text : Bytes) → has_word w text ≡ true → has_word w (c ∷ text) ≡ true
unfolding has_word
has_word-cons w c text h = rw h (or_true _)

begins_restarting :
    (text : Bytes) → begins "restarting..." text ≡ true → has_word "starting..." text ≡ true
unfolding begins strip_prefix
begins_restarting [] h = cc
begins_restarting (c ∷ []) h = ground arith
begins_restarting (c ∷ d ∷ text) h =
    let there : begins "starting..." text ≡ true = ground arith in
    has_word-cons _ c _ (has_word-cons _ d _ (has_word-begins _ text there))

has_word_restarting :
    (text : Bytes) → has_word "restarting..." text ≡ true → has_word "starting..." text ≡ true
unfolding has_word
has_word_restarting [] h = begins_restarting [] h
has_word_restarting (c ∷ text) h = elim (Bool-cases (begins "restarting..." (c ∷ text))) [
  | inl b ↦ begins_restarting (c ∷ text) b
  | inr b ↦ has_word-cons _ c text (has_word_restarting text (ground arith))
]

or_first : (a b c d : Bool) → a ≡ true → a || b || c || d ≡ true
or_first a b c d h = ground arith

program_type :
    {Object : Type 0} (stops restarts : Bool) (e e' : LogEntry Object)
    → (restarts ≡ true → stops ≡ true)
    → (if stops
        then some (record e { logclass = class_program; type = core_stopping })
        else if restarts
        then some (record e { logclass = class_program })
        else none)
      ≡ some e'
    → e'.type ≡ core_stopping
program_type true restarts e e' r h = ap (λ x. x.type) (sym (some_inj.0 h))
program_type false true e e' r h = absurd (true≢false (sym (r refl)))
program_type false false e e' r h = absurd (none-ne-some _ h)

-- Every message that handleProgrammEntry takes gets the type CORE_STOPPING, also one that says that
-- the program is starting; the branch for restarting, which sets no type, is never taken.
handle_programm_entry-type :
    {Object : Type 0} (text : Bytes) (e e' : LogEntry Object)
    → handle_programm_entry text e ≡ some e'
    → e'.type ≡ core_stopping
unfolding handle_programm_entry
handle_programm_entry-type text e e' h =
    program_type _ _ e e' (λ r. or_first _ _ _ _ (has_word_restarting text r)) h
