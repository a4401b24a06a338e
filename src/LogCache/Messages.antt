-- ===== src/LogCache/Messages.antt =====
-- The messages of a log file as `loadRange` and `processLogLine` of src/Logfile.cc number them: what is
-- in memory is compared with this.
use naemon_livestatus.Prelude.{
  ℕ, ◌+◌, ◌%◌, ◌^◌, ◌<◌, ℤ, ◌≡◌, refl, sym, ◌∙◌, inl, inr, List, [], ◌∷◌, ◌++◌, Option, none, some,
  leb, ◌==◌, Bool-cases, if◌then◌else◌, arith, In, here, there, In-append_cases,
}
use naemon_livestatus.Text.{Bytes}
use naemon_livestatus.LogEntry.{LogEntry, class_invalid}
use naemon_livestatus.LogEntry.Parse.{parse}
use naemon_livestatus.Logfile.{Entries, make_key}
use naemon_livestatus.LogCache.Load.{Settings}

make_key_line : (t : ℤ) (n : ℕ) → n < 2 ^ 32 → make_key t n % 2 ^ 32 ≡ n
unfolding make_key
make_key_line t n h = omega arith

-- the message of a line, if it has one
unfoldable pub message : {Object : Type 0} → ℕ → Option (LogEntry Object) → Entries Object
message lineno none = []
message lineno (some e) =
    if e.logclass == class_invalid then [] else (make_key e.time lineno, e) ∷ []

-- a message has the number of its line in its key
message-key :
    {Object : Type 0} (n : ℕ) (e : Option (LogEntry Object)) (x : ℕ × LogEntry Object)
    → n < 2 ^ 32
    → In x (message n e)
    → x.0 % 2 ^ 32 ≡ n
unfolding message
message-key n none x h i = elim i [ ]
message-key {Object} n (some e) x h i = elim (Bool-cases (e.logclass == class_invalid)) [
  | inl k ↦ elim (rw k at i) [ ]
  | inr k ↦ single (rw k at i)
]
  where
    single : {x : ℕ × LogEntry Object} → In x ((make_key e.time n, e) ∷ []) → x.0 % 2 ^ 32 ≡ n
    single here = make_key_line e.time n h
    single (there j) = elim j [ ]

message_same :
    {Object : Type 0} (n : ℕ) (e : Option (LogEntry Object)) (x y : ℕ × LogEntry Object)
    → In x (message n e)
    → In y (message n e)
    → x ≡ y
unfolding message
message_same n none x y i j = elim i [ ]
message_same {Object} n (some e) x y i j = elim (Bool-cases (e.logclass == class_invalid)) [
  | inl k ↦ elim (rw k at i) [ ]
  | inr k ↦ single (rw k at i) ∙ sym (single (rw k at j))
]
  where
    single :
        {x : ℕ × LogEntry Object} → In x ((make_key e.time n, e) ∷ []) → x ≡ (make_key e.time n, e)
    single here = refl
    single (there j) = elim j [ ]

-- no two messages have the same key
abbrev pub UniqueKeys : {Object : Type 0} → Entries Object → Type 0
UniqueKeys {Object} es = (x y : ℕ × LogEntry Object) → In x es → In y es → x.0 ≡ y.0 → x ≡ y

module _ {Object : Type 0} (s : Settings Object) where
  -- the messages of the lines that follow `n` others
  unfoldable pub messages : ℕ → List Bytes → Entries Object
  messages n [] = []
  messages n (line ∷ lines) =
      let rest = messages (n + 1) lines in
      if leb s.max_lines n then [] else message (n + 1) (parse s.objects (n + 1) line) ++ rest

  module _ (short : s.max_lines < 2 ^ 32) where
    messages-above :
        (n : ℕ) (lines : List Bytes) (x : ℕ × LogEntry Object)
        → In x (messages n lines)
        → n < x.0 % 2 ^ 32
    unfolding messages
    messages-above n [] x i = elim i [ ]
    messages-above n (line ∷ lines) x i =
        let e = parse s.objects (n + 1) line in
        let rest = messages-above (n + 1) lines x in
        elim (Bool-cases (leb s.max_lines n)) [
          | inl k ↦ elim (rw k at i) [ ]
          | inr k ↦
              elim (In-append_cases x (message (n + 1) e) (messages (n + 1) lines) (rw k at i)) [
                | inl j ↦ omega (arith, message-key (n + 1) e x (ground arith) j)
                | inr j ↦ omega (arith, rest j)
              ]
        ]

    pub messages-UniqueKeys : (n : ℕ) (lines : List Bytes) → UniqueKeys (messages n lines)
    unfolding messages
    messages-UniqueKeys n [] x y i j h = elim i [ ]
    messages-UniqueKeys n (line ∷ lines) x y i j h =
        let e = parse s.objects (n + 1) line in
        let first = message (n + 1) e in
        let rest = messages (n + 1) lines in
        let key = λ (z : ℕ × LogEntry Object). message-key (n + 1) e z in
        elim (Bool-cases (leb s.max_lines n)) [
          | inl k ↦ elim (rw k at i) [ ]
          | inr k ↦
              let inside : n + 1 < 2 ^ 32 = ground arith in
              elim (In-append_cases x first rest (rw k at i)) [
                | inl p ↦ elim (In-append_cases y first rest (rw k at j)) [
                  | inl q ↦ message_same (n + 1) e x y p q
                  | inr q ↦
                      absurd (omega (arith, key x inside p, messages-above (n + 1) lines y q, h))
                ]
                | inr p ↦ elim (In-append_cases y first rest (rw k at j)) [
                  | inl q ↦
                      absurd (omega (arith, key y inside q, messages-above (n + 1) lines x p, h))
                  | inr q ↦ messages-UniqueKeys (n + 1) lines x y p q h
                ]
              ]
        ]
