-- ===== src/Input/Lines.antt =====
-- `readRequest`: the loop over the bytes that are in the buffer, on the lines of a request.
use naemon_livestatus.Prelude.{
  ℕ, ◌+◌, ◌≤◌, ◌<◌, ◌≡◌, ◌⊎◌, inl, inr, refl, ap, ap₂, sym, ◌∙◌, Bool, true, false, List, [], ◌∷◌,
  ◌++◌, append_assoc, ◌==◌, length, length-append, arith, Bool-cases, All, All-append,
}
use naemon_livestatus.Text.{Bytes}
use naemon_livestatus.Input.{
  buffer_size, InputBuffer, store_request_line, Scan, finished, returned, waiting, scan_lines,
}

-- there is no newline
abbrev pub OneLine : Bytes → Type 0
OneLine s = All (λ c. (c == b'\n') ≡ false) s

-- a line of a request: not empty, and short enough for the buffer
pub record IsLine (s : Bytes) : Type 0 where
  pub one_line : OneLine s
  pub not_empty : 0 < length s
  pub fits : length s < buffer_size

-- each line ends in a newline, and the request in one more
unfoldable pub request_text : List Bytes → Bytes → Bytes
request_text [] extra = b'\n' ∷ extra
request_text (l ∷ ls) extra = l ++ b'\n' ∷ request_text ls extra

-- the lines that are stored
unfoldable pub stored : List Bytes → List Bytes → List Bytes
stored lines [] = lines
stored lines (l ∷ ls) = stored (store_request_line lines l) ls

pub split_line :
    (p l x y : Bytes) → OneLine p → OneLine l → p ++ b'\n' ∷ x ≡ l ++ b'\n' ∷ y → (p ≡ l) × (x ≡ y)
split_line [] [] x y hp hl e = (refl, cc)
split_line [] (c ∷ l) x y hp hl e = let first : b'\n' ≡ c = cc in absurd (ground arith)
split_line (c ∷ p) [] x y hp hl e = let first : c ≡ b'\n' = cc in absurd (ground arith)
split_line (c ∷ p) (d ∷ l) x y hp hl e =
    let rest = split_line p l x y hp.1 hl.1 (cc) in
    let first : c ≡ d = cc in (ap₂ ◌∷◌ first rest.0, rest.1)

-- what the loop knows at `r`, from its parts
abbrev pub at : ℕ → Bytes → List Bytes → Bool → Scan
at offset line lines started = record {
  offset = offset;
  line = line;
  lines = lines;
  started = started;
}

pub scan_other :
    (s : Scan) (c : ℕ) (rest : Bytes)
    → (c == b'\n') ≡ false
    → scan_lines s (c ∷ rest) ≡ scan_lines (at s.offset (s.line ++ c ∷ []) s.lines s.started) rest
unfolding scan_lines
scan_other s c rest e = rw e refl

scan_end :
    (o : ℕ) (lines : List Bytes) (st : Bool) (c : ℕ) (rest : Bytes)
    → (c == b'\n') ≡ true
    → scan_lines (at o [] lines st) (c ∷ rest)
      ≡ returned
          (finished lines)
          (record { read_offset = o + 1; unread = rest; request_lines = lines })
unfolding scan_lines
scan_end o lines st c rest e = rw e refl

scan_next :
    (o : ℕ) (d : ℕ) (p : Bytes) (lines : List Bytes) (st : Bool) (c : ℕ) (rest : Bytes)
    → (c == b'\n') ≡ true
    → scan_lines (at o (d ∷ p) lines st) (c ∷ rest)
      ≡ scan_lines (at (o + length (d ∷ p) + 1) [] (store_request_line lines (d ∷ p)) true) rest
unfolding scan_lines
scan_next o d p lines st c rest e = rw e refl

-- the request has been read: `v` is still to come from the socket
pub record Done (s : Scan) (u v : Bytes) (ls : List Bytes) (extra : Bytes) (b : InputBuffer)
    : Type 0 where
  pub ends : scan_lines s u ≡ returned (finished (stored s.lines ls)) b
  pub holds : b.request_lines ≡ stored s.lines ls
  pub left : b.unread ++ v ≡ extra

-- what `v` brings makes `ls` complete
pub record Ready (s : Scan) (v : Bytes) (ls : List Bytes) (extra : Bytes) : Type 0 where
  pub one_line : OneLine s.line
  pub text : s.line ++ v ≡ request_text ls extra
  pub valid : All IsLine ls

-- the bytes are used up
pub record Rest (s : Scan) (u v : Bytes) (ls : List Bytes) (extra : Bytes) (s' : Scan)
    (ls' : List Bytes) : Type 0 where
  pub ends : scan_lines s u ≡ waiting s'
  pub ready : Ready s' v ls' extra
  pub same : stored s'.lines ls' ≡ stored s.lines ls

unfoldable pub Result : (s : Scan) (u v : Bytes) (ls : List Bytes) (extra : Bytes) → Type 0
Result s u v ls extra =
    ((b : InputBuffer) × Done s u v ls extra b)
    ⊎ ((s' : Scan) × (ls' : List Bytes) × Rest s u v ls extra s' ls')

carry :
    (s t : Scan) (w u v : Bytes) (ls ls' : List Bytes) (extra : Bytes)
    → scan_lines s w ≡ scan_lines t u
    → stored t.lines ls' ≡ stored s.lines ls
    → Result t u v ls' extra
    → Result s w v ls extra
unfolding Result
carry s t w u v ls ls' extra e f (inl (b, x)) = inl (
  b,
  record {
    ends = e ∙ x.ends ∙ ap (λ lines. returned (finished lines) b) f;
    holds = x.holds ∙ f;
    left = x.left;
  },
)
carry s t w u v ls ls' extra e f (inr (s', rest, x)) =
    inr (s', rest, record { ends = e ∙ x.ends; ready = x.ready; same = x.same ∙ f })

empty_line : (l : Bytes) → 0 < length l → [] ≡ l → ⊥
empty_line [] h e = omega arith
empty_line (c ∷ l) h e = cc

newline :
    (c : ℕ) (u : Bytes) (o : ℕ) (p : Bytes) (lines : List Bytes) (st : Bool) (v : Bytes)
    (ls : List Bytes) (extra : Bytes)
    → (c == b'\n') ≡ true
    → OneLine p
    → p ++ b'\n' ∷ (u ++ v) ≡ request_text ls extra
    → All IsLine ls
    → ((o : ℕ) (p : Bytes) (lines : List Bytes) (st : Bool) (ls : List Bytes)
        → Ready (at o p lines st) (u ++ v) ls extra
        → Result (at o p lines st) u v ls extra)
    → Result (at o p lines st) (c ∷ u) v ls extra
unfolding Result request_text stored
newline c u o [] lines st v [] extra e hp text valid ih = inl (
  _,
  record {
    ends = scan_end o lines st c u e;
    holds = refl;
    left = (split_line [] [] (u ++ v) extra tt tt text).1;
  },
)
newline c u o [] lines st v (l ∷ ls) extra e hp text valid ih =
    absurd (empty_line l valid.0.not_empty (split_line [] l _ _ tt valid.0.one_line text).0)
newline c u o (d ∷ p) lines st v [] extra e hp text valid ih =
    absurd (empty_line (d ∷ p) (omega arith) (sym (split_line (d ∷ p) [] _ _ hp tt text).0))
newline c u o (d ∷ p) lines st v (l ∷ ls) extra e hp text valid ih =
    let same = split_line (d ∷ p) l _ _ hp valid.0.one_line text in
    let lines' = store_request_line lines (d ∷ p) in
    let o' = o + length (d ∷ p) + 1 in
    carry (at o (d ∷ p) lines st) (at o' [] lines' true) (c ∷ u) u v (l ∷ ls) ls extra
      (scan_next o d p lines st c u e) (ap (λ l. stored (store_request_line lines l) ls) same.0)
      (ih o' [] lines' true ls (record { one_line = tt; text = same.1; valid = valid.1 }))

pub scan_lem :
    (u : Bytes) (o : ℕ) (p : Bytes) (lines : List Bytes) (st : Bool) (v : Bytes) (ls : List Bytes)
    (extra : Bytes)
    → Ready (at o p lines st) (u ++ v) ls extra
    → Result (at o p lines st) u v ls extra
unfolding Result
scan_lem [] o p lines st v ls extra r =
    inr (at o p lines st, ls, record { ends = unfold scan_lines in refl; ready = r; same = refl })
scan_lem (c ∷ u) o p lines st v ls extra r = elim (Bool-cases (c == b'\n')) [
  | inl e ↦
      let is : c ≡ b'\n' = ground arith in
      newline c u o p lines st v ls extra e r.one_line
        (ap (λ c. p ++ c ∷ (u ++ v)) (sym is) ∙ r.text) r.valid
        (λ o p lines st ls r. scan_lem u o p lines st v ls extra r)
  | inr e ↦
      let text : (p ++ c ∷ []) ++ (u ++ v) ≡ request_text ls extra =
        append_assoc p (c ∷ []) (u ++ v) ∙ r.text in
      carry (at o p lines st) (at o (p ++ c ∷ []) lines st) (c ∷ u) u v ls ls extra
        (scan_other (at o p lines st) c u e) refl
        (scan_lem u o (p ++ c ∷ []) lines st v ls extra (record {
          one_line = All-append _ p (c ∷ []) r.one_line (e, tt);
          text = text;
          valid = r.valid;
        }))
]

pub prefix_lem :
    (p l v y : Bytes)
    → OneLine p
    → OneLine l
    → p ++ v ≡ l ++ b'\n' ∷ y
    → (length p ≤ length l) × (0 < length v)
prefix_lem [] l v y hp hl e =
    (omega arith, omega (arith, ap (length {A = ℕ}) e, length-append l (b'\n' ∷ y)))
prefix_lem (c ∷ p) [] v y hp hl e = let first : c ≡ b'\n' = cc in absurd (ground arith)
prefix_lem (c ∷ p) (d ∷ l) v y hp hl e =
    let rest = prefix_lem p l v y hp.1 hl.1 (cc) in (omega (arith, rest.0), rest.1)
