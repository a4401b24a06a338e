-- ===== src/LogEntry/Tokens.antt =====
-- `next_token` of src/strutil.cc on a text whose tokens are known.
use naemon_livestatus.Prelude.{
  ℕ, zero, suc, ◌+◌, length, take, drop, get_or, take-append, All-append, subst, ◌≡◌, refl, ap, ◌∙◌,
  sym, false, true, [], ◌∷◌, ◌++◌, All, some, ◌==◌, arith, ◌≢◌, reverse,
}
use mathlib.Core.List.{reverse-append, reverse-reverse}
use naemon_livestatus.Text.{Bytes, take_token, next_token, save_next_token}
use naemon_livestatus.LogEntry.Parse.{drop_newlines, strip_newlines}

-- a token that is not empty and has no delimiter in it
abbrev pub IsToken : ℕ → Bytes → Type 0
IsToken delim w = (w ≢ []) × All (λ c. (c == delim) ≡ false) w

take_token-token :
    (delim : ℕ) (w rest : Bytes)
    → All (λ c. (c == delim) ≡ false) w
    → take_token delim (w ++ delim ∷ rest) ≡ (w, rest)
unfolding take_token
take_token-token delim [] rest h = let same : (delim == delim) ≡ true = ground arith in rw same
take_token-token delim (c ∷ w) rest h = rw (h.0, take_token-token delim w rest h.1)

take_token-last :
    (delim : ℕ) (w : Bytes) → All (λ c. (c == delim) ≡ false) w → take_token delim w ≡ (w, [])
unfolding take_token
take_token-last delim [] h = refl
take_token-last delim (c ∷ w) h = rw (h.0, take_token-last delim w h.1)

pub next_token-token :
    (delim : ℕ) (w rest : Bytes)
    → IsToken delim w
    → next_token delim (w ++ delim ∷ rest) ≡ (some w, rest)
unfolding next_token
next_token-token delim [] rest h = absurd (h.0 refl)
next_token-token delim (c ∷ w) rest h = rw (take_token-token delim (c ∷ w) rest h.1)

pub next_token-last : (delim : ℕ) (w : Bytes) → IsToken delim w → next_token delim w ≡ (some w, [])
unfolding next_token
next_token-last delim [] h = absurd (h.0 refl)
next_token-last delim (c ∷ w) h = rw (take_token-last delim (c ∷ w) h.1)

pub save_next_token-token :
    (delim : ℕ) (w rest : Bytes)
    → IsToken delim w
    → save_next_token delim (w ++ delim ∷ rest) ≡ (w, rest)
unfolding save_next_token
save_next_token-token delim w rest h =
    rw (next_token-token delim w rest h, save_next_token, next_token-token delim w rest h) refl

All-reverse {κ} : (P : ℕ → Type κ) (s : Bytes) → All P s → All P (reverse s)
All-reverse P [] h = tt
All-reverse P (c ∷ s) h =
    subst (All P) (sym (reverse-append (c ∷ []) s))
      (All-append P (reverse s) (c ∷ []) (All-reverse P s h.1) (h.0, tt))

drop_newlines-plain : (s : Bytes) → All (λ c. (c == b'\n') ≡ false) s → drop_newlines s ≡ s
unfolding drop_newlines
drop_newlines-plain [] h = refl
drop_newlines-plain (c ∷ s) h = rw h.0 refl

-- a line with no newline but the last byte
pub strip_newlines-line :
    (s : Bytes) → All (λ c. (c == b'\n') ≡ false) s → strip_newlines (s ++ b'\n' ∷ []) ≡ s
unfolding strip_newlines drop_newlines
strip_newlines-line s h =
    ap (λ r. reverse (drop_newlines r)) (reverse-append s (b'\n' ∷ []))
    ∙ ap reverse (drop_newlines-plain (reverse s) (All-reverse _ s h))
    ∙ reverse-reverse s

-- The bytes around a time stamp.
pub take-stamp : (k : ℕ) (s rest : Bytes) → length s ≡ k → take k (s ++ rest) ≡ s
take-stamp k s rest h = subst (λ n. take n (s ++ rest) ≡ s) h (take-append s rest)

pub drop-stamp : (k : ℕ) (s rest : Bytes) → k ≡ length s + 2 → drop k (s ++ rest) ≡ drop 2 rest
drop-stamp k [] rest h = ap (λ n. drop n rest) h
drop-stamp zero (c ∷ s) rest h = absurd (omega arith)
drop-stamp (suc k) (c ∷ s) rest h = drop-stamp k s rest (omega arith)

pub get_or-stamp :
    (k : ℕ) (s rest : Bytes) → k ≡ length s → get_or (s ++ rest) k 0 ≡ get_or rest 0 0
get_or-stamp k [] rest h = ap (λ n. get_or rest n 0) h
get_or-stamp zero (c ∷ s) rest h = absurd (omega arith)
get_or-stamp (suc k) (c ∷ s) rest h = get_or-stamp k s rest (omega arith)
