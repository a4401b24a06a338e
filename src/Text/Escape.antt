-- ===== src/Text/Escape.antt =====
-- `unescape_newlines` of src/strutil.cc undoes the escaping of a command's text.
use naemon_livestatus.Prelude.{
  ℕ, ◌≡◌, refl, ap, ap₂, ◌∙◌, sym, false, ==_iff, [], ◌∷◌, Bool-cases, inl, inr, ◌==◌,
  if◌then◌else◌,
}
use naemon_livestatus.Text.{Bytes, unescape_newlines}

-- how a client writes a text so that it stays on one line
pub escape_newlines : Bytes → Bytes
escape_newlines [] = []
escape_newlines (c ∷ s) =
    let rest = escape_newlines s in
    if c == b'\n'
    then b'\\' ∷ b'n' ∷ rest
    else if c == b'\\'
    then b'\\' ∷ b'\\' ∷ rest
    else c ∷ rest

unescape-plain :
    (c : ℕ) (s : Bytes) → (c == b'\\') ≡ false → unescape_newlines (c ∷ s) ≡ c ∷ unescape_newlines s
unfolding unescape_newlines
unescape-plain c [] h = rw h
unescape-plain c (e ∷ s) h = rw h

unescape-escaped :
    (e : ℕ) (s : Bytes)
    → unescape_newlines (b'\\' ∷ e ∷ s) ≡ (if e == b'n' then b'\n' else e) ∷ unescape_newlines s
unfolding unescape_newlines
unescape-escaped e s = refl

-- A text whose newlines and backslashes a client escapes comes back from unescape_newlines as it
-- was.
unescape-escape_newlines : (s : Bytes) → unescape_newlines (escape_newlines s) ≡ s
unfolding escape_newlines
unescape-escape_newlines [] = unfold unescape_newlines in refl
unescape-escape_newlines (c ∷ s) = elim (Bool-cases (c == b'\n')) [
  | inl e ↦ rw e (
      unescape-escaped b'n' (escape_newlines s)
      ∙ ap₂ ◌∷◌ (sym ((==_iff c b'\n').0 e)) (unescape-escape_newlines s))
  | inr e ↦ elim (Bool-cases (c == b'\\')) [
    | inl f ↦
        rw (e, f)
          (unescape-escaped b'\\' (escape_newlines s)
            ∙ ap₂ ◌∷◌ (sym ((==_iff c b'\\').0 f)) (unescape-escape_newlines s))
    | inr f ↦
        rw (e, f) (unescape-plain c (escape_newlines s) f ∙ ap (◌∷◌ c) (unescape-escape_newlines s))
  ]
]
