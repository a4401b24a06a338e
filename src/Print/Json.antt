-- ===== src/Print/Json.antt =====
-- The loop of `outputString` of src/Query.cc where it goes byte by byte: in the encoding latin1, and
-- in the others on ASCII.
use naemon_livestatus.Prelude.{
  ℕ, zero, suc, ◌≤◌, ◌<◌, ◌≡◌, ◌⊎◌, refl, ap, ap₂, sym, ◌∙◌, subst, [], ◌∷◌, ◌++◌, some, arith,
  length, Bool-cases, List-cases, inl, inr, append_assoc, append-nil, true, false, All, ltb, leb,
  ◌==◌, ◌||◌, if◌then◌else◌,
}
use naemon_livestatus.Text.{Bytes}
use naemon_livestatus.Output.{OutputBuffer, add_buffer, is_empty}
use naemon_livestatus.Output.Capacity.{IsValid, Appended, add_buffer-Appended}
use naemon_livestatus.Print.{
  DataEncoding, utf8, latin1, mixed, json_significant, plain_run, emit, escape_at, json_loop,
  unicode_escape,
}

-- how one byte is written
unfoldable pub escaped_byte : ℕ → Bytes
escaped_byte c =
    if ltb c 32
    then unicode_escape c
    else if c == b'"' || c == b'\\'
    then b'\\' ∷ c ∷ []
    else if leb 0x80 c
    then unicode_escape c
    else c ∷ []

unfoldable pub escaped_bytes : Bytes → Bytes
escaped_bytes [] = []
escaped_bytes (c ∷ s) = escaped_byte c ++ escaped_bytes s

-- the strings whose bytes are written one by one
abbrev pub IsBytewise : DataEncoding → Bytes → Type 0
IsBytewise latin1 = All (λ c. c < 0x100)
IsBytewise _ = All (λ c. c < 0x80)

escaped_byte-plain : (c : ℕ) → json_significant c ≡ false → escaped_byte c ≡ c ∷ []
unfolding json_significant escaped_byte
escaped_byte-plain c h = ground arith

escape_at-significant :
    (encoding : DataEncoding) (c : ℕ) (s : Bytes)
    → json_significant c ≡ true
    → (encoding ≡ latin1) ⊎ (c < 0x80)
    → escape_at encoding (c ∷ s) ≡ emit (escaped_byte c) 1
unfolding json_significant escaped_byte escape_at
escape_at-significant latin1 c s h k = ground arith
escape_at-significant utf8 c s h (inl e) = cc
escape_at-significant utf8 c s h (inr k) = ground arith
escape_at-significant mixed c s h (inl e) = cc
escape_at-significant mixed c s h (inr k) = ground arith

pub Appended-trans :
    (o o' o'' : OutputBuffer) (s t : Bytes)
    → Appended o s o'
    → Appended o' t o''
    → Appended o (s ++ t) o''
Appended-trans o o' o'' s t a b = record {
  valid = b.valid;
  content = b.content ∙ ap (λ z. z ++ t) a.content ∙ append_assoc o.buffer s t;
  error = b.error ∙ a.error;
  code = b.code ∙ a.code;
  header = b.header ∙ a.header;
  keepalive = b.keepalive ∙ a.keepalive;
}

cons_head : (b c : ℕ) (s t : Bytes) → b ∷ s ≡ c ∷ t → b ≡ c
cons_head b c s t e = cc

escaped_bytes-plain :
    (c : ℕ) (s t : Bytes)
    → json_significant c ≡ false
    → escaped_bytes s ≡ t
    → escaped_bytes (c ∷ s) ≡ c ∷ t
unfolding escaped_bytes
escaped_bytes-plain c s t h e = ap₂ ◌++◌ (escaped_byte-plain c h) e

-- a plain run stands for itself, and ends at a significant byte or at the end
record Run (encoding : DataEncoding) (s run rest : Bytes) : Type 0 where
  same : escaped_bytes s ≡ run ++ escaped_bytes rest
  shorter : length rest ≤ length s
  bytewise : IsBytewise encoding rest
  head : (c : ℕ) (t : Bytes) → rest ≡ c ∷ t → json_significant c ≡ true

tail-IsBytewise :
    (encoding : DataEncoding) (c : ℕ) (s : Bytes)
    → IsBytewise encoding (c ∷ s)
    → IsBytewise encoding s × ((encoding ≡ latin1) ⊎ (c < 0x80))
tail-IsBytewise latin1 c s h = (h.1, inl refl)
tail-IsBytewise utf8 c s h = (h.1, inr h.0)
tail-IsBytewise mixed c s h = (h.1, inr h.0)

plain_run-Run :
    (encoding : DataEncoding) (s : Bytes)
    → IsBytewise encoding s
    → Run encoding s (plain_run s).0 (plain_run s).1
unfolding plain_run
plain_run-Run encoding [] h = record {
  same = refl;
  shorter = omega arith;
  bytewise = h;
  head = λ c t e. cc;
}
plain_run-Run encoding (c ∷ s) h = elim (Bool-cases (json_significant c)) [
  | inl e ↦ rw e (record {
    same = refl;
    shorter = omega arith;
    bytewise = h;
    head = λ b t f. subst (λ z. json_significant z ≡ true) (cons_head c b s t f) e;
  })
  | inr e ↦
      let ih = plain_run-Run encoding s (tail-IsBytewise encoding c s h).0 in
      rw e (record {
        same = escaped_bytes-plain c s _ e ih.same;
        shorter = omega (arith, ih.shorter);
        bytewise = ih.bytewise;
        head = ih.head;
      })
]

pub Appended-nil : (o : OutputBuffer) → IsValid o → Appended o [] o
Appended-nil o v = record {
  valid = v;
  content = sym (append-nil o.buffer);
  error = refl;
  code = refl;
  header = refl;
  keepalive = refl;
}

-- the plain run is written, unless it is empty
abbrev write_run : OutputBuffer → Bytes → OutputBuffer
write_run o run = if is_empty run then o else add_buffer o run

write_run-Appended : (o : OutputBuffer) (run : Bytes) → IsValid o → Appended o run (write_run o run)
write_run-Appended o [] v = Appended-nil o v
write_run-Appended o (c ∷ run) v = add_buffer-Appended o (c ∷ run) v

json_loop_end :
    (encoding : DataEncoding) (fuel : ℕ) (o : OutputBuffer) (s : Bytes)
    → (plain_run s).1 ≡ []
    → json_loop encoding (suc fuel) o s ≡ some (write_run o (plain_run s).0)
unfolding json_loop
json_loop_end encoding fuel o s e = rw e refl

json_loop_next :
    (encoding : DataEncoding) (fuel : ℕ) (o : OutputBuffer) (s bytes t : Bytes) (c : ℕ)
    → (plain_run s).1 ≡ c ∷ t
    → escape_at encoding (c ∷ t) ≡ emit bytes 1
    → json_loop encoding (suc fuel) o s
      ≡ json_loop encoding fuel (add_buffer (write_run o (plain_run s).0) bytes) t
unfolding json_loop
json_loop_next encoding fuel o s bytes t c e f = rw (e, f) (rw e refl)

-- The loop ends inside the string, and appends the bytes one by one, each escaped where JSON asks
-- for it.
pub json_loop_lem :
    (encoding : DataEncoding) (fuel : ℕ) (o : OutputBuffer) (s : Bytes)
    → length s < fuel
    → IsBytewise encoding s
    → IsValid o
    → (o' : OutputBuffer) × (json_loop encoding fuel o s ≡ some o')
      × Appended o (escaped_bytes s) o'
json_loop_lem encoding zero o s h b v = absurd (omega arith)
json_loop_lem encoding (suc fuel) o s h b v =
    let r = plain_run-Run encoding s b in
    let o1 = write_run o (plain_run s).0 in
    let a1 = write_run-Appended o (plain_run s).0 v in
    elim (List-cases (plain_run s).1) [
      | inl e ↦ (
        o1,
        json_loop_end encoding fuel o s e,
        subst (λ z. Appended o z o1)
            (sym (r.same ∙ ap (◌++◌ (plain_run s).0) (nothing e) ∙ append-nil (plain_run s).0)) a1,
      )
      | inr (c, t, e) ↦
          let (tail, bytewise) =
            tail-IsBytewise encoding c t (subst (IsBytewise encoding) e r.bytewise) in
          let a2 = add_buffer-Appended o1 (escaped_byte c) a1.valid in
          let (o', f, a3) =
            json_loop_lem encoding fuel (add_buffer o1 (escaped_byte c)) t
              (omega (arith, r.shorter, ap (length {0}) e)) tail a2.valid in
          (
            o',
            json_loop_next encoding fuel o s (escaped_byte c) t c e
                  (escape_at-significant encoding c t (r.head c t e) bytewise)
                ∙ f,
            subst (λ z. Appended o z o')
                (sym (
                  r.same
                  ∙ ap (◌++◌ (plain_run s).0) (first e)
                  ∙ sym (append_assoc (plain_run s).0 (escaped_byte c) (escaped_bytes t))))
                (Appended-trans _ _ _ _ _ (Appended-trans _ _ _ _ _ a1 a2) a3),
          )
    ]
  where
    nothing : {rest : Bytes} → rest ≡ [] → escaped_bytes rest ≡ []
    nothing e = unfold escaped_bytes in ap escaped_bytes e

    first :
        {rest : Bytes} {c : ℕ} {t : Bytes}
        → rest ≡ c ∷ t
        → escaped_bytes rest ≡ escaped_byte c ++ escaped_bytes t
    first e = unfold escaped_bytes in ap escaped_bytes e
