-- ===== src/Text/Fields.antt =====
-- `rstrip`, `lstrip` and `next_field` of src/strutil.cc against descriptions of words.
use mathlib.Core.List.{reverse-append, reverse-reverse}
use naemon_livestatus.Prelude.{
  ℕ, zero, suc, ◌<◌, ◌≡◌, ◌≢◌, refl, ap, sym, ◌∙◌, subst, true, false, List, [], ◌∷◌, ◌++◌, Option,
  none, some, reverse, arith, All, All-append, length, length-append, Bool-cases, inl, inr,
  append-nil,
}
use naemon_livestatus.Text.{Bytes, is_space, lstrip, rstrip, take_field, next_field, fields}

abbrev pub IsSpaces : Bytes → Type 0
IsSpaces = All (λ c. is_space c ≡ true)

-- a word: not empty, and no white space in it
abbrev pub IsWord : Bytes → Type 0
IsWord w = (w ≢ []) × All (λ c. is_space c ≡ false) w

-- the last byte of the string is no white space
abbrev pub EndsInWord : Bytes → Type 0
EndsInWord s = (c : ℕ) (t : Bytes) → s ≡ t ++ c ∷ [] → is_space c ≡ false

lstrip_split : (s : Bytes) → (sp : Bytes) × IsSpaces sp × (s ≡ sp ++ lstrip s)
unfolding lstrip
lstrip_split [] = ([], tt, refl)
lstrip_split (c ∷ s) = elim (Bool-cases (is_space c)) [
  | inl e ↦ let (sp, h, f) = lstrip_split s in (c ∷ sp, (e, h), rw e (ap (◌∷◌ c) f))
  | inr e ↦ ([], tt, rw e refl)
]

lstrip_head : (s t : Bytes) (c : ℕ) → lstrip s ≡ c ∷ t → is_space c ≡ false
unfolding lstrip
lstrip_head [] t c e = cc
lstrip_head (b ∷ s) t c e = elim (Bool-cases (is_space b)) [
  | inl h ↦ lstrip_head s t c (ground arith)
  | inr h ↦ ground arith
]

reverse-IsSpaces : (s : Bytes) → IsSpaces s → IsSpaces (reverse s)
reverse-IsSpaces [] h = tt
reverse-IsSpaces (c ∷ s) h =
    subst IsSpaces (sym (reverse-append (c ∷ []) s))
      (All-append _ (reverse s) (c ∷ []) (reverse-IsSpaces s h.1) (h.0, tt))

-- rstrip leaves the text without some white space at its end, and what it leaves does not end in
-- white space.
pub rstrip_lem :
    (s : Bytes) → ((sp : Bytes) × IsSpaces sp × (s ≡ rstrip s ++ sp)) × EndsInWord (rstrip s)
unfolding rstrip
rstrip_lem s =
    let (sp, h, f) = lstrip_split (reverse s) in
    (
      (
        reverse sp,
        reverse-IsSpaces sp h,
        sym (reverse-reverse s) ∙ ap reverse f ∙ reverse-append sp (lstrip (reverse s)),
      ),
      λ c t e.
          lstrip_head (reverse s) (reverse t) c
            (sym (reverse-reverse (lstrip (reverse s))) ∙ ap reverse e ∙ reverse-append t (c ∷ [])),
    )

take_field-word :
    (w rest : Bytes) (sep : ℕ)
    → All (λ c. is_space c ≡ false) w
    → is_space sep ≡ true
    → take_field (w ++ sep ∷ rest) ≡ (w, rest)
unfolding take_field
take_field-word [] rest sep h k = rw k
take_field-word (c ∷ w) rest sep h k = rw (h.0, take_field-word w rest sep h.1 k)

take_field-last : (w : Bytes) → All (λ c. is_space c ≡ false) w → take_field w ≡ (w, [])
unfolding take_field
take_field-last [] h = refl
take_field-last (c ∷ w) h = rw (h.0, take_field-last w h.1)

lstrip-spaces : (sp s : Bytes) → IsSpaces sp → lstrip (sp ++ s) ≡ lstrip s
unfolding lstrip
lstrip-spaces [] s h = refl
lstrip-spaces (c ∷ sp) s h = rw h.0 (lstrip-spaces sp s h.1)

lstrip-word : (c : ℕ) (s : Bytes) → is_space c ≡ false → lstrip (c ∷ s) ≡ c ∷ s
unfolding lstrip
lstrip-word c s h = rw h

next_field-word_at :
    (sp w s : Bytes)
    → IsSpaces sp
    → IsWord w
    → next_field (sp ++ (w ++ s)) ≡ (some (take_field (w ++ s)).0, (take_field (w ++ s)).1)
unfolding next_field
next_field-word_at sp [] s h k = absurd (k.0 refl)
next_field-word_at sp (c ∷ w) s h k =
    let e : lstrip (sp ++ (c ∷ (w ++ s))) ≡ c ∷ (w ++ s) =
      lstrip-spaces sp (c ∷ (w ++ s)) h ∙ lstrip-word c (w ++ s) k.1.0 in
    rw (e, next_field) refl

next_field-spaces : (sp : Bytes) → IsSpaces sp → next_field sp ≡ (none, [])
unfolding next_field
next_field-spaces sp h =
    let e : lstrip sp ≡ [] = ap lstrip (sym (append-nil sp)) ∙ lstrip-spaces sp [] h in
    rw (e, next_field) refl

-- `s` is a line of the words `ws`, with white space between them, before and after
pub data Line : List Bytes → Bytes → Type 0 where
  blank : {sp : Bytes} → IsSpaces sp → Line [] sp
  last : {s : Bytes} (sp w : Bytes) → IsSpaces sp → IsWord w → s ≡ sp ++ w → Line (w ∷ []) s
  word :
      {s : Bytes} {ws : List Bytes} (sp w : Bytes) (sep : ℕ) (rest : Bytes)
      → IsSpaces sp
      → IsWord w
      → is_space sep ≡ true
      → s ≡ sp ++ (w ++ sep ∷ rest)
      → Line ws rest
      → Line (w ∷ ws) s

length-word_line : (sp w rest : Bytes) (sep : ℕ) → length rest < length (sp ++ (w ++ sep ∷ rest))
length-word_line sp w rest sep =
    omega (arith, length-append sp (w ++ sep ∷ rest), length-append w (sep ∷ rest))

next_field-last : (sp w : Bytes) → IsSpaces sp → IsWord w → next_field (sp ++ w) ≡ (some w, [])
next_field-last sp w h k =
    let e : next_field (sp ++ w) ≡ next_field (sp ++ (w ++ [])) =
      ap (λ z. next_field (sp ++ z)) (sym (append-nil w)) in
    e
    ∙ next_field-word_at sp w [] h k
    ∙ ap (λ z. (some (take_field z).0, (take_field z).1)) (append-nil w)
    ∙ ap (λ (z : Bytes × Bytes). (some z.0, z.1)) (take_field-last w k.1)

next_field-word :
    (sp w rest : Bytes) (sep : ℕ)
    → IsSpaces sp
    → IsWord w
    → is_space sep ≡ true
    → next_field (sp ++ (w ++ sep ∷ rest)) ≡ (some w, rest)
next_field-word sp w rest sep h k g =
    next_field-word_at sp w (sep ∷ rest) h k
    ∙ ap (λ (z : Bytes × Bytes). (some z.0, z.1)) (take_field-word w rest sep k.1 g)

length-word : (w : Bytes) → IsWord w → 0 < length w
length-word [] k = absurd (k.0 refl)
length-word (c ∷ w) k = omega arith

fields-nil : (fuel : ℕ) → 0 < fuel → fields fuel [] ≡ some []
unfolding fields
fields-nil zero h = absurd (omega arith)
fields-nil (suc fuel) h = refl

fields-step :
    (fuel : ℕ) (s w rest : Bytes) (ws : List Bytes)
    → next_field s ≡ (some w, rest)
    → fields fuel rest ≡ some ws
    → fields (suc fuel) s ≡ some (w ∷ ws)
unfolding fields
fields-step fuel s w rest ws e f =
    let first : (next_field s).0 ≡ some w = ap (λ (z : Option Bytes × Bytes). z.0) e in
    let more : fields fuel (next_field s).1 ≡ some ws =
      ap (λ (z : Option Bytes × Bytes). fields fuel z.1) e ∙ f in
    rw (first, more, fields) refl

-- Reading a line field by field, with fuel above its length, gives exactly its words, which white
-- space separates.
fields-Line :
    {ws : List Bytes} {s : Bytes} (fuel : ℕ) → Line ws s → length s < fuel → fields fuel s ≡ some ws
unfolding fields
fields-Line zero l h = absurd (omega arith)
fields-Line (suc fuel) (blank {sp} h) f = rw (next_field-spaces sp h, fields) refl
fields-Line (suc fuel) (last {s = s} sp w h k e) f =
    fields-step fuel s w [] [] (ap next_field e ∙ next_field-last sp w h k)
      (fields-nil fuel (omega (arith, length-word w k, ap (length {0}) e, length-append sp w)))
fields-Line (suc fuel) (word {s = s} {ws = ws} sp w sep rest h k g e l) f =
    fields-step fuel s w rest ws (ap next_field e ∙ next_field-word sp w rest sep h k g)
      (fields-Line fuel l (omega (arith, ap (length {0}) e, length-word_line sp w rest sep)))
