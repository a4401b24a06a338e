-- ===== src/Output/Header.antt =====
-- The fixed16 header that src/OutputBuffer.cc puts in front of a response.
use native.Mathlib.Nat.{pow-suc}
use naemon_livestatus.Prelude.{
  ℕ, zero, suc, ◌+◌, ◌-◌, ◌/◌, ◌%◌, ◌^◌, ◌≤◌, ◌<◌, ◌≡◌, refl, ap, sym, ◌∙◌, Bool-cases, inl, inr,
  [], ◌∷◌, ◌++◌, ltb, length, length-append, length-replicate, take, drop, take_all, replicate,
  arith, false, append_assoc, subst,
}
use naemon_livestatus.Text.{Bytes, decimal, decimal_onto, digits_value, lstrip, is_digit}
use naemon_livestatus.Text.Numbers.{digits_value-decimal_onto, decimal_onto_head, digit_lem}
use naemon_livestatus.Output.{padded, fixed16_header}

length-decimal_onto :
    (k fuel n : ℕ) (acc : Bytes)
    → n < fuel
    → n < 10 ^ suc k
    → length (decimal_onto fuel n acc) ≤ suc k + length acc
unfolding decimal_onto
length-decimal_onto k zero n acc h p = absurd (omega arith)
length-decimal_onto zero (suc fuel) n acc h p = elim (Bool-cases (ltb n 10)) [
  | inl e ↦ rw e (omega arith)
  | inr e ↦ absurd (ground arith)
]
length-decimal_onto (suc k) (suc fuel) n acc h p = elim (Bool-cases (ltb n 10)) [
  | inl e ↦ rw e (omega arith)
  | inr e ↦
      let less : n / 10 < 10 ^ suc k = omega (arith, pow-suc 10 (suc k)) in
      rw e (
        omega
          (arith, length-decimal_onto k fuel (n / 10) ((b'0' + n % 10) ∷ acc) (ground arith) less))
]

length-decimal : (k n : ℕ) → n < 10 ^ suc k → length (decimal n) ≤ suc k
unfolding decimal
length-decimal k n p = omega (arith, length-decimal_onto k (n + 1) n [] (omega arith) p)

decimal_onto-append :
    (fuel n : ℕ) (acc s : Bytes) → decimal_onto fuel n acc ++ s ≡ decimal_onto fuel n (acc ++ s)
unfolding decimal_onto
decimal_onto-append zero n acc s = refl
decimal_onto-append (suc fuel) n acc s = elim (Bool-cases (ltb n 10)) [
  | inl e ↦ rw e refl
  | inr e ↦ rw e (decimal_onto-append fuel (n / 10) ((b'0' + n % 10) ∷ acc) s)
]

-- a number is read up to the first byte that is no digit
digits_value-decimal :
    (n c : ℕ) (s : Bytes) → is_digit c ≡ false → digits_value 0 (decimal n ++ c ∷ s) ≡ n
unfolding decimal
digits_value-decimal n c s h =
    ap (digits_value 0) (decimal_onto-append (n + 1) n [] (c ∷ s))
    ∙ digits_value-decimal_onto (n + 1) n (c ∷ s) (omega arith)
    ∙ (unfold digits_value in rw h refl)

digits_value-zeros : (k : ℕ) (s : Bytes) → digits_value 0 (replicate k b'0' ++ s) ≡ digits_value 0 s
unfolding digits_value
digits_value-zeros zero s = refl
digits_value-zeros (suc k) s = digits_value-zeros k s

lstrip-blanks : (k : ℕ) (s : Bytes) → lstrip (replicate k b' ' ++ s) ≡ lstrip s
unfolding lstrip
lstrip-blanks zero s = refl
lstrip-blanks (suc k) s = lstrip-blanks k s

lstrip-decimal : (n : ℕ) (s : Bytes) → lstrip (decimal n ++ s) ≡ decimal n ++ s
unfolding decimal
lstrip-decimal n s =
    let (d, t, less, e) = decimal_onto_head (n + 1) n [] (omega arith) in
    let stays : lstrip ((b'0' + d) ∷ (t ++ s)) ≡ (b'0' + d) ∷ (t ++ s) =
      unfold lstrip in rw (digit_lem d less).0 refl in
    ap (λ z. lstrip (z ++ s)) e ∙ stays ∙ ap (λ z. z ++ s) (sym e)

length-padded :
    (fill width : ℕ) (s : Bytes) → length s ≤ width → length (padded fill width s) ≡ width
length-padded fill width s h = omega (
  arith,
  length-append (replicate (width - length s) fill) s,
  length-replicate (width - length s) fill,
)

drop_behind : (k : ℕ) (s : Bytes) (c : ℕ) (t : Bytes) → length s ≡ k → drop (suc k) (s ++ c ∷ t) ≡ t
drop_behind k s c t e = subst (λ n. drop (suc n) (s ++ c ∷ t) ≡ t) e (go s)
  where
    go : (s : Bytes) → drop (suc (length s)) (s ++ c ∷ t) ≡ t
    go = elim [ [] ↦ refl | x ∷ (xs → ih) ↦ ih ]

padded_value :
    (k size : ℕ) → digits_value 0 (lstrip ((replicate k b' ' ++ decimal size) ++ b'\n' ∷ [])) ≡ size
padded_value k size =
    ap (λ z. digits_value 0 (lstrip z)) (append_assoc (replicate k b' ') (decimal size) _)
    ∙ ap (digits_value 0) (lstrip-blanks k _ ∙ lstrip-decimal size (b'\n' ∷ []))
    ∙ digits_value-decimal size b'\n' [] (unfold is_digit in refl)

-- The header of a response code of at most three digits and a size of at most eleven is 16 bytes
-- long, and the code and the size are read back from it.
pub fixed16_header_lem :
    (code size : ℕ)
    → code < 10 ^ 3
    → size < 10 ^ 11
    → (length (fixed16_header code size) ≡ 16)
      × (digits_value 0 (fixed16_header code size) ≡ code)
      × (digits_value 0 (lstrip (drop 4 (fixed16_header code size))) ≡ size)
unfolding fixed16_header
fixed16_header_lem code size hc hs =
    let first = padded b'0' 3 (decimal code) in
    let second = padded b' ' 11 (decimal size) in
    let rest = b' ' ∷ (second ++ b'\n' ∷ []) in
    let lf : length first ≡ 3 = length-padded b'0' 3 (decimal code) (length-decimal 2 code hc) in
    let ls : length second ≡ 11 =
      length-padded b' ' 11 (decimal size) (length-decimal 10 size hs) in
    let whole : length (first ++ rest) ≡ 16 =
      omega (arith, length-append first rest, length-append second (b'\n' ∷ []), lf, ls) in
    let cut : take 16 (first ++ rest) ≡ first ++ rest = take_all 16 (first ++ rest) (omega arith) in
    rw cut (
      whole,
      ap (digits_value 0)
            (append_assoc (replicate (3 - length (decimal code)) b'0') (decimal code) rest)
          ∙ digits_value-zeros (3 - length (decimal code)) (decimal code ++ rest)
          ∙ digits_value-decimal code b' ' _ (unfold is_digit in refl),
      ap (λ z. digits_value 0 (lstrip z)) (drop_behind 3 first b' ' (second ++ b'\n' ∷ []) lf)
          ∙ padded_value (11 - length (decimal size)) size,
    )
