-- ===== src/Output/Capacity.antt =====
-- The buffer never writes behind its end.
use naemon_livestatus.Prelude.{
  ℕ, zero, suc, ◌+◌, ◌-◌, ◌*◌, ◌/◌, ◌≤◌, ◌≡◌, refl, ap, Bool-cases, inl, inr, [], ◌∷◌, ◌++◌, ltb,
  length, length-append, arith,
}
use naemon_livestatus.Text.{Bytes}
use naemon_livestatus.Output.{OutputBuffer, grow, reserve, add_buffer, add_char}

-- Each round makes the buffer larger, so the loop ends by its test after `needed - max_size` rounds.
grow_enough :
    (fuel max_size needed : ℕ)
    → 4 ≤ max_size
    → needed - max_size ≤ fuel
    → (needed ≤ grow fuel max_size needed) × (max_size ≤ grow fuel max_size needed)
unfolding grow
grow_enough zero m n h f = (omega arith, omega arith)
grow_enough (suc fuel) m n h f = elim (Bool-cases (ltb m n)) [
  | inr e ↦ rw e (ground arith, omega arith)
  | inl e ↦ rw e (elim (Bool-cases (ltb m (500 * 1024 * 1024))) [
    | inl small ↦ rw small (
        let ih = grow_enough fuel (m * 2) n (omega arith) (ground arith) in
        (ih.0, omega (arith, ih.1)))
    | inr large ↦ rw large (
        let ih = grow_enough fuel (m + m / 4) n (omega arith) (ground arith) in
        (ih.0, omega (arith, ih.1)))
  ])
]

-- the bytes lie within the allocated memory
pub record IsValid (o : OutputBuffer) : Type 0 where
  pub fits : length o.buffer ≤ o.max_size
  pub allocated : 4 ≤ o.max_size

-- what appending `bytes` may change
pub record Appended (o : OutputBuffer) (bytes : Bytes) (o' : OutputBuffer) : Type 0 where
  pub valid : IsValid o'
  pub content : o'.buffer ≡ o.buffer ++ bytes
  pub error : o'.error_message ≡ o.error_message
  pub code : o'.response_code ≡ o.response_code
  pub header : o'.response_header ≡ o.response_header
  pub keepalive : o'.do_keepalive ≡ o.do_keepalive

-- what making room for `len` bytes may change
record Reserved (o : OutputBuffer) (len : ℕ) (o' : OutputBuffer) : Type 0 where
  room : length o.buffer + len ≤ o'.max_size
  allocated : 4 ≤ o'.max_size
  content : o'.buffer ≡ o.buffer
  error : o'.error_message ≡ o.error_message
  code : o'.response_code ≡ o.response_code
  header : o'.response_header ≡ o.response_header
  keepalive : o'.do_keepalive ≡ o.do_keepalive

reserve_lem : (o : OutputBuffer) (len : ℕ) → IsValid o → Reserved o len (reserve o len)
unfolding reserve
reserve_lem o len v =
    let needed = length o.buffer + len in
    elim (Bool-cases (ltb o.max_size needed)) [
      | inl more ↦
          let (enough, larger) = grow_enough needed o.max_size needed v.allocated (omega arith) in
          rw more (record {
            room = enough;
            allocated = omega (arith, larger, v.allocated);
            content = refl;
            error = refl;
            code = refl;
            header = refl;
            keepalive = refl;
          })
      | inr fits ↦ rw fits (record {
        room = ground arith;
        allocated = v.allocated;
        content = refl;
        error = refl;
        code = refl;
        header = refl;
        keepalive = refl;
      })
    ]

Reserved-Appended :
    (o o' : OutputBuffer) (bytes : Bytes)
    → Reserved o (length bytes) o'
    → Appended o bytes (record o' { buffer = o'.buffer ++ bytes })
Reserved-Appended o o' bytes r = record {
  valid = record {
    fits = omega (arith, r.room, ap (length {0}) r.content, length-append o'.buffer bytes);
    allocated = r.allocated;
  };
  content = ap (λ s. s ++ bytes) r.content;
  error = r.error;
  code = r.code;
  header = r.header;
  keepalive = r.keepalive;
}

-- addBuffer on a buffer that lies within its memory, of at least four bytes, grows the memory where
-- that is needed, appends the bytes within it, and changes nothing else of the response.
pub add_buffer-Appended :
    (o : OutputBuffer) (bytes : Bytes) → IsValid o → Appended o bytes (add_buffer o bytes)
add_buffer-Appended o bytes v =
    unfold add_buffer in Reserved-Appended o _ bytes (reserve_lem o (length bytes) v)

pub add_char-Appended : (o : OutputBuffer) (c : ℕ) → IsValid o → Appended o (c ∷ []) (add_char o c)
add_char-Appended o c v = unfold add_char in Reserved-Appended o _ (c ∷ []) (reserve_lem o 1 v)
