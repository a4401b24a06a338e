-- ===== src/Output/Sending.antt =====
-- `writeData` of src/OutputBuffer.cc.
use naemon_livestatus.Prelude.{
  ℕ, zero, suc, ◌+◌, ◌-◌, ◌≤◌, ◌<◌, ◌≡◌, refl, ap, sym, ◌∙◌, List, [], ◌∷◌, ◌++◌, take, length,
  length-append, length-take, take_all, append-nil, append_left_cancel, take-append-drop, replicate,
  drop, arith,
}
use naemon_livestatus.Text.{Bytes}
use naemon_livestatus.Output.{WriteEvent, terminate, not_ready, failed, wrote, write_data}

-- `write` takes at most what it is given
unfoldable pub Admissible : List WriteEvent → ℕ → Type 0
Admissible events zero = Unit
Admissible [] n = Unit
Admissible (wrote w ∷ events) (suc n) = (w ≤ suc n) × Admissible events (suc n - w)
Admissible (not_ready ∷ events) (suc n) = Admissible events (suc n)
Admissible (terminate ∷ events) (suc n) = Unit
Admissible (failed ∷ events) (suc n) = Unit

-- When no write takes more bytes than are left to write, the number of bytes that reach the socket
-- and the number that writeData has left add up to the length asked for.
pub write_data-length :
    (events : List WriteEvent) (bytes : Bytes) (n : ℕ)
    → n ≤ length bytes
    → Admissible events n
    → length (write_data events bytes n).0 + (write_data events bytes n).1 ≡ n
unfolding write_data Admissible
write_data-length [] d zero h a = omega arith
write_data-length [] d (suc n) h a = omega arith
write_data-length (e ∷ events) d zero h a = omega arith
write_data-length (terminate ∷ events) d (suc n) h a = omega arith
write_data-length (failed ∷ events) d (suc n) h a = omega arith
write_data-length (not_ready ∷ events) d (suc n) h a = write_data-length events d (suc n) h a
write_data-length (wrote w ∷ events) d (suc n) h a =
    let sent = (write_data events d (suc n - w)).0 in
    omega (
      arith,
      write_data-length events d (suc n - w) (omega arith) a.1,
      length-append (take w d) sent,
      length-take w d,
      a.0,
    )

-- A response that the socket takes in one write, after any number of rounds in which it was not
-- ready, arrives as it is.
pub write_data_whole :
    (k : ℕ) (bytes : Bytes) (events : List WriteEvent)
    → write_data (replicate k not_ready ++ wrote (length bytes) ∷ events) bytes (length bytes)
      ≡ (bytes, 0)
unfolding write_data
write_data_whole k [] events = refl
write_data_whole zero (c ∷ d) events =
    let e : suc (length d) - suc (length d) ≡ 0 = omega arith in
    rw (e, take_all (length d) d (omega arith), append-nil d) refl
write_data_whole (suc k) (c ∷ d) events = write_data_whole k (c ∷ d) events

write_none : (d : Bytes) (n : ℕ) → (write_data [] d n).0 ≡ []
unfolding write_data
write_none d zero = refl
write_none d (suc n) = refl

write_once : (n : ℕ) (d : Bytes) → (write_data (wrote n ∷ []) d n).0 ≡ take n d
unfolding write_data
write_once zero d = refl
write_once (suc n) d =
    ap (◌++◌ (take (suc n) d)) (write_none d (suc n - suc n)) ∙ append-nil (take (suc n) d)

-- If the socket takes only some of the bytes at first, at least one and not all, and the others in
-- the next round, then the second write starts from the beginning again; what arrives is the
-- response only if the rest of it repeats its beginning.
pub write_data_partial :
    (w : ℕ) (bytes : Bytes)
    → 0 < w
    → w < length bytes
    → let sent = (write_data (wrote w ∷ wrote (length bytes - w) ∷ []) bytes (length bytes)).0 in
      (sent ≡ take w bytes ++ take (length bytes - w) bytes)
      × (sent ≡ bytes → drop w bytes ≡ take (length bytes - w) bytes)
unfolding write_data
write_data_partial w [] p h = absurd (omega arith)
write_data_partial w (c ∷ d) p h =
    let n = suc (length d) in
    let sent = ap (◌++◌ (take w (c ∷ d))) (write_once (n - w) (c ∷ d)) in
    (
      sent,
      λ e.
          append_left_cancel (take w (c ∷ d)) (drop w (c ∷ d)) (take (n - w) (c ∷ d))
            (take-append-drop w (c ∷ d) ∙ sym e ∙ sent),
    )
