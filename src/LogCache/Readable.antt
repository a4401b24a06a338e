-- ===== src/LogCache/Readable.antt =====
-- `load` of src/Logfile.cc always ends where the lines can be read.
use naemon_livestatus.Prelude.{
  IsSome, if-IsSome, bind-IsSome, ℕ, ◌+◌, take, drop, take-append-drop, In-append_right, Bool, true,
  false, List, [], ◌∷◌, if◌then◌else◌, Option, some, ◌≡◌, refl, subst, Option-cases, inl, inr, leb,
  ◌==◌, In, here, there, and_not32,
}
use naemon_livestatus.Text.{Bytes}
use naemon_livestatus.LogEntry.Parse.{parse}
use naemon_livestatus.Logfile.{File}
use naemon_livestatus.LogCache.{Focus}
use naemon_livestatus.LogCache.Load.{
  Settings, load, load_file, load_grown, load_rest, load_missing, load_range, load_entry,
  with_current,
}

In-drop {ℓ} : {A : Type ℓ} (n : ℕ) (x : A) (xs : List A) → In x (drop n xs) → In x xs
In-drop n x xs i =
    subst (In x) (take-append-drop n xs) (In-append_right x (take n xs) (drop n xs) i)

module _ {Object : Type 0} (s : Settings Object) where
  -- no line lets the parser read a null pointer
  abbrev pub Readable : File → Type 0
  Readable file = (n : ℕ) (line : Bytes) → In line file → IsSome (parse s.objects n line)

  load_range-IsSome :
      (types logclasses : ℕ) (lines : File) (f : Focus Object)
      → Readable lines
      → IsSome (load_range s types logclasses lines f)
  unfolding load_range
  load_range-IsSome types logclasses [] f h = ((f, []), refl)
  load_range-IsSome types logclasses (line ∷ lines) f h =
      if-IsSome (leb s.max_lines f.current.lineno) ((f, lines), refl)
        (bind-IsSome (parse s.objects (f.current.lineno + 1) line) _
          (h (f.current.lineno + 1) line here)
          (λ e.
            let f' = load_entry s types logclasses e f in
            if-IsSome s.should_terminate ((f', lines), refl)
              (load_range-IsSome types logclasses lines f' (λ n l i. h n l (there i)))))

  load_missing-IsSome :
      (types logclasses : ℕ) (file : File) (f : Focus Object)
      → Readable file
      → IsSome (load_missing s types logclasses file f)
  unfolding load_missing
  load_missing-IsSome types logclasses file f h =
      bind-IsSome
        (load_range s types logclasses file (with_current s f (record f.current { lineno = 0 }))) _
        (load_range-IsSome types logclasses file
          (with_current s f (record f.current { lineno = 0 })) h)
        (λ r. (_, refl))

  load_grown-IsSome :
      (logclasses : ℕ) (file : File) (f : Focus Object)
      → Readable file
      → IsSome (load_grown s logclasses file f)
  unfolding load_grown
  load_grown-IsSome logclasses file f h =
      let position = if f.current.lineno == 0 then 0 else f.current.read_pos in
      if-IsSome (f.current.logclasses_read == 0) (_, refl)
        (bind-IsSome (load_range s f.current.logclasses_read logclasses (drop position file) f) _
          (load_range-IsSome f.current.logclasses_read logclasses (drop position file) f
            (λ n l i. h n l (In-drop position l file i)))
          (λ r. (_, refl)))

  load_rest-IsSome :
      (missing logclasses : ℕ) (file : File) (f : Focus Object)
      → Readable file
      → IsSome (load_rest s missing logclasses file f)
  unfolding load_rest
  load_rest-IsSome missing logclasses file f h =
      if-IsSome (missing == 0) (f, refl) (load_missing-IsSome missing logclasses file f h)

  load_file-IsSome :
      (watch : Bool) (logclasses : ℕ) (file : File) (f : Focus Object)
      → Readable file
      → IsSome (load_file s watch logclasses file f)
  unfolding load_file
  load_file-IsSome true logclasses file f h =
      bind-IsSome (load_grown s logclasses file f) _ (load_grown-IsSome logclasses file f h) (λ f'.
        load_rest-IsSome (and_not32 logclasses f.current.logclasses_read) logclasses file f' h)
  load_file-IsSome false logclasses file f h =
      load_rest-IsSome (and_not32 logclasses f.current.logclasses_read) logclasses file f h

  module _ (disk : Bytes → Option File)
      (readable : (path : Bytes) (file : File) → disk path ≡ some file → Readable file) where
    pub load-IsSome :
        (logclasses : ℕ) (path : Bytes) (f : Focus Object)
        → IsSome (load s logclasses (disk path) f)
    unfolding load
    load-IsSome logclasses path f = elim (Option-cases (disk path)) [
      | inl none_there ↦ rw none_there (f, refl)
      | inr (file, there_is) ↦
          rw there_is
            (load_file-IsSome f.current.watch logclasses file f (readable path file there_is))
    ]
