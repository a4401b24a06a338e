-- ===== src/LogCache/Range.antt =====
-- What `loadRange` of src/Logfile.cc does to the files in memory.
use naemon_livestatus.Prelude.{
  ℕ, ◌<◌, ◌≡◌, refl, sym, ap, ◌∙◌, ◌⊎◌, inl, inr, true, List, [], ◌∷◌, ◌++◌, some, ◌==◌, Bool-cases,
  In, here, In-single, subst, In-append_cases, In-append_left, In-append_right, test_bit,
}
use mathlib.Core.Bool.{true≢false}
use naemon_livestatus.LogEntry.{LogEntry, class_invalid}
use naemon_livestatus.Logfile.{Logfile, Entries, make_key, has_key, insert, in_classes, store_entry}
use naemon_livestatus.Logfile.Entries.{
  insert-In, In-insert_self, In-insert_other, insert-Ascending, Ascending, has_key-In,
}
use naemon_livestatus.LogCache.{Focus}
use naemon_livestatus.LogCache.Keep.{AllShrink, AllShrink-refl, AllShrink-trans}
use naemon_livestatus.LogCache.Messages.{message, UniqueKeys}

-- the members of one list are members of the other
abbrev pub Within {ℓ} : {A : Type ℓ} → List A → List A → Type ℓ
Within {A = A} xs ys = (x : A) → In x xs → In x ys

-- `processLogLine` for one message
pub record Stores {Object : Type 0} (types : ℕ) (new : Entries Object) (log log' : Logfile Object)
    : Type 0 where
  pub same : log' ≡ record log { entries = log'.entries }
  pub sound : (x : ℕ × LogEntry Object) → In x log'.entries → In x log.entries ⊎ In x new
  pub kept : Within log.entries log'.entries
  pub ascending : Ascending log.entries → Ascending log'.entries
  pub added :
      (x : ℕ × LogEntry Object) → In x new → test_bit types x.1.logclass ≡ true → In x log'.entries

module _ {Object : Type 0} (all : Entries Object) (unique : UniqueKeys all) where
  pub store_entry-Stores :
      (lineno types : ℕ) (e : LogEntry Object) (log : Logfile Object)
      → Within log.entries all
      → Within (message lineno (some e)) all
      → Stores types (message lineno (some e)) log (store_entry lineno types e log).0
  unfolding store_entry message
  store_entry-Stores lineno types e log old new =
      let key = make_key e.time lineno in
      elim (Bool-cases (e.logclass == class_invalid)) [
        | inl h ↦ rw h (record {
          ascending = λ h. h;
          same = refl;
          sound = λ x i. inl i;
          kept = λ x i. i;
          added = λ x i. elim i [ ];
        })
        | inr h ↦
            let there_is : In (key, e) all = new (key, e) (rw h here) in
            elim (Bool-cases (in_classes types e)) [
              | inr k ↦
                  rw (h, k)
                    (record {
                      ascending = λ h. h;
                      same = refl;
                      sound = λ x i. inl i;
                      kept = λ x i. i;
                      added = λ x i b. absurd (
                          true≢false (
                            sym b
                            ∙ ap (λ (z : ℕ × LogEntry Object). test_bit types z.1.logclass)
                                (In-single x (key, e) i)
                            ∙ k));
                    })
              | inl k ↦ elim (Bool-cases (has_key key log.entries)) [
                | inl l ↦
                    rw (h, k, l)
                      (record {
                        ascending = λ h. h;
                        same = refl;
                        sound = λ x i. inl i;
                        kept = λ x i. i;
                        added = λ x i b.
                            let (a, j) = has_key-In key log.entries l in
                            let stored = unique (key, a) (key, e) (old (key, a) j) there_is refl in
                            subst (λ z. In z log.entries) (stored ∙ sym (In-single x (key, e) i)) j;
                      })
                | inr l ↦
                    rw (h, k, l)
                      (record {
                        ascending = insert-Ascending key e log.entries l;
                        same = refl;
                        sound = λ x i. elim (insert-In key e x log.entries i) [
                          | inl p ↦ inr (subst (λ z. In z ((key, e) ∷ [])) (sym p) here)
                          | inr j ↦ inl j
                        ];
                        kept = λ x i. In-insert_other key e x log.entries i;
                        added = λ x i b.
                            subst (λ z. In z (insert key e log.entries))
                              (sym (In-single x (key, e) i)) (In-insert_self key e log.entries);
                      })
              ]
            ]
      ]

-- Between two states of the cache, the file at hand got messages out of `new`: those of a class that is
-- read and either wanted or still counted as read. The other files may have shrunk.
pub record Loads {Object : Type 0} (types logclasses : ℕ) (new : Entries Object)
    (f g : Focus Object) : Type 0 where
  pub older : AllShrink f.older g.older
  pub newer : AllShrink f.newer g.newer
  pub path : g.current.path ≡ f.current.path
  pub since : g.current.since ≡ f.current.since
  pub watch : g.current.watch ≡ f.current.watch
  pub ascending : Ascending f.current.entries → Ascending g.current.entries
  pub sound : (x : ℕ × LogEntry Object) → In x g.current.entries → In x f.current.entries ⊎ In x new
  pub added :
      (x : ℕ × LogEntry Object)
      → x.1.logclass < 32
      → In x new
      → test_bit types x.1.logclass ≡ true
      → (test_bit logclasses x.1.logclass ≡ true)
        ⊎ (test_bit g.current.logclasses_read x.1.logclass ≡ true)
      → In x g.current.entries
  pub kept :
      (x : ℕ × LogEntry Object)
      → x.1.logclass < 32
      → In x f.current.entries
      → (test_bit logclasses x.1.logclass ≡ true)
        ⊎ (test_bit g.current.logclasses_read x.1.logclass ≡ true)
      → In x g.current.entries
  pub read_before :
      (k : ℕ)
      → k < 32
      → test_bit g.current.logclasses_read k ≡ true
      → test_bit f.current.logclasses_read k ≡ true
  pub still_read :
      (k : ℕ)
      → k < 32
      → test_bit logclasses k ≡ true
      → test_bit f.current.logclasses_read k ≡ true
      → test_bit g.current.logclasses_read k ≡ true

module _ {Object : Type 0} (types logclasses : ℕ) where
  pub Loads-refl : (f : Focus Object) → Loads types logclasses [] f f
  Loads-refl f = record {
    ascending = λ h. h;
    older = AllShrink-refl f.older;
    newer = AllShrink-refl f.newer;
    path = refl;
    since = refl;
    watch = refl;
    sound = λ x i. inl i;
    added = λ x h i b c. elim i [ ];
    kept = λ x h i c. i;
    read_before = λ k h b. b;
    still_read = λ k h b r. r;
  }

  pub Loads-trans :
      (new new' : Entries Object) (f g h : Focus Object)
      → Loads types logclasses new f g
      → Loads types logclasses new' g h
      → Loads types logclasses (new ++ new') f h
  Loads-trans new new' f g h p q = record {
    ascending = λ a. q.ascending (p.ascending a);
    older = AllShrink-trans p.older q.older;
    newer = AllShrink-trans p.newer q.newer;
    path = q.path ∙ p.path;
    since = q.since ∙ p.since;
    watch = q.watch ∙ p.watch;
    sound = λ x i. elim (q.sound x i) [
      | inr j ↦ inr (In-append_right x new new' j)
      | inl j ↦ elim (p.sound x j) [ inl k ↦ inl k | inr k ↦ inr (In-append_left x new new' k) ]
    ];
    added = λ x l i b c. elim (In-append_cases x new new' i) [
      | inl j ↦ q.kept x l (p.added x l j b (earlier x l c)) c
      | inr j ↦ q.added x l j b c
    ];
    kept = λ x l i c. q.kept x l (p.kept x l i (earlier x l c)) c;
    read_before = λ k l b. p.read_before k l (q.read_before k l b);
    still_read = λ k l b r. q.still_read k l b (p.still_read k l b r);
  }
    where
      earlier :
          (x : ℕ × LogEntry Object)
          → x.1.logclass < 32
          → (test_bit logclasses x.1.logclass ≡ true)
            ⊎ (test_bit h.current.logclasses_read x.1.logclass ≡ true)
          → (test_bit logclasses x.1.logclass ≡ true)
            ⊎ (test_bit g.current.logclasses_read x.1.logclass ≡ true)
      earlier x l (inl b) = inl b
      earlier x l (inr r) = inr (q.read_before _ l r)
