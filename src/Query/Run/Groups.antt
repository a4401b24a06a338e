-- ===== src/Query/Run/Groups.antt =====
-- The groups of a query with statistics, `getStatsGroup` of src/Query.cc: a group for each list of column values,
-- in the order of their first rows.
use mathlib.Core.Bool.{true≢false}
use naemon_livestatus.Prelude.{
  Bool, true, false, ◌&&◌, ◌||◌, and_both, List, [], ◌∷◌, ◌++◌, map, take, Option, none, some,
  if◌then◌else◌, ◌≡◌, refl, sym, ap, ap₂, ◌∙◌, ◌⊎◌, inl, inr, subst, Bool-cases,
}
use naemon_livestatus.Text.{Bytes, str_equal, str_equal→eq, str_equal_self}
use naemon_livestatus.Query.Run.{
  Plan, group_spec, created, spec_equal, find_group, consume_group, consume_row,
}
use naemon_livestatus.Query.Run.Ends.{held}

spec_equal→eq : (a b : List Bytes) → spec_equal a b ≡ true → a ≡ b
unfolding spec_equal
spec_equal→eq [] [] e = refl
spec_equal→eq [] (b ∷ t) e = absurd (true≢false (sym e))
spec_equal→eq (a ∷ s) [] e = absurd (true≢false (sym e))
spec_equal→eq (a ∷ s) (b ∷ t) e =
    let (head, tail) = and_both (str_equal a b) (spec_equal s t) e in
    ap₂ ◌∷◌ (str_equal→eq a b head) (spec_equal→eq s t tail)

pub spec_equal_self : (s : List Bytes) → spec_equal s s ≡ true
unfolding spec_equal
spec_equal_self [] = refl
spec_equal_self (a ∷ s) = ap₂ (◌&&◌) (str_equal_self a) (spec_equal_self s)

other_key :
    (key new spec : List Bytes)
    → spec_equal key new ≡ false
    → spec_equal key spec ≡ true
    → spec_equal new spec ≡ false
other_key key new spec differs same = elim (Bool-cases (spec_equal new spec)) [
  | inl e ↦ absurd (
      true≢false (
        sym (spec_equal_self key)
        ∙ ap (spec_equal key) (spec_equal→eq key spec same ∙ sym (spec_equal→eq new spec e))
        ∙ differs))
  | inr e ↦ e
]

-- a list of values that is there already
unfoldable pub known : List Bytes → List (List Bytes) → Bool
known spec [] = false
known spec (key ∷ keys) = spec_equal key spec || known spec keys

or_none : (b : Bool) → b || false ≡ b
or_none true = refl
or_none false = refl

or_more : (a x b c : Bool) → x ≡ b || c → a || x ≡ (a || b) || c
or_more true x b c e = refl
or_more false x b c e = e

pub known_appended :
    (spec new : List Bytes) (keys : List (List Bytes))
    → known spec (keys ++ new ∷ []) ≡ known spec keys || spec_equal new spec
unfolding known
known_appended spec new [] = or_none (spec_equal new spec)
known_appended spec new (key ∷ keys) =
    or_more (spec_equal key spec) _ (known spec keys) (spec_equal new spec)
      (known_appended spec new keys)

abbrev pub keys_of : {Agg : Type 0} → List (List Bytes × List Agg) → List (List Bytes)
keys_of groups = map (λ g. g.0) groups

module _ {Row Agg : Type 0} (p : Plan Row Agg) where
  -- the rows of a group
  unfoldable pub members : List Bytes → List Row → List Row
  members spec [] = []
  members spec (row ∷ rows) =
      let rest = members spec rows in
      if spec_equal (group_spec p row) spec then row ∷ rest else rest

  -- the first row of each group that is not there already
  unfoldable pub firsts : List (List Bytes) → List Row → List Row
  firsts seen [] = []
  firsts seen (row ∷ rows) =
      let rest = firsts seen rows in
      let more = firsts (seen ++ group_spec p row ∷ []) rows in
      if known (group_spec p row) seen then rest else row ∷ more

  -- what the rows of a group become, by three tests
  members_step :
      (is_seen is_member seen_before : Bool) (row : Row) (rest without with_it : List Row)
      → (is_member ≡ true → is_seen ≡ seen_before)
      → without ≡ (if seen_before then [] else take 1 rest)
      → with_it ≡ (if seen_before || is_member then [] else take 1 rest)
      → (if is_seen then without else if is_member then row ∷ with_it else with_it)
        ≡ (if seen_before then [] else take 1 (if is_member then row ∷ rest else rest))
  members_step true true true row rest without with_it same e f = e
  members_step true true false row rest without with_it same e f = absurd (true≢false (same refl))
  members_step true false seen_before row rest without with_it same e f = e
  members_step false true true row rest without with_it same e f =
      absurd (true≢false (sym (same refl)))
  members_step false true false row rest without with_it same e f = ap (◌∷◌ row) f
  members_step false false true row rest without with_it same e f = f
  members_step false false false row rest without with_it same e f = f

  members_if :
      (spec : List Bytes) (is_seen : Bool) (row : Row) (without with_it : List Row)
      → members spec (if is_seen then without else row ∷ with_it) ≡ (
          if is_seen
          then members spec without
          else if spec_equal (group_spec p row) spec
          then row ∷ members spec with_it
          else members spec with_it)
  unfolding members
  members_if spec true row without with_it = refl
  members_if spec false row without with_it = refl

  nothing : (b : Bool) → ◌≡◌ {A = List Row} (if b then [] else []) []
  nothing true = refl
  nothing false = refl

  members_after :
      (spec : List Bytes) (seen : List (List Bytes)) (rows : List Row)
      → members spec (firsts seen rows)
        ≡ (if known spec seen then [] else take 1 (members spec rows))
  unfolding members firsts
  members_after spec seen [] = sym (nothing (known spec seen))
  members_after spec seen (row ∷ rows) =
      let new = group_spec p row in
      members_if spec (known new seen) row (firsts seen rows) (firsts (seen ++ new ∷ []) rows)
      ∙ members_step (known new seen) (spec_equal new spec) (known spec seen) row
          (members spec rows) _ _ (λ same. ap (λ s. known s seen) (spec_equal→eq new spec same))
          (members_after spec seen rows)
          (members_after spec (seen ++ new ∷ []) rows
            ∙ ap (λ b. if b then [] else take 1 (members spec rows)) (known_appended spec new seen))

  -- Of the rows of each list of column values, the first one and no other stands for their group.
  pub members-firsts :
      (spec : List Bytes) (rows : List Row)
      → members spec (firsts [] rows) ≡ take 1 (members spec rows)
  unfolding known
  members-firsts spec rows = members_after spec [] rows

  held_if :
      (b : Bool) (aggr : List Agg) (o : Option (List Agg))
      → held p o ≡ aggr
      → held p (if b then some aggr else o) ≡ aggr
  held_if true aggr o e = refl
  held_if false aggr o e = e

  if_held :
      (b : Bool) (aggr : List Agg) (o o' : Option (List Agg))
      → held p o ≡ held p o'
      → held p (if b then some aggr else o) ≡ held p (if b then some aggr else o')
  if_held true aggr o o' e = refl
  if_held false aggr o o' e = e

  pub held_appended :
      (spec new : List Bytes) (groups : List (List Bytes × List Agg))
      → held p (find_group spec (groups ++ (new, created p) ∷ [])) ≡ held p (find_group spec groups)
  unfolding find_group
  held_appended spec new [] = held_if (spec_equal new spec) (created p) none refl
  held_appended spec new ((key, aggr) ∷ groups) =
      if_held (spec_equal key spec) aggr _ _ (held_appended spec new groups)

  pub find_group-known :
      (spec : List Bytes) (groups : List (List Bytes × List Agg))
      → ((find_group spec groups ≡ none) × (known spec (keys_of groups) ≡ false))
        ⊎ ((aggr : List Agg) × (find_group spec groups ≡ some aggr)
            × (known spec (keys_of groups) ≡ true))
  unfolding find_group known
  find_group-known spec [] = inl (refl, refl)
  find_group-known spec ((key, aggr) ∷ groups) = elim (Bool-cases (spec_equal key spec)) [
    | inl e ↦ inr (aggr, rw e refl, rw e refl)
    | inr e ↦ rw e (find_group-known spec groups)
  ]

  consume_hit :
      (b : Bool) (row : Row) (aggr : List Agg) (o : Option (List Agg))
      → held p (if b then some (consume_row p.stats row aggr) else o) ≡ (
          if b
          then consume_row p.stats row (held p (if b then some aggr else o))
          else held p (if b then some aggr else o))
  consume_hit true row aggr o = refl
  consume_hit false row aggr o = refl

  consume_miss :
      (b c : Bool) (row : Row) (aggr : List Agg) (o o' : Option (List Agg))
      → (b ≡ true → c ≡ false)
      → held p o' ≡ (if c then consume_row p.stats row (held p o) else held p o)
      → held p (if b then some aggr else o') ≡ (
          if c
          then consume_row p.stats row (held p (if b then some aggr else o))
          else held p (if b then some aggr else o))
  consume_miss true true row aggr o o' other e = absurd (true≢false (other refl))
  consume_miss true false row aggr o o' other e = refl
  consume_miss false c row aggr o o' other e = e

  pub held_consumed :
      (spec new : List Bytes) (row : Row) (groups : List (List Bytes × List Agg))
      → known new (keys_of groups) ≡ true
      → held p (find_group spec (consume_group p new row groups)) ≡ (
          if spec_equal new spec
          then consume_row p.stats row (held p (find_group spec groups))
          else held p (find_group spec groups))
  unfolding find_group known consume_group
  held_consumed spec new row [] is_known = absurd (true≢false (sym is_known))
  held_consumed spec new row ((key, aggr) ∷ groups) is_known =
      elim (Bool-cases (spec_equal key new)) [
        | inl e ↦ rw e (
            consume_hit (spec_equal key spec) row aggr (find_group spec groups)
            ∙ ap
                (λ k.
                  if spec_equal k spec
                  then consume_row p.stats row (held p (find_group spec ((key, aggr) ∷ groups)))
                  else held p (find_group spec ((key, aggr) ∷ groups)))
                (spec_equal→eq key new e))
        | inr e ↦ rw e (
            consume_miss (spec_equal key spec) (spec_equal new spec) row aggr
              (find_group spec groups) _ (other_key key new spec e)
              (held_consumed spec new row groups
                (subst (λ b. b || known new (keys_of groups) ≡ true) e is_known)))
      ]

  pub keys_consumed :
      (new : List Bytes) (row : Row) (groups : List (List Bytes × List Agg))
      → keys_of (consume_group p new row groups) ≡ keys_of groups
  unfolding consume_group
  keys_consumed new row [] = refl
  keys_consumed new row ((key, aggr) ∷ groups) = elim (Bool-cases (spec_equal key new)) [
    | inl e ↦ rw e refl
    | inr e ↦ rw e (ap (◌∷◌ key) (keys_consumed new row groups))
  ]

  pub keys_appended :
      (new : List Bytes) (groups : List (List Bytes × List Agg))
      → keys_of (groups ++ (new, created p) ∷ []) ≡ keys_of groups ++ new ∷ []
  keys_appended new [] = refl
  keys_appended new (g ∷ groups) = ap (◌∷◌ g.0) (keys_appended new groups)
