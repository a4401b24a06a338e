-- ===== src/States/Walks.antt =====
-- The one walk over a list of hosts that src/HostlistStateColumn.cc remembers for a query, against a walk for
-- each of its values.
use naemon_livestatus.Prelude.{
  Bool, true, List, [], ◌∷◌, ℤ, pos, negsuc, ◌-ℤ◌, ◌≡◌, refl, sym, ap, ◌∙◌, Bool-cases, inl, inr,
  In, here, there, or_either, subst, arith,
}
use naemon_livestatus.Filter.{equal_ℤ}
use naemon_livestatus.States.{
  Service, Host, HostAggregates, no_hosts, get_host, accumulate_host, aggregate_hosts,
  host_subvalue, host_walk, host_value, is_host_state, num_hosts, num_hosts_pending, num_hosts_up,
  num_hosts_down, num_hosts_unreach, worst_host_state,
}

-- the values that are taken from the one walk
abbrev pub host_states : List ℤ
host_states =
    num_hosts ∷ num_hosts_pending ∷ num_hosts_up ∷ num_hosts_down ∷ num_hosts_unreach
    ∷ worst_host_state ∷ []

equal_sound : (a b : ℤ) → equal_ℤ a b ≡ true → a ≡ b
equal_sound (pos n) (pos m) h = ap pos (ground arith)
equal_sound (negsuc n) (negsuc m) h = ap negsuc (ground arith)
equal_sound (pos n) (negsuc m) h = absurd (ground arith)
equal_sound (negsuc n) (pos m) h = absurd (ground arith)

module _ (visible_host : Host → Bool) (visible : Service → Bool) where
  one_host :
      (logictype : ℤ) (a : HostAggregates) (hst : Host)
      → In logictype host_states
      → get_host (accumulate_host a hst) logictype
        ≡ host_subvalue visible_host visible logictype hst (get_host a logictype)
  unfolding get_host accumulate_host host_subvalue ◌-ℤ◌
  one_host logictype a hst here = refl
  one_host logictype a hst (there here) = refl
  one_host logictype a hst (there (there here)) = refl
  one_host logictype a hst (there (there (there here))) = refl
  one_host logictype a hst (there (there (there (there here)))) = refl
  one_host logictype a hst (there (there (there (there (there here))))) = refl
  one_host logictype a hst (there (there (there (there (there (there i)))))) = elim i [ ]

  aggregate_walk :
      (logictype : ℤ) (hosts : List Host) (a : HostAggregates)
      → In logictype host_states
      → get_host (aggregate_hosts visible_host visible hosts a) logictype
        ≡ host_walk visible_host visible logictype hosts (get_host a logictype)
  unfolding aggregate_hosts host_walk
  aggregate_walk logictype [] a i = refl
  aggregate_walk logictype (hst ∷ hosts) a i = elim (Bool-cases (visible_host hst)) [
    | inr hidden ↦ rw hidden (aggregate_walk logictype hosts a i)
    | inl seen ↦ rw seen (
        aggregate_walk logictype hosts (accumulate_host a hst) i
        ∙ ap (host_walk visible_host visible logictype hosts) (one_host logictype a hst i))
  ]

  starts_at_zero : (logictype : ℤ) → In logictype host_states → get_host no_hosts logictype ≡ pos 0
  unfolding get_host
  starts_at_zero logictype here = refl
  starts_at_zero logictype (there here) = refl
  starts_at_zero logictype (there (there here)) = refl
  starts_at_zero logictype (there (there (there here))) = refl
  starts_at_zero logictype (there (there (there (there here)))) = refl
  starts_at_zero logictype (there (there (there (there (there here))))) = refl
  starts_at_zero logictype (there (there (there (there (there (there i)))))) = elim i [ ]

  -- a value of the switch is one of the list
  host_state-In :
      (logictype : ℤ)
      → is_host_state visible_host visible logictype ≡ true
      → In logictype host_states
  unfolding is_host_state
  host_state-In logictype h =
      let test = equal_ℤ logictype in
      let found = λ (k : ℤ) (e : equal_ℤ logictype k ≡ true) (i : In k host_states).
        subst (λ l. In l host_states) (sym (equal_sound logictype k e)) i in
      elim (or_either (test num_hosts) _ h) [
        | inl e ↦ found num_hosts e here
        | inr h1 ↦ elim (or_either (test num_hosts_pending) _ h1) [
          | inl e ↦ found num_hosts_pending e (there here)
          | inr h2 ↦ elim (or_either (test num_hosts_up) _ h2) [
            | inl e ↦ found num_hosts_up e (there (there here))
            | inr h3 ↦ elim (or_either (test num_hosts_down) _ h3) [
              | inl e ↦ found num_hosts_down e (there (there (there here)))
              | inr h4 ↦ elim (or_either (test num_hosts_unreach) (test worst_host_state) h4) [
                | inl e ↦ found num_hosts_unreach e (there (there (there (there here))))
                | inr e ↦ found worst_host_state e (there (there (there (there (there here)))))
              ]
            ]
          ]
        ]
      ]

  -- The values that HostlistStateColumn takes from the one walk over a list of hosts, which a query
  -- remembers, are the same as those of the walk for a single value: for every type of value, every
  -- list of hosts and whatever the user may see, getValue gives what the walk with get_subvalue
  -- gives.
  pub host_value-host_walk :
      (logictype : ℤ) (hosts : List Host)
      → host_value visible_host visible logictype hosts
        ≡ host_walk visible_host visible logictype hosts (pos 0)
  unfolding host_value
  host_value-host_walk logictype hosts =
      elim (Bool-cases (is_host_state visible_host visible logictype)) [
        | inr other ↦ rw other refl
        | inl mine ↦
            let i = host_state-In logictype mine in
            rw mine (
              aggregate_walk logictype hosts no_hosts i
              ∙ ap (host_walk visible_host visible logictype hosts) (starts_at_zero logictype i))
      ]

  -- `HLSC_WORST_SVC_HARD_STATE` and `HLSC_NUM_SVC_HARD_*`
  abbrev pub hard_variants : List ℤ
  hard_variants = pos 62 ∷ pos 64 ∷ pos 65 ∷ pos 66 ∷ pos 67 ∷ []

  no_case_lem :
      (logictype : ℤ) (hst : Host) (result : ℤ)
      → In logictype hard_variants
      → host_subvalue visible_host visible logictype hst result ≡ result
  unfolding host_subvalue
  no_case_lem logictype hst result here = refl
  no_case_lem logictype hst result (there here) = refl
  no_case_lem logictype hst result (there (there here)) = refl
  no_case_lem logictype hst result (there (there (there here))) = refl
  no_case_lem logictype hst result (there (there (there (there here)))) = refl
  no_case_lem logictype hst result (there (there (there (there (there i))))) = elim i [ ]

  walk_stays :
      (logictype : ℤ) (hosts : List Host) (result : ℤ)
      → In logictype hard_variants
      → host_walk visible_host visible logictype hosts result ≡ result
  unfolding host_walk
  walk_stays logictype [] result i = refl
  walk_stays logictype (hst ∷ hosts) result i = elim (Bool-cases (visible_host hst)) [
    | inr hidden ↦ rw hidden (walk_stays logictype hosts result i)
    | inl seen ↦ rw seen (
        ap (host_walk visible_host visible logictype hosts) (no_case_lem logictype hst result i)
        ∙ walk_stays logictype hosts result i)
  ]

  -- The columns of a host group for the hard states of its services, the worst one and the four
  -- numbers, always show 0, whatever the hosts and services are: the switch of get_subvalue does not
  -- have their types.
  host_value_hard :
      (logictype : ℤ) (hosts : List Host)
      → In logictype hard_variants
      → host_value visible_host visible logictype hosts ≡ pos 0
  host_value_hard logictype hosts i =
      host_value-host_walk logictype hosts ∙ walk_stays logictype hosts (pos 0) i
