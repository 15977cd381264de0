-- ===== src/Graph/Clique/Search.antt =====
-- The backtracking search finds a clique exactly where there is one among the candidates.
use nemesis.Prelude.{
  ℕ, suc, ◌+◌, ◌<◌, Bool, true, List, [], ◌∷◌, ◌++◌, Option, none, some, ◌≡◌, sym, ◌∙◌, ap, subst,
  all, all_iff, Pairs, Sub, keep, skip, none_left, Sub-nil, length-Sub, Pairs-snoc, Pairs-next,
  append_assoc, append-nil, length, length-append, arith, Bool-cases, Option-cases, inl, inr, ltb,
  ◌==◌, ==_iff, ap,
}
use nemesis.Graph.Clique.{enter, search_loop, clique_search}

module _ (linked : ℕ → ℕ → Bool) (target : ℕ) where
  -- Each two of the nodes are linked.
  abbrev pub IsClique : List ℕ → Type 0
  IsClique = Pairs (λ a b. linked a b ≡ true)

  -- A clique of the wanted size that extends `current` by candidates, in their order.
  abbrev pub Extends : List ℕ → List ℕ → List ℕ → Type 0
  Extends current cs r =
      (picked : List ℕ) × (r ≡ current ++ picked) × Sub picked cs × (length r ≡ target) × IsClique r

  snoc-append : (xs : List ℕ) (a : ℕ) (ys : List ℕ) → (xs ++ a ∷ []) ++ ys ≡ xs ++ a ∷ ys
  snoc-append xs a ys = append_assoc xs (a ∷ []) ys

  Extends-skip :
      (current cs : List ℕ) (node : ℕ) {r : List ℕ}
      → Extends current cs r
      → Extends current (node ∷ cs) r
  Extends-skip current cs node (picked, e, s, n, h) = (picked, e, skip node s, n, h)

  Extends-keep :
      (current cs : List ℕ) (node : ℕ) {r : List ℕ}
      → Extends (current ++ node ∷ []) cs r
      → Extends current (node ∷ cs) r
  Extends-keep current cs node (picked, e, s, n, h) =
      (node ∷ picked, e ∙ snoc-append current node picked, keep node s, n, h)

  enter_sound :
      (cs current : List ℕ) (rest : Option (List ℕ)) (r : List ℕ)
      → IsClique current
      → (rest ≡ some r → Extends current cs r)
      → enter linked target cs current rest ≡ some r
      → Extends current cs r
  unfolding enter
  enter_sound cs current rest r clique deeper h = elim (Bool-cases (length current == target)) [
    | inl done ↦
        let same : current ≡ r = cc (rw done at h) in
        subst (Extends current cs) same
          ([], sym (append-nil current), Sub-nil cs, (==_iff _ _).0 done, clique)
    | inr more ↦ elim (Bool-cases (ltb (length current + length cs) target)) [
      | inl pruned ↦ cc (rw (more, pruned) at h)
      | inr go ↦ deeper (rw (more, go) at h)
    ]
  ]

  enter-none :
      (cs current picked : List ℕ) (rest : Option (List ℕ))
      → Sub picked cs
      → length current + length picked ≡ target
      → enter linked target cs current rest ≡ none
      → (length current < target) × (rest ≡ none)
  unfolding enter
  enter-none cs current picked rest s n h = ground (arith, length-Sub s)

  abbrev deeper : List ℕ → List ℕ → ℕ → Option (List ℕ)
  deeper cs current node =
      enter linked target cs (current ++ node ∷ [])
        (search_loop linked target cs (current ++ node ∷ []))

  search_loop_sound :
      (cs current r : List ℕ)
      → IsClique current
      → search_loop linked target cs current ≡ some r
      → Extends current cs r
  unfolding search_loop
  search_loop_sound [] current r clique h = cc
  search_loop_sound (node ∷ cs) current r clique h =
      elim (Bool-cases (all (λ c. linked c node) current)) [
        | inr bad ↦
            Extends-skip current cs node (search_loop_sound cs current r clique (rw bad at h))
        | inl good ↦
            let clique' =
              Pairs-snoc (λ a b. linked a b ≡ true) current node clique
                ((all_iff (λ c. linked c node) current).0 good) in
            elim (Option-cases (deeper cs current node)) [
              | inl failed ↦
                  Extends-skip current cs node
                    (search_loop_sound cs current r clique (rw (good, failed) at h))
              | inr (r', found) ↦
                  let same : r' ≡ r = cc (rw (good, found) at h) in
                  Extends-keep current cs node (
                    enter_sound cs (current ++ node ∷ []) _ r clique'
                      (search_loop_sound cs (current ++ node ∷ []) r clique')
                      (found ∙ ap some same))
            ]
      ]

  search_loop_step :
      (cs current : List ℕ) (node : ℕ)
      → search_loop linked target (node ∷ cs) current ≡ none
      → (search_loop linked target cs current ≡ none)
        × (all (λ c. linked c node) current ≡ true → deeper cs current node ≡ none)
  unfolding search_loop
  search_loop_step cs current node h = elim (Bool-cases (all (λ c. linked c node) current)) [
    | inr bad ↦ (rw bad at h, λ good. cc)
    | inl good ↦ elim (Option-cases (deeper cs current node)) [
      | inl failed ↦ (rw (good, failed) at h, λ e. failed)
      | inr (r', found) ↦ cc (rw (good, found) at h)
    ]
  ]

  search_loop_complete :
      (cs current picked : List ℕ)
      → search_loop linked target cs current ≡ none
      → Sub picked cs
      → length current < target
      → length current + length picked ≡ target
      → ¬ IsClique (current ++ picked)
  search_loop_complete [] current picked h none_left short n clique = omega arith
  search_loop_complete (node ∷ cs) current (node' ∷ picked) h (keep _ s) short n clique =
      let linked_here =
        (all_iff (λ c. linked c node) current).1
          (Pairs-next (λ a b. linked a b ≡ true) current node picked clique) in
      let longer : length (current ++ node ∷ []) ≡ suc (length current) =
        omega (arith, length-append current (node ∷ [])) in
      let (short', failed) =
        enter-none cs (current ++ node ∷ []) picked _ s (omega arith)
          ((search_loop_step cs current node h).1 linked_here) in
      search_loop_complete cs (current ++ node ∷ []) picked failed s short' (omega arith)
        (subst IsClique (sym (snoc-append current node picked)) clique)
  search_loop_complete (node ∷ cs) current picked h (skip _ s) short n clique =
      search_loop_complete cs current picked (search_loop_step cs current node h).0 s short n clique

  -- A result of the search is a clique of the wanted size, made of candidates in their order.
  pub clique_search_sound :
      (cs r : List ℕ)
      → clique_search linked target cs [] ≡ some r
      → Sub r cs × (length r ≡ target) × IsClique r
  unfolding clique_search
  clique_search_sound cs r h =
      let (picked, e, s, n, clique) = enter_sound cs [] _ r tt (search_loop_sound cs [] r tt) h in
      (subst (λ l. Sub l cs) (sym e) s, n, clique)

  -- If the search fails, no list of candidates of the wanted size is a clique.
  pub clique_search_complete :
      (cs picked : List ℕ)
      → clique_search linked target cs [] ≡ none
      → Sub picked cs
      → length picked ≡ target
      → ¬ IsClique picked
  unfolding clique_search
  clique_search_complete cs picked h s n =
      let (short, failed) = enter-none cs [] picked _ s (omega arith) h in
      search_loop_complete cs [] picked failed s short (omega arith)
