-- ===== src/Graph/IbPath/Search.antt =====
-- The depth-first search finds a path exactly where there is one, and ends.
use nemesis.Prelude.{
  ℕ, zero, suc, ◌+◌, ◌<◌, ◌≤◌, Bool, true, false, List, [], ◌∷◌, ◌++◌, ◌≡◌, ◌≢◌, refl, sym, ◌∙◌,
  subst, Mem, All, Distinct, Chain, Chain-snoc, Pairs-snoc, Pairs-next, All-append,
  not_contains_iff, contains, pigeonhole, length, length-append, arith, Bool-cases, inl, inr,
  append_assoc, ◌==◌, ==_iff, ◌⊎◌, All-map, All-right, Chain-at,
}
use nemesis.Graph.Petgraph.{EdgeRef}
use nemesis.Graph.Cluster.{Link, LinkKind, nv_link, pcie, infini_band}
use nemesis.Graph.IbPath.{
  Dfs, found, absent, out_of_fuel, neighbour, in_reach, takes, try_edges, dfs_ib_path,
  is_infini_band,
}

pub Dfs-cases :
    {A : Type 0} (d : Dfs A) → (((a : A) × (d ≡ found a)) ⊎ (d ≡ absent)) ⊎ (d ≡ out_of_fuel)
Dfs-cases (found a) = inl (inl (a, refl))
Dfs-cases absent = inl (inr refl)
Dfs-cases out_of_fuel = inr refl

is_infini_band_sound : (k : LinkKind) → is_infini_band k ≡ true → k ≡ infini_band
is_infini_band_sound infini_band h = refl
is_infini_band_sound nv_link h = cc
is_infini_band_sound pcie h = cc

module _ {F : Type 0} where
  -- `a` is one end, `b` the other; a loop has its node at both.
  abbrev pub OtherEnd : ℕ → ℕ → EdgeRef (Link F) → Type 0
  OtherEnd a b e = ((e.source ≡ a) × (e.target ≡ b)) ⊎ ((e.source ≢ a) × (e.source ≡ b))

  neighbour-OtherEnd : (a : ℕ) (e : EdgeRef (Link F)) → OtherEnd a (neighbour a e) e
  neighbour-OtherEnd a e = elim (Bool-cases (e.source == a)) [
    | inl t ↦ rw (t) (inl ((==_iff e.source a).0 t, refl))
    | inr f ↦ rw (f) (inr (ground arith, refl))
  ]

  OtherEnd-neighbour : (a b : ℕ) (e : EdgeRef (Link F)) → OtherEnd a b e → neighbour a e ≡ b
  OtherEnd-neighbour a b e (inl (from, to)) = rw ((==_iff e.source a).1 from) to
  OtherEnd-neighbour a b e (inr (off, to)) = elim (Bool-cases (e.source == a)) [
    | inl t ↦ absurd (off ((==_iff e.source a).0 t))
    | inr f ↦ rw (f) to
  ]

module _ {F : Type 0} (healthy : ℕ → Bool) (max_hops : ℕ) where
  module _ (step : ℕ → List ℕ → Dfs (List ℕ)) (current : ℕ) (path : List ℕ) where
    -- What the loop tells of the call behind an edge that it takes.
    abbrev Behind : EdgeRef (Link F) → Dfs (List ℕ) → Type 0
    Behind e out =
        let next = neighbour current e in
        (takes healthy max_hops current path e ≡ true) × (step next (path ++ next ∷ []) ≡ out)

    abbrev loop : List (EdgeRef (Link F)) → Dfs (List ℕ)
    loop = try_edges healthy max_hops step current path

    -- The outcome is that of the call behind the first edge, or that of the other edges.
    loop_cases :
        (e : EdgeRef (Link F)) (es : List (EdgeRef (Link F))) (out : Dfs (List ℕ))
        → loop (e ∷ es) ≡ out
        → (Behind e out × (out ≢ absent))
          ⊎ ((loop es ≡ out) × ((takes healthy max_hops current path e ≡ true) → Behind e absent))
    unfolding try_edges
    loop_cases e es out h =
        let next = neighbour current e in
        elim (Bool-cases (takes healthy max_hops current path e)) [
          | inr passed ↦ inr (rw passed at h, λ t. absurd (cc))
          | inl taken ↦ elim (Dfs-cases (step next (path ++ next ∷ []))) [
            | inl (inl (r, e')) ↦
                inl ((taken, e' ∙ rw (taken, e') at h), λ k. cc (rw (taken, e') at h))
            | inl (inr e') ↦ inr (rw (taken, e') at h, λ t. (taken, e'))
            | inr e' ↦ inl ((taken, e' ∙ rw (taken, e') at h), λ k. cc (rw (taken, e') at h))
          ]
        ]

    loop-Behind :
        (es : List (EdgeRef (Link F))) (out : Dfs (List ℕ))
        → out ≢ absent
        → loop es ≡ out
        → (e : EdgeRef (Link F)) × Mem e es × Behind e out
    loop-Behind [] out real h = absurd (real (sym h ∙ unfold try_edges in refl))
    loop-Behind (e ∷ es) out real h = elim (loop_cases e es out h) [
      | inl (behind, _) ↦ (e, inl refl, behind)
      | inr (later, _) ↦ let (e', m, behind) = loop-Behind es out real later in (e', inr m, behind)
    ]

    loop_absent :
        (es : List (EdgeRef (Link F))) (e : EdgeRef (Link F))
        → loop es ≡ absent
        → Mem e es
        → takes healthy max_hops current path e ≡ true
        → step (neighbour current e) (path ++ neighbour current e ∷ []) ≡ absent
    loop_absent (d ∷ es) e h m t = elim (loop_cases d es absent h) [
      | inl (_, real) ↦ absurd (real refl)
      | inr (later, first) ↦ elim m [
        | inl e' ↦ rw e' ((first (rw e' at t)).1)
        | inr m' ↦ loop_absent es e later m' t
      ]
    ]
    loop_absent [] e h m t = absurd m

  module _ (edges : ℕ → List (EdgeRef (Link F))) (target : ℕ) where
    -- An edge of `a` has `b` at its other end and is InfiniBand within the hops.
    abbrev pub Hop : ℕ → ℕ → Type 0
    Hop a b =
        (e : EdgeRef (Link F)) × Mem e (edges a)
        × OtherEnd a b e
        × (e.weight.kind ≡ infini_band)
        × (e.weight.ib_hop_count ≤ max_hops)

    in_reach-Hop :
        (a : ℕ) (e : EdgeRef (Link F))
        → Mem e (edges a)
        → in_reach max_hops e ≡ true
        → Hop a (neighbour a e)
    in_reach-Hop a e m reach =
        let kind : is_infini_band e.weight.kind ≡ true = ground arith in
        let short : e.weight.ib_hop_count ≤ max_hops = ground arith in
        (e, m, neighbour-OtherEnd a e, is_infini_band_sound e.weight.kind kind, short)

    Hop-in_reach :
        (a b : ℕ)
        → Hop a b
        → (e : EdgeRef (Link F)) × Mem e (edges a)
          × (neighbour a e ≡ b)
          × (in_reach max_hops e ≡ true)
    Hop-in_reach a b (e, m, other, kind, short) =
        let reach : in_reach max_hops e ≡ true = rw (kind) (ground arith) in
        (e, m, OtherEnd-neighbour a b e other, reach)

    abbrev pub Well : ℕ → Type 0
    Well i = healthy i ≡ true

    -- A simple path of healthy nodes.
    pub record IsIbPath (path : List ℕ) : Type 0 where
      pub hops : Chain Hop path
      pub well : All Well path
      pub simple : Distinct path

    abbrev search : ℕ → ℕ → List ℕ → Dfs (List ℕ)
    search = dfs_ib_path healthy max_hops edges target

    -- An edge that the loop takes leads to a longer simple path.
    takes_lem :
        (front : List ℕ) (current : ℕ) (e : EdgeRef (Link F))
        → Mem e (edges current)
        → takes healthy max_hops current (front ++ current ∷ []) e ≡ true
        → IsIbPath (front ++ current ∷ [])
        → IsIbPath ((front ++ current ∷ []) ++ neighbour current e ∷ [])
    takes_lem front current e m t p =
        let next = neighbour current e in
        let path = front ++ current ∷ [] in
        let fresh : contains path next ≡ false = ground arith in
        let ok_next : healthy next ≡ true = ground arith in
        let reach : in_reach max_hops e ≡ true = ground arith in
        record {
          hops = Chain-snoc Hop front current next p.hops (in_reach-Hop current e m reach);
          well = All-append Well path (next ∷ []) p.well (ok_next, tt);
          simple = Pairs-snoc ◌≢◌ path next p.simple ((not_contains_iff path next).0 fresh);
        }

    pub dfs_sound :
        (fuel : ℕ) (front : List ℕ) (current : ℕ) (r : List ℕ)
        → IsIbPath (front ++ current ∷ [])
        → search fuel current (front ++ current ∷ []) ≡ found r
        → IsIbPath r × (length r ≡ target)
    unfolding dfs_ib_path
    dfs_sound zero front current r p h = absurd (cc)
    dfs_sound (suc fuel) front current r p h =
        let path = front ++ current ∷ [] in
        elim (Bool-cases (length path == target)) [
          | inl done ↦
              let same : path ≡ r = cc (rw done at h) in
              subst (λ l. IsIbPath l × (length l ≡ target)) same (p, (==_iff _ _).0 done)
          | inr more ↦
              let (e, m, behind) =
                loop-Behind (search fuel) current path (edges current) (found r) (λ k. cc)
                  (rw more at h) in
              dfs_sound fuel path (neighbour current e) r (takes_lem front current e m behind.0 p)
                behind.1
        ]

    -- Fuel above the number of nodes that are left suffices.
    pub dfs_fuel :
        (nodes : List ℕ)
        → ((i : ℕ) → Well i → Mem i nodes)
        → (fuel : ℕ) (front : List ℕ) (current : ℕ) → IsIbPath (front ++ current ∷ [])
        → length nodes < fuel + length (front ++ current ∷ [])
        → search fuel current (front ++ current ∷ []) ≢ out_of_fuel
    unfolding dfs_ib_path
    dfs_fuel nodes all_in zero front current p enough h =
        let path = front ++ current ∷ [] in
        omega (
          arith,
          pigeonhole path nodes p.simple (All-map Well (λ i. Mem i nodes) path all_in p.well),
        )
    dfs_fuel nodes all_in (suc fuel) front current p enough h =
        let path = front ++ current ∷ [] in
        elim (Bool-cases (length path == target)) [
          | inl done ↦ cc (rw done at h)
          | inr more ↦
              let (e, m, behind) =
                loop-Behind (search fuel) current path (edges current) out_of_fuel (λ k. cc)
                  (rw more at h) in
              let next = neighbour current e in
              dfs_fuel nodes all_in fuel path next (takes_lem front current e m behind.0 p)
                (omega (arith, length-append path (next ∷ []))) behind.1
        ]

    -- The test of the loop passes at an edge to a next node of a simple path.
    takes_next :
        (path : List ℕ) (current : ℕ) (e : EdgeRef (Link F)) (ext : List ℕ)
        → in_reach max_hops e ≡ true
        → IsIbPath (path ++ neighbour current e ∷ ext)
        → takes healthy max_hops current path e ≡ true
    takes_next path current e ext reach p =
        let next = neighbour current e in
        let fresh = (not_contains_iff path next).1 (Pairs-next ◌≢◌ path next ext p.simple) in
        let ok_next = (All-right Well path (next ∷ ext) p.well).0 in
        ground (arith, fresh, ok_next, reach)

    pub dfs_complete :
        (fuel : ℕ) (front : List ℕ) (current : ℕ) (ext : List ℕ)
        → search fuel current (front ++ current ∷ []) ≡ absent
        → length (front ++ current ∷ []) + length ext ≡ target
        → ¬ IsIbPath ((front ++ current ∷ []) ++ ext)
    unfolding dfs_ib_path
    dfs_complete zero front current ext h n p = cc
    dfs_complete (suc fuel) front current [] h n p =
        let done = (==_iff (length (front ++ current ∷ [])) target).1 (omega arith) in
        cc (rw done at h)
    dfs_complete (suc fuel) front current (next ∷ ext) h n p =
        let path = front ++ current ∷ [] in
        elim (Bool-cases (length path == target)) [
          | inl done ↦ omega (arith, (==_iff (length path) target).0 done)
          | inr more ↦
              let whole : path ++ next ∷ ext ≡ front ++ current ∷ next ∷ ext =
                append_assoc front (current ∷ []) (next ∷ ext) in
              let (e, m, to, reach) =
                Hop-in_reach current next
                  (Chain-at Hop front current next ext (subst (Chain Hop) whole p.hops)) in
              let p' : IsIbPath (path ++ neighbour current e ∷ ext) =
                subst (λ k. IsIbPath (path ++ k ∷ ext)) (sym to) p in
              let failed =
                loop_absent (search fuel) current path (edges current) e (rw more at h) m
                  (takes_next path current e ext reach p') in
              dfs_complete fuel path (neighbour current e) ext failed
                (omega (arith, length-append path (neighbour current e ∷ [])))
                (subst IsIbPath (sym (append_assoc path (neighbour current e ∷ []) ext)) p')
        ]
