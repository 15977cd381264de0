-- ===== src/Nccl/Healer/Playbook/Listing.antt =====
-- `list_playbooks`: the files of the directory that are playbooks, in the order of their names. The
-- directory's entries and the YAML parser are arguments.
use nemesis.Prelude.{
  Bool, true, false, ◌&&◌, ◌||◌, List, [], ◌∷◌, Option, none, some, ◌≡◌, refl, sym, ◌∙◌, ltb, ◌==◌,
  Bool-cases, inl, inr, if◌then◌else◌, All, All-map, Pairs, filter_by, Text, codes, text_eq,
  text_eq_sound, arith,
}
use nemesis.Nccl.Healer.Playbook.{PlaybookDef}

pub record Playbook : Type 0 where
  pub name : Text
  pub description : Text
  pub trigger : Text

-- An entry of the directory: its extension, and its content unless the file cannot be read.
pub record DirEntry : Type 0 where
  pub extension : Option Text
  pub content : Option Text

-- `str::cmp`: by the characters, which is the order of the bytes of UTF-8.
unfoldable pub text_less : Text → Text → Bool
text_less [] [] = false
text_less [] (b ∷ t) = true
text_less (a ∷ s) [] = false
text_less (a ∷ s) (b ∷ t) = ltb a b || a == b && text_less s t

-- `sort_by`, which is stable.
abbrev pub insert_by_name : Playbook → List Playbook → List Playbook
insert_by_name p [] = p ∷ []
insert_by_name p (q ∷ qs) = if text_less q.name p.name then q ∷ insert_by_name p qs else p ∷ q ∷ qs

abbrev pub sort_by_name : List Playbook → List Playbook
sort_by_name [] = []
sort_by_name (p ∷ ps) = insert_by_name p (sort_by_name ps)

abbrev has_extension : Text → Option Text → Bool
has_extension e none = false
has_extension e (some t) = text_eq t e

module _ (from_str : Text → Option PlaybookDef) where
  abbrev pub push_parsed : Option PlaybookDef → List Playbook → List Playbook
  push_parsed none playbooks = playbooks
  push_parsed (some def) playbooks =
      record { name = def.name; description = def.description; trigger = def.trigger } ∷ playbooks

  abbrev pub push_read : Option Text → List Playbook → List Playbook
  push_read none playbooks = playbooks
  push_read (some content) playbooks = push_parsed (from_str content) playbooks

  -- The loop over the entries; those that could not be read at all are `none`.
  unfoldable pub loadable : List (Option DirEntry) → List Playbook
  loadable [] = []
  loadable (none ∷ entries) = loadable entries
  loadable (some e ∷ entries) =
      let rest = loadable entries in
      if has_extension (codes "yaml") e.extension then push_read e.content rest else rest

  -- No directory, or one that cannot be read, has no playbooks.
  unfoldable pub list_playbooks : Option (Option (List (Option DirEntry))) → List Playbook
  unfolding loadable text_less
  list_playbooks none = []
  list_playbooks (some none) = []
  list_playbooks (some (some entries)) = sort_by_name (loadable entries)

text_less_irrefl : (s : Text) → text_less s s ≡ false
unfolding text_less
text_less_irrefl [] = refl
text_less_irrefl (a ∷ s) = ground (arith, text_less_irrefl s)

text_less_asym : (s t : Text) → text_less s t ≡ true → text_less t s ≡ false
unfolding text_less
text_less_asym [] [] h = cc
text_less_asym [] (b ∷ t) h = refl
text_less_asym (a ∷ s) [] h = cc
text_less_asym (a ∷ s) (b ∷ t) h = ground (arith, text_less_asym s t)

text_less_trans :
    (s t u : Text) → text_less t s ≡ false → text_less u t ≡ false → text_less u s ≡ false
unfolding text_less
text_less_trans [] t [] h k = refl
text_less_trans [] [] (c ∷ u) h k = refl
text_less_trans [] (b ∷ t) (c ∷ u) h k = refl
text_less_trans (a ∷ s) [] u h k = cc
text_less_trans (a ∷ s) (b ∷ t) [] h k = cc
text_less_trans (a ∷ s) (b ∷ t) (c ∷ u) h k = ground (arith, text_less_trans s t u)

-- The later name is not the smaller one.
abbrev pub Ordered : Playbook → Playbook → Type 0
Ordered p q = text_less q.name p.name ≡ false

All-insert_by_name :
    (P : Playbook → Type 0) (p : Playbook) (qs : List Playbook)
    → P p
    → All P qs
    → All P (insert_by_name p qs)
All-insert_by_name P p [] h k = (h, tt)
All-insert_by_name P p (q ∷ qs) h k = elim (Bool-cases (text_less q.name p.name)) [
  | inl e ↦ rw (e) (k.0, All-insert_by_name P p qs h k.1)
  | inr e ↦ rw (e) (h, k)
]

insert_by_name-Ordered :
    (p : Playbook) (qs : List Playbook) → Pairs Ordered qs → Pairs Ordered (insert_by_name p qs)
insert_by_name-Ordered p [] h = (tt, tt)
insert_by_name-Ordered p (q ∷ qs) h = elim (Bool-cases (text_less q.name p.name)) [
  | inl e ↦ rw (e) (
    All-insert_by_name (Ordered q) p qs (text_less_asym q.name p.name e) h.0,
    insert_by_name-Ordered p qs h.1,
  )
  | inr e ↦ rw (e) (
    (e, All-map (Ordered q) (Ordered p) qs (λ r k. text_less_trans p.name q.name r.name e k) h.0),
    h,
  )
]

sort_by_name-Ordered : (ps : List Playbook) → Pairs Ordered (sort_by_name ps)
sort_by_name-Ordered [] = tt
sort_by_name-Ordered (p ∷ ps) = insert_by_name-Ordered p (sort_by_name ps) (sort_by_name-Ordered ps)

-- The playbooks of one name, in their order.
abbrev pub named : Text → List Playbook → List Playbook
named n = filter_by (λ p. text_eq p.name n)

named-insert_by_name :
    (n : Text) (p : Playbook) (qs : List Playbook)
    → named n (insert_by_name p qs) ≡ named n (p ∷ qs)
named-insert_by_name n p [] = refl
named-insert_by_name n p (q ∷ qs) = elim (Bool-cases (text_less q.name p.name)) [
  | inr e ↦ rw (e) refl
  | inl e ↦ elim (Bool-cases (text_eq p.name n)) [
    | inr other ↦ rw (e, named-insert_by_name n p qs, other) refl
    | inl same ↦ elim (Bool-cases (text_eq q.name n)) [
      | inr apart ↦ rw (e, named-insert_by_name n p qs, apart, same) refl
      | inl both ↦
          let equal = text_eq_sound q.name n both ∙ sym (text_eq_sound p.name n same) in
          let loop : text_less p.name p.name ≡ true = rw (equal) at e in
          cc (text_less_irrefl p.name)
    ]
  ]
]

named-sort_by_name : (n : Text) (ps : List Playbook) → named n (sort_by_name ps) ≡ named n ps
named-sort_by_name n [] = refl
named-sort_by_name n (p ∷ ps) = elim (Bool-cases (text_eq p.name n)) [
  | inl e ↦ named-insert_by_name n p (sort_by_name ps) ∙ (rw (e, named-sort_by_name n ps) refl)
  | inr e ↦ named-insert_by_name n p (sort_by_name ps) ∙ (rw (e, named-sort_by_name n ps) refl)
]

-- The playbooks of a directory are listed in the order of their names, and those of any one name
-- are the ones that the directory's entries load, in the order of the entries.
pub list_playbooks_lem :
    (from_str : Text → Option PlaybookDef) (entries : List (Option DirEntry)) (n : Text)
    → let listed = list_playbooks from_str (some (some entries)) in
      Pairs Ordered listed × (named n listed ≡ named n (loadable from_str entries))
unfolding list_playbooks
list_playbooks_lem from_str entries n = (
  sort_by_name-Ordered (loadable from_str entries),
  named-sort_by_name n (loadable from_str entries),
)
