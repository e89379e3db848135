-- ===== src/Database/Assoc.antt =====
-- An in-memory collection that satisfies the laws of `Collection`: it shows that they can be met,
-- and concrete inputs run on it. Its calls never fail.
use gdrive_bot.Base.{
  ok_inj, ◌≡◌, ◌≢◌, refl, sym, subst, ◌∙◌, Bool, true, false, Option, none, some, List, [], ◌∷◌,
  inl, inr, ◌⊎◌, Error, plain, bytes, ok, length, some_inj, Bool-cases, if◌then◌else◌,
}
use gdrive_bot.Database.{Collection, In}

module _ {K V : Type 0} (d : Discrete K) where
  abbrev doc_at : List (K × V) → K → Option V
  doc_at [] k = none
  doc_at ((j, v) ∷ s) k = elim (d j k) [ yes _ ↦ some v | no _ ↦ doc_at s k ]

  abbrev without : K → List (K × V) → List (K × V)
  without k [] = []
  without k ((j, v) ∷ s) =
      let rest = without k s in elim (d j k) [ yes _ ↦ rest | no _ ↦ (j, v) ∷ rest ]

  abbrev put : List (K × V) → K → Option V → List (K × V)
  put s k none = without k s
  put s k (some v) = (k, v) ∷ without k s

  -- the documents that pass, by the keys of a list
  abbrev keep : (V → Bool) → Option V → List V → List V
  keep p none rest = rest
  keep p (some v) rest = if p v then v ∷ rest else rest

  abbrev select : List (K × V) → (V → Bool) → List (K × V) → List V
  select s p [] = []
  select s p ((k, v) ∷ ks) = keep p (doc_at s k) (select s p ks)

  doc_at-without_self : (k : K) (s : List (K × V)) → doc_at (without k s) k ≡ none
  doc_at-without_self k [] = refl
  doc_at-without_self k ((j, v) ∷ s) =
      elim (d j k)
        as (λ x. doc_at (elim x [ yes _ ↦ without k s | no _ ↦ (j, v) ∷ without k s ]) k ≡ none) [
          | yes e ↦ doc_at-without_self k s
          | no n ↦
              elim (d j k)
                as (λ x. elim x [ yes _ ↦ some v | no _ ↦ doc_at (without k s) k ] ≡ none) [
                  | yes e ↦ absurd (n e)
                  | no _ ↦ doc_at-without_self k s
                ]
        ]

  doc_at-without_ne : (k j : K) (s : List (K × V)) → k ≢ j → doc_at (without k s) j ≡ doc_at s j
  doc_at-without_ne k j [] h = refl
  doc_at-without_ne k j ((i, v) ∷ s) h =
      elim (d i k)
        as (λ x.
          doc_at (elim x [ yes _ ↦ without k s | no _ ↦ (i, v) ∷ without k s ]) j
          ≡ elim (d i j) [ yes _ ↦ some v | no _ ↦ doc_at s j ]) [
            | yes e ↦
                elim (d i j)
                  as (λ x. doc_at (without k s) j ≡ elim x [ yes _ ↦ some v | no _ ↦ doc_at s j ]) [
                    | yes f ↦ absurd (h (sym e ∙ f))
                    | no _ ↦ doc_at-without_ne k j s h
                  ]
            | no n ↦
                elim (d i j)
                  as (λ x.
                    elim x [ yes _ ↦ some v | no _ ↦ doc_at (without k s) j ]
                    ≡ elim x [ yes _ ↦ some v | no _ ↦ doc_at s j ]) [
                      | yes f ↦ refl
                      | no _ ↦ doc_at-without_ne k j s h
                    ]
          ]

  pub put_docs : (s : List (K × V)) (k : K) (o : Option V) → doc_at (put s k o) k ≡ o
  put_docs s k none = doc_at-without_self k s
  put_docs s k (some v) =
      elim (d k k) as (λ x. elim x [ yes _ ↦ some v | no _ ↦ doc_at (without k s) k ] ≡ some v) [
        | yes _ ↦ refl
        | no n ↦ absurd (n refl)
      ]

  pub put_other :
      (s : List (K × V)) (k : K) (o : Option V) (j : K) → k ≢ j → doc_at (put s k o) j ≡ doc_at s j
  put_other s k none j h = doc_at-without_ne k j s h
  put_other s k (some v) j h =
      elim (d k j)
        as (λ x. elim x [ yes _ ↦ some v | no _ ↦ doc_at (without k s) j ] ≡ doc_at s j) [
          | yes e ↦ absurd (h e)
          | no _ ↦ doc_at-without_ne k j s h
        ]

  keep_sound :
      (p : V → Bool) (o : Option V) (rest : List V) (v : V)
      → In v (keep p o rest)
      → ((p v ≡ true) × (o ≡ some v)) ⊎ In v rest
  keep_sound p none rest v h = inr h
  keep_sound p (some w) rest v h = elim (Bool-cases (p w)) [
    | inl e ↦ first (subst (λ b. In v (if b then w ∷ rest else rest)) e h) e
    | inr e ↦ inr (subst (λ b. In v (if b then w ∷ rest else rest)) e h)
  ]
    where
      first : (v ≡ w) ⊎ In v rest → p w ≡ true → ((p v ≡ true) × (some w ≡ some v)) ⊎ In v rest
      first (inl q) e = inl (subst (λ x. p x ≡ true) (sym q) e, λ i. some (sym q i))
      first (inr q) e = inr q

  pub select_sound :
      (s : List (K × V)) (p : V → Bool) (ks : List (K × V)) (v : V)
      → In v (select s p ks)
      → (p v ≡ true) × ((k : K) × (doc_at s k ≡ some v))
  select_sound s p [] v h = absurd h
  select_sound s p ((k, w) ∷ ks) v h = elim (keep_sound p (doc_at s k) (select s p ks) v h) [
    | inl (a, b) ↦ (a, (k, b))
    | inr t ↦ select_sound s p ks v t
  ]

  keep_rest :
      (p : V → Bool) (o : Option V) (rest : List V) (v : V) → In v rest → In v (keep p o rest)
  keep_rest p none rest v h = h
  keep_rest p (some w) rest v h = elim (p w) as (λ b. In v (if b then w ∷ rest else rest)) [
    | true ↦ inr h
    | false ↦ h
  ]

  keep_self :
      (p : V → Bool) (o : Option V) (rest : List V) (v : V)
      → o ≡ some v
      → p v ≡ true
      → In v (keep p o rest)
  keep_self p o rest v e t =
      subst (λ x. In v (keep p x rest)) (sym e)
        (subst (λ b. In v (if b then v ∷ rest else rest)) (sym t) (inl refl))

  pub select_complete :
      (s : List (K × V)) (p : V → Bool) (ks : List (K × V)) (k : K) (v w : V)
      → doc_at ks k ≡ some w
      → doc_at s k ≡ some v
      → p v ≡ true
      → In v (select s p ks)
  select_complete s p [] k v w h e t = cc
  select_complete s p ((j, x) ∷ ks) k v w h e t =
      split (λ g. select_complete s p ks k v w g e t) (d j k) h
    where
      split :
          (doc_at ks k ≡ some w → In v (select s p ks))
          → (q : Dec (j ≡ k)) → elim q [ yes _ ↦ some x | no _ ↦ doc_at ks k ] ≡ some w
          → In v (keep p (doc_at s j) (select s p ks))
      split more (yes q) g =
          keep_self p (doc_at s j) _ v (subst (λ i. doc_at s i ≡ some v) (sym q) e) t
      split more (no q) g = keep_rest p (doc_at s j) _ v (more g)

  abbrev first_of_list : List V → Option V
  first_of_list [] = none
  first_of_list (v ∷ vs) = some v

  pub first_some : (vs : List V) (v : V) → first_of_list vs ≡ some v → In v vs
  first_some [] v e = cc
  first_some (w ∷ vs) v e = inl (sym (some_inj e))

  first_none : (vs : List V) (v : V) → first_of_list vs ≡ none → ¬ In v vs
  first_none [] v e h = h
  first_none (w ∷ vs) v e h = cc

  pub find_none :
      (s : List (K × V)) (p : V → Bool) (k : K) (v : V)
      → first_of_list (select s p s) ≡ none
      → doc_at s k ≡ some v
      → p v ≡ false
  find_none s p k v e h = elim (Bool-cases (p v)) [
    | inl t ↦ absurd (first_none _ v e (select_complete s p s k v v h h t))
    | inr f ↦ f
  ]

  abbrev inserted : List (K × V) → K → V → Option V → List (K × V) × Option Error
  inserted s k v none = (put s k (some v), none)
  inserted s k v (some w) = (s, some (plain (bytes "E11000 duplicate key error")))

  pub inserted_docs :
      (s : List (K × V)) (k : K) (v : V) (o : Option V)
      → doc_at s k ≡ o
      → (inserted s k v o).1 ≡ none
      → (doc_at s k ≡ none) × (doc_at (inserted s k v o).0 k ≡ some v)
  inserted_docs s k v none e h = (e, put_docs s k (some v))
  inserted_docs s k v (some w) e h = cc

  pub inserted_other :
      (s : List (K × V)) (k : K) (v : V) (o : Option V) (j : K)
      → k ≢ j
      → doc_at (inserted s k v o).0 j ≡ doc_at s j
  inserted_other s k v none j h = put_other s k (some v) j h
  inserted_other s k v (some w) j h = refl

  abbrev pub assoc_collection : Collection K V
  assoc_collection = record {
    Store = List (K × V);
    docs = doc_at;
    find_one = λ s k. ok (doc_at s k);
    find_first = λ s p. ok (first_of_list (select s p s));
    find_all = λ s p. ok (select s p s);
    count = λ s p. ok (length (select s p s));
    write = λ s k f. (put s k (f (doc_at s k)), none);
    insert_one = λ s k v. inserted s k v (doc_at s k);
    insert_docs = λ s k v h. inserted_docs s k v (doc_at s k) refl h;
    insert_other = λ s k v j h. inserted_other s k v (doc_at s k) j h;
    find_one_docs = λ s k o e. sym (ok_inj e);
    find_first_some = λ s p v e. select_sound s p s v (first_some _ v (ok_inj e));
    find_first_none = λ s p k v e h. find_none s p k v (ok_inj e) h;
    find_all_sound = λ s p vs v e h. select_sound s p s v (subst (In v) (sym (ok_inj e)) h);
    find_all_complete =
        λ s p vs k v e h t. subst (In v) (ok_inj e) (select_complete s p s k v v h h t);
    write_docs = λ s k f e. put_docs s k (f (doc_at s k));
    write_atomic = λ s k f. inl (put_docs s k (f (doc_at s k)));
    write_other = λ s k f j h. put_other s k (f (doc_at s k)) j h;
  }
