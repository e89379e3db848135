-- ===== src/Database/Settings/Laws.antt =====
-- internal/database/settings.go: what a read finds after an update.
use gdrive_bot.Base.{
  ℕ, ◌≡◌, refl, sym, ◌∙◌, ap, subst, Option, none, some, ℤ, pos, Error, Result, ok, err, ok_inj,
  continue-ok, Result-cases, inl, inr,
}
use gdrive_bot.Database.{Collection}
use gdrive_bot.Database.Settings.{answered, mutated, seed, get_or_create, replace, update}
use gdrive_bot.Models.{Settings, default_settings}

module _ (col : Collection (Unit {0}) Settings) where
  abbrev Holds : Settings → col.Store × Result Settings → Type 0
  Holds v (s, r) = col.docs s tt ≡ some v

  answered-Holds :
      (v x : Settings) (p : col.Store × Option Error)
      → (p.1 ≡ none → col.docs p.0 tt ≡ some v)
      → (answered v p).1 ≡ ok x
      → (x ≡ v) × Holds v (answered v p)
  answered-Holds v x (s, none) h e = (sym (ok_inj e), h refl)
  answered-Holds v x (s, some g) h e = cc

  replace-Holds :
      (v x : Settings) (s : col.Store)
      → (replace col v s).1 ≡ ok x
      → (x ≡ v) × Holds v (replace col v s)
  unfolding replace
  replace-Holds v x s e =
      answered-Holds v x (col.write s tt (λ _. some v)) (λ n. col.write_docs s tt (λ _. some v) n) e

  -- a read of a document that is there
  seed-Holds :
      (d v x : Settings) (s : col.Store) (r : Result (Option Settings))
      → r ≡ ok (some v)
      → (seed col d r s).1 ≡ ok x
      → x ≡ v
  unfolding seed
  seed-Holds d v x s (ok none) q e = cc
  seed-Holds d v x s (ok (some u)) q e = cc
  seed-Holds d v x s (err g) q e = cc

  seed_same :
      (d v : Settings) (s : col.Store) (r : Result (Option Settings))
      → ((o : Option Settings) → r ≡ ok o → o ≡ some v)
      → (seed col d r s).0 ≡ s
  unfolding seed
  seed_same d v s (ok none) h = cc (h none refl)
  seed_same d v s (ok (some u)) h = refl
  seed_same d v s (err g) h = refl

  -- A read writes nothing where there is a document.
  pub get_or_create_same :
      (d v : Settings) (s : col.Store) → col.docs s tt ≡ some v → (get_or_create col d s).0 ≡ s
  unfolding get_or_create
  get_or_create_same d v s h =
      seed_same d v s (col.find_one s tt) (λ o e. col.find_one_docs s tt o e ∙ h)

  -- Where an update succeeds, it returns what it made of the settings that a read found before, or of
  -- the defaults, and a later read that succeeds finds that.
  pub get_or_create-update :
      (now : ℕ) (by : ℤ) (mutate : Settings → Settings) (s : col.Store) (defaults v : Settings)
      → (update col now by mutate s).1 ≡ ok v
      → ((c : Settings) × ((get_or_create col
              (default_settings now (pos 4) (pos 50) (pos 0) (pos 0))
              s).1
            ≡ ok c)
          × (v ≡ mutated now by mutate c))
        × ((x : Settings)
            → (get_or_create col defaults (update col now by mutate s).0).1 ≡ ok x
            → x ≡ v)
  unfolding update get_or_create
  get_or_create-update now by mutate s defaults v e =
      let first = get_or_create col (default_settings now (pos 4) (pos 50) (pos 0) (pos 0)) s in
      let (c, found, rest) = continue-ok first (λ c. replace col (mutated now by mutate c)) e in
      let (same, holds) =
        replace-Holds (mutated now by mutate c) v first.0 (sym (ap (λ p. p.1) rest) ∙ e) in
      (
        (c, found, same),
        λ x g.
            read-Holds defaults (mutated now by mutate c) x (update col now by mutate s)
              (subst (Holds (mutated now by mutate c)) (sym rest) holds) g
            ∙ sym same,
      )
    where
      read-Holds :
          (d u x : Settings) (p : col.Store × Result Settings)
          → Holds u p
          → (seed col d (col.find_one p.0 tt) p.0).1 ≡ ok x
          → x ≡ u
      read-Holds d u x p h g = elim (Result-cases (col.find_one p.0 tt)) [
        | inl (o, q) ↦
            seed-Holds d u x p.0 _ (q ∙ ap (λ o. ok o) (col.find_one_docs p.0 tt o q ∙ h)) g
        | inr (y, q) ↦ cc (subst (λ r. (seed col d r p.0).1 ≡ ok x) q g)
      ]
